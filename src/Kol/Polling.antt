-- ===== src/Kol/Polling.antt =====
-- All that waits comes to an end, in whatever order the timers run.
use cmoon.Base.{
  ap, ℕ, zero, suc, ◌+◌, ◌*◌, ◌/◌, ◌≤◌, ◌<◌, ◌≡◌, refl, List, [], ◌∷◌, some, ltb, length,
  length-append, arith, Bool-cases, inl, inr,
}
use cmoon.Kol.{
  Env, Wait, Kol, holds, runs, chat_script, stat_post, client_start, exec_after, without_at,
  wait_at, tick,
}

abbrev pub Timer : Type 0
Timer = ℕ × Env

unfoldable pub ticks : List Timer → Kol → Kol
ticks [] k = k
ticks ((n, e) ∷ ts) k = ticks ts (tick n e k)

-- Each timer is that of one that waits.
abbrev pub AreDue : List Timer → Kol → Type 0
AreDue [] k = Unit
AreDue ((n, e) ∷ ts) k = (n < length k.waits) × AreDue ts (tick n e k)

length-without_at :
    (n : ℕ) (ws : List Wait) → n < length ws → suc (length (without_at n ws)) ≡ length ws
length-without_at n [] h = absurd (omega (arith, h))
length-without_at zero (w ∷ ws) h = refl
length-without_at (suc n) (w ∷ ws) h = ap suc (length-without_at n ws (omega (arith, h)))

wait_at-some : (n : ℕ) (ws : List Wait) → n < length ws → (w : Wait) × (wait_at n ws ≡ some w)
wait_at-some n [] h = absurd (omega (arith, h))
wait_at-some zero (w ∷ ws) h = (w, refl)
wait_at-some (suc n) (w ∷ ws) h = wait_at-some n ws (omega (arith, h))

runs-keeps :
    (w : Wait) (e : Env) (k : Kol) → ((runs w e k).etime ≡ k.etime) × ((runs w e k).waits ≡ k.waits)
unfolding runs
runs-keeps chat_script e k = (refl, refl)
runs-keeps (stat_post a) e k = (refl, refl)
runs-keeps client_start e k = (refl, refl)

-- The counter stays small, and is 0 where nothing waits.
pub record IsCounted (k : Kol) : Type 0 where
  pub small : k.etime ≤ 110
  pub none_waits : k.etime ≤ 110 * length k.waits

-- One call either waits on and counts, or ends and begins to count anew.
record Counts (k d : Kol) : Type 0 where
  counted : IsCounted d
  less : 111 * length d.waits + (k.etime + 1) ≤ 111 * suc (length k.waits) + d.etime

ends : (k d : Kol) → k.etime ≤ 110 → d.etime ≡ 0 → d.waits ≡ k.waits → Counts k d
ends k d h e f =
    let l : length d.waits ≡ length k.waits = ap length f in
    record {
      counted = record { small = omega (arith, e); none_waits = omega (arith, e) };
      less = omega (arith, h, e, l);
    }

exec_after-Counts : (w : Wait) (e : Env) (k : Kol) → k.etime ≤ 110 → Counts k (exec_after w 0 e k)
unfolding exec_after
exec_after-Counts w e k h = elim (Bool-cases (ltb 10 (k.etime / 10))) [
  | inl over ↦ rw over (ends k (record k { etime = 0 }) h refl refl)
  | inr more ↦ elim (Bool-cases (holds w e)) [
    | inl yes_now ↦
        let r = runs-keeps w e (record k { etime = 0 }) in
        rw (more, yes_now) (ends k (runs w e (record k { etime = 0 })) h r.0 r.1)
    | inr not_yet ↦
        let l = length-append k.waits (w ∷ []) in
        rw (more, not_yet)
          (record {
            counted = record { small = ground (arith, more); none_waits = ground (arith, more, l) };
            less = omega (arith, l);
          })
  ]
]

tick-Counts :
    (n : ℕ) (e : Env) (k : Kol)
    → n < length k.waits
    → IsCounted k
    → (let d = tick n e k in
        IsCounted d × (111 * length d.waits + (k.etime + 1) ≤ 111 * length k.waits + d.etime))
unfolding tick
tick-Counts n e k h c =
    let (w, g) = wait_at-some n k.waits h in
    let u : Kol = record k { waits = without_at n k.waits } in
    let t = exec_after-Counts w e u c.small in
    let l = length-without_at n k.waits h in rw (tick, g) (t.counted, omega (arith, t.less, l))

ticks-less :
    (ts : List Timer) (k : Kol)
    → AreDue ts k
    → IsCounted k
    → (let d = ticks ts k in
        IsCounted d
        × (111 * length d.waits + (k.etime + length ts) ≤ 111 * length k.waits + d.etime))
unfolding ticks
ticks-less [] k a c = (c, omega arith)
ticks-less ((n, e) ∷ ts) k (h, a) c =
    let (c', l) = tick-Counts n e k h c in
    let (c'', m) = ticks-less ts (tick n e k) a c' in (c'', omega (arith, l, m))

-- Whatever the conditions are and in whatever order the timers of those that wait run: they run at
-- most 111 times for each that waits, less what was counted.
length-ticks :
    (ts : List Timer) (k : Kol)
    → AreDue ts k
    → IsCounted k
    → length ts + k.etime ≤ 111 * length k.waits
length-ticks ts k a c = let (d, l) = ticks-less ts k a c in omega (arith, l, d.none_waits)
