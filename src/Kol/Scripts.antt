-- ===== src/Kol/Scripts.antt =====
-- The script of the chat is loaded once.
use cmoon.Base.{
  ap, ℕ, zero, suc, ◌+◌, ◌/◌, ◌≤◌, ◌≡◌, refl, Bool, true, false, ◌||◌, List, [], ◌∷◌, ◌++◌, Option,
  none, some, ltb, if◌then◌else◌, arith, Bool-cases, Option-cases, inl, inr, Exit, finished, units,
}
use cmoon.Util.{seconds}
use cmoon.Kol.{
  Env, Wait, chat_script, stat_post, client_start, Loaded, chatb, chatc, chat, stat, client, Kol,
  Opts, holds, runs, exec_after, without_at, wait_at, tick, plugin_log, is_old, name_or, init,
  onready,
}

-- How often the script was loaded, and how often it waits to be.
abbrev pub loads : List Loaded → ℕ
loads [] = 0
loads (chatb ∷ ls) = loads ls
loads (chatc ∷ ls) = loads ls
loads (chat u ∷ ls) = suc (loads ls)
loads (stat a ∷ ls) = loads ls
loads (client a ∷ ls) = loads ls

abbrev one_if : Wait → ℕ
one_if chat_script = 1
one_if (stat_post a) = 0
one_if client_start = 0

abbrev pub pending : List Wait → ℕ
pending [] = 0
pending (w ∷ ws) = one_if w + pending ws

-- A timer runs, or `onready` is called.
pub data Event : Type 0 where
  timer : ℕ → Env → Event
  called : Option Opts → Env → Event

unfoldable pub step : Event → Kol → Kol
step (timer n e) k = tick n e k
step (called o e) k = (onready o e k).0

unfoldable pub run : List Event → Kol → Kol
run [] k = k
run (e ∷ es) k = run es (step e k)

abbrev total : Kol → ℕ
total k = loads k.log + pending k.waits

loads-append : (ls ms : List Loaded) → loads (ls ++ ms) ≡ loads ls + loads ms
loads-append [] ms = omega arith
loads-append (chatb ∷ ls) ms = loads-append ls ms
loads-append (chatc ∷ ls) ms = loads-append ls ms
loads-append (chat u ∷ ls) ms = omega (arith, loads-append ls ms)
loads-append (stat a ∷ ls) ms = loads-append ls ms
loads-append (client a ∷ ls) ms = loads-append ls ms

pending-append : (ws vs : List Wait) → pending (ws ++ vs) ≡ pending ws + pending vs
pending-append [] vs = omega arith
pending-append (w ∷ ws) vs = omega (arith, pending-append ws vs)

runs-total : (w : Wait) (e : Env) (k : Kol) → total (runs w e k) ≡ total k + one_if w
unfolding runs
runs-total chat_script e k = omega (arith, loads-append k.log (chat e.is_utf ∷ []))
runs-total (stat_post a) e k = omega (arith, loads-append k.log (stat a ∷ []))
runs-total client_start e k = omega (arith, loads-append k.log (client k.aname ∷ []))

runs-inited : (w : Wait) (e : Env) (k : Kol) → (runs w e k).inited ≡ k.inited
unfolding runs
runs-inited chat_script e k = refl
runs-inited (stat_post a) e k = refl
runs-inited client_start e k = refl

-- A call keeps whether `init` was done, and makes at most one load of it.
record Adds (w : Wait) (k d : Kol) : Type 0 where
  same : d.inited ≡ k.inited
  most : total d ≤ total k + one_if w

exec_after-Adds : (w : Wait) (sec : ℕ) (e : Env) (k : Kol) → Adds w k (exec_after w sec e k)
unfolding exec_after
exec_after-Adds w sec e k = elim (Bool-cases (ltb (seconds sec) (k.etime / 10))) [
  | inl over ↦ rw over (record { same = refl; most = omega arith })
  | inr more ↦ elim (Bool-cases (holds w e)) [
    | inl now ↦
        let u : Kol = record k { etime = 0 } in
        rw (more, now) (record { same = runs-inited w e u; most = omega (arith, runs-total w e u) })
    | inr later ↦
        rw (more, later)
          (record { same = refl; most = omega (arith, pending-append k.waits (w ∷ [])) })
  ]
]

pending-without_at :
    (n : ℕ) (ws : List Wait) (w : Wait)
    → wait_at n ws ≡ some w
    → pending (without_at n ws) + one_if w ≡ pending ws
pending-without_at n [] w h = absurd (ground (arith, h))
pending-without_at zero (v ∷ ws) w h = let e : v ≡ w = cc (h) in omega (arith, ap one_if e)
pending-without_at (suc n) (v ∷ ws) w h = omega (arith, pending-without_at n ws w h)

-- Before `init` was done the script is not there, and then once at most.
abbrev limit : Bool → ℕ
limit false = 0
limit true = 1

abbrev IsOnce : Kol → Type 0
IsOnce k = total k ≤ limit k.inited

init-none :
    (e : Env) (k : Kol)
    → total k ≤ limit k.inited
    → total (init none e k) ≤ limit (init none e k).inited
unfolding init
init-none e k h = h

Adds-IsOnce : (w : Wait) (k d : Kol) → Adds w k d → total k + one_if w ≤ limit k.inited → IsOnce d
Adds-IsOnce w k d a h = omega (arith, a.most, ap limit a.same)

tick-IsOnce : (n : ℕ) (e : Env) (k : Kol) → IsOnce k → IsOnce (tick n e k)
unfolding tick
tick-IsOnce n e k h = elim (Option-cases (wait_at n k.waits)) [
  | inl none_there ↦ rw (tick, none_there) h
  | inr (w, g) ↦
      let u : Kol = record k { waits = without_at n k.waits } in
      rw (tick, g)
        (Adds-IsOnce w u (exec_after w 0 e u) (exec_after-Adds w 0 e u)
          (omega (arith, pending-without_at n k.waits w g)))
]

loads-plugin_log : (e : Env) → loads (plugin_log e) ≡ 0
loads-plugin_log e = elim (Bool-cases (is_old e.jquery)) [
  | inl old ↦ rw old refl
  | inr new ↦ elim (Bool-cases e.has_cookie) [
    | inl there ↦ rw (new, there) refl
    | inr missing ↦ rw (new, missing) refl
  ]
]

not_inited : (k : Kol) (b : Bool) → (k.inited || b) ≡ false → k.inited ≡ false
not_inited k b h = ground (arith, h)

init-IsOnce : (o : Opts) (e : Env) (k : Kol) → IsOnce k → IsOnce (init (some o) e k)
unfolding init
init-IsOnce o e k h = elim (Bool-cases (k.inited || o.stat_only)) [
  | inl done ↦ rw done h
  | inr first ↦
      let u : Kol = record k {
        inited = true;
        aname = name_or o.aname (units "unknown");
        log = k.log ++ plugin_log e;
      } in
      let none_yet = ap limit (not_inited k o.stat_only first) in
      rw first (
        Adds-IsOnce chat_script u (exec_after chat_script 10 e u)
          (exec_after-Adds chat_script 10 e u)
          (omega (arith, none_yet, loads-append k.log (plugin_log e), loads-plugin_log e)))
]

either :
    (b : Bool) (c d : Kol)
    → IsOnce c
    → IsOnce d
    → IsOnce (if b then (let r : Kol × Exit = (c, finished) in r) else (d, finished)).0
either true c d h k = h
either false c d h k = k

onready-IsOnce : (o : Option Opts) (e : Env) (k : Kol) → IsOnce k → IsOnce (onready o e k).0
unfolding onready
onready-IsOnce none e k h = init-none e k h
onready-IsOnce (some o) e k h =
    let i = init (some o) e k in
    let once = init-IsOnce o e k h in
    either o.stat_only (exec_after (stat_post o.aname) 10 e i) (exec_after client_start 10 e i)
      (Adds-IsOnce (stat_post o.aname) i (exec_after (stat_post o.aname) 10 e i)
        (exec_after-Adds (stat_post o.aname) 10 e i) (omega (arith, once)))
      (Adds-IsOnce client_start i (exec_after client_start 10 e i)
        (exec_after-Adds client_start 10 e i) (omega (arith, once)))

step-IsOnce : (e : Event) (k : Kol) → IsOnce k → IsOnce (step e k)
unfolding step
step-IsOnce (timer n e) k h = tick-IsOnce n e k h
step-IsOnce (called o e) k h = onready-IsOnce o e k h

run-IsOnce : (es : List Event) (k : Kol) → IsOnce k → IsOnce (run es k)
unfolding run
run-IsOnce [] k h = h
run-IsOnce (e ∷ es) k h = run-IsOnce es (step e k) (step-IsOnce e k h)

limit_le : (b : Bool) → limit b ≤ 1
limit_le true = omega arith
limit_le false = omega arith

-- From a page where `init` was not done and the script of the chat was not loaded and does not wait
-- to be: whatever calls and timers there are, with whatever conditions, it is loaded once at most.
pub run-loads :
    (es : List Event) (k : Kol)
    → k.inited ≡ false
    → loads k.log ≡ 0
    → pending k.waits ≡ 0
    → loads (run es k).log ≤ 1
run-loads es k f l p =
    let once = run-IsOnce es k (omega (arith, l, p)) in
    omega (arith, once, limit_le (run es k).inited)
