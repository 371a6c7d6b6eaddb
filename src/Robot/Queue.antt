-- ===== src/Robot/Queue.antt =====
-- The queue of the robot: `getPlans` and the part of `parsePlan` that takes the next plan.
use mathlib.Core.List.{append-nil, append_assoc}
use cmoon.Base.{
  sym, subst, length-append, ℕ, zero, suc, ◌+◌, ◌-◌, ◌≡◌, refl, List, [], ◌∷◌, ◌++◌, Option, none,
  some, ltb, length, get_elem?, if◌then◌else◌, ◌∙◌, arith,
}

-- `o.plans` and `o.cur_plan`, the plans that were taken so far, and what is pending: requests for
-- plans, timers of `parsePlan` and timers of `getPlans`.
pub record Queue (P : Type 0) : Type 0 where
  pub plans : List P
  pub cur_plan : ℕ
  pub taken : List P
  pub requests : ℕ
  pub parse_timers : ℕ
  pub sleep_timers : ℕ

pub data Event (P : Type 0) : Type 0 where
  came : Option (List P) → Event P
  timed : Event P
  slept : Event P

module _ {P : Type 0} where
  -- `parsePlan`
  unfoldable pub take_plan : Queue P → Queue P
  take_plan q = elim (get_elem? q.plans q.cur_plan) [
    | none ↦ record q { sleep_timers = suc q.sleep_timers }
    | some p ↦ record q {
      cur_plan = suc q.cur_plan;
      taken = q.taken ++ p ∷ [];
      parse_timers = suc q.parse_timers;
    }
  ]

  -- The callback of `getPlans`; `none` is an answer without plans.
  unfoldable pub on_plans : Option (List P) → Queue P → Queue P
  unfolding take_plan
  on_plans none q = record q { sleep_timers = suc q.sleep_timers }
  on_plans (some ps) q = take_plan (record q { plans = ps; cur_plan = 0 })

  -- An event that nothing pending brings about changes nothing.
  unfoldable pub step : Event P → Queue P → Queue P
  unfolding on_plans take_plan
  step (came o) q =
      if ltb 0 q.requests then on_plans o (record q { requests = q.requests - 1 }) else q
  step timed q =
      if ltb 0 q.parse_timers then take_plan (record q { parse_timers = q.parse_timers - 1 }) else q
  step slept q =
      if ltb 0 q.sleep_timers
      then record q { sleep_timers = q.sleep_timers - 1; requests = suc q.requests }
      else q

  unfoldable pub run : List (Event P) → Queue P → Queue P
  unfolding step
  run [] q = q
  run (e ∷ es) q = run es (step e q)

  -- One thing is pending.
  abbrev pub IsAlive : Queue P → Type 0
  IsAlive q = q.requests + q.parse_timers + q.sleep_timers ≡ 1

  step-IsAlive : (e : Event P) (q : Queue P) → IsAlive q → IsAlive (step e q)
  unfolding step on_plans take_plan
  step-IsAlive (came none) q h = ground arith
  step-IsAlive (came (some ps)) q h = ground arith
  step-IsAlive timed q h = ground arith
  step-IsAlive slept q h = ground arith

  -- From a queue with one thing pending, after any events one thing is pending: the robot goes on.
  run-IsAlive : (es : List (Event P)) (q : Queue P) → IsAlive q → IsAlive (run es q)
  unfolding run
  run-IsAlive [] q h = h
  run-IsAlive (e ∷ es) q h = run-IsAlive es (step e q) (step-IsAlive e q h)

  abbrev pub ticks : ℕ → List (Event P)
  ticks zero = []
  ticks (suc n) = timed ∷ ticks n

  first_of : List P → Option P
  first_of [] = none
  first_of (x ∷ xs) = some x

  get_elem?-append : (done rest : List P) → get_elem? (done ++ rest) (length done) ≡ first_of rest
  unfolding first_of
  get_elem?-append [] [] = refl
  get_elem?-append [] (x ∷ rest) = refl
  get_elem?-append (d ∷ done) rest = get_elem?-append done rest

  next_of :
      (done rest : List P) (q : Queue P)
      → q.plans ≡ done ++ rest
      → q.cur_plan ≡ length done
      → get_elem? q.plans q.cur_plan ≡ first_of rest
  next_of done rest q e c = rw (e, c) (get_elem?-append done rest)

  -- A timer of `parsePlan` that is the only thing pending.
  record IsBusy (done rest : List P) (q : Queue P) : Type 0 where
    here : q.plans ≡ done ++ rest
    count : q.cur_plan ≡ length done
    no_request : q.requests ≡ 0
    one_timer : q.parse_timers ≡ 1
    no_sleep : q.sleep_timers ≡ 0

  -- What is left when an answer has been worked off.
  abbrev Finished : List P → Queue P → Queue P → Type 0
  Finished ps q r =
      (r.taken ≡ q.taken ++ ps) × (r.sleep_timers ≡ 1) × (r.parse_timers ≡ 0) × (r.requests ≡ 0)

  advance : P → Queue P → Queue P
  advance x q = record q { cur_plan = suc q.cur_plan; taken = q.taken ++ x ∷ [] }

  step-timed :
      (x : P) (q : Queue P)
      → q.parse_timers ≡ 1
      → get_elem? q.plans q.cur_plan ≡ some x
      → step timed q ≡ advance x q
  unfolding step take_plan advance
  step-timed x q p e = ground (arith, p, e)

  advance-IsBusy :
      (done rest : List P) (x : P) (q : Queue P)
      → IsBusy done (x ∷ rest) q
      → IsBusy (done ++ x ∷ []) rest (advance x q)
  unfolding advance
  advance-IsBusy done rest x q h = record {
    here = h.here ∙ sym (append_assoc done (x ∷ []) rest);
    count = omega (arith, h.count, length-append done (x ∷ []));
    no_request = h.no_request;
    one_timer = h.one_timer;
    no_sleep = h.no_sleep;
  }

  ticked :
      (done rest : List P) (q : Queue P)
      → IsBusy done rest q
      → Finished rest q (run (ticks (suc (length rest))) q)
  unfolding run step take_plan first_of advance
  ticked done [] q h = ground (arith, next_of done [] q h.here h.count, append-nil q.taken)
  ticked done (x ∷ rest) q h =
      let more = ticked (done ++ x ∷ []) rest (advance x q) (advance-IsBusy done rest x q h) in
      let same = step-timed x q h.one_timer (next_of done (x ∷ rest) q h.here h.count) in
      subst (λ r. Finished (x ∷ rest) q (run (ticks (suc (length rest))) r)) (sym same)
        (more.0 ∙ append_assoc q.taken (x ∷ []) rest, more.1, more.2, more.3)

  step-came :
      (x : P) (ps : List P) (q : Queue P)
      → q.requests ≡ 1
      → q.parse_timers ≡ 0
      → step (came (some (x ∷ ps))) q ≡ record q {
        plans = x ∷ ps;
        cur_plan = 1;
        taken = q.taken ++ x ∷ [];
        requests = 0;
        parse_timers = 1;
      }
  unfolding step on_plans take_plan
  step-came x ps q n p = ground (arith, n, p)

  -- Where a request for plans is all that is pending and is answered with `ps`: the ticks of
  -- `parsePlan` take all of them in order, each once, and then only the timer of the next request
  -- waits.
  pub batch_taken :
      (ps : List P) (q : Queue P)
      → q.requests ≡ 1
      → q.parse_timers ≡ 0
      → q.sleep_timers ≡ 0
      → let r = run (came (some ps) ∷ ticks (length ps)) q in
        (r.taken ≡ q.taken ++ ps) × (r.sleep_timers ≡ 1) × (r.parse_timers ≡ 0) × (r.requests ≡ 0)
  unfolding run step on_plans take_plan
  batch_taken [] q n p s = ground (arith, append-nil q.taken)
  batch_taken (x ∷ ps) q n p s =
      let begun : Queue P = record q {
        plans = x ∷ ps;
        cur_plan = 1;
        taken = q.taken ++ x ∷ [];
        requests = 0;
        parse_timers = 1;
      } in
      let more =
        ticked (x ∷ []) ps begun (record {
          here = refl;
          count = refl;
          no_request = refl;
          one_timer = refl;
          no_sleep = s;
        }) in
      subst (λ r. Finished (x ∷ ps) q (run (ticks (suc (length ps))) r))
        (sym (step-came x ps q n p))
        (more.0 ∙ append_assoc q.taken (x ∷ []) ps, more.1, more.2, more.3)
