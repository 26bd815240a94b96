-- ===== src/AutoLearn/Gates.antt =====
-- src/daemon/auto_learn.cc: when rounds run, and what follows from them.
use dafeng_wubi.Prelude.{
  ℕ, ◌+◌, ◌*◌, ◌≤◌, true, false, List, [], ◌∷◌, ◌++◌, Option, none, some, ◌≡◌, subst, refl, length,
  inl, inr, arith, if◌then◌else◌, Bool-cases,
}
use dafeng_wubi.Prelude.Int.{ℤ, pos, negsuc}
use dafeng_wubi.LearningRound.{LearningRoundResult}
use dafeng_wubi.AutoLearn.Runner.{
  Config, Runner, Tick, second_ns, interval_passed, should_run, Action, learn, redeploy, notify,
  after_round, with_result, run_one_round, tick, Event, timeout, stopped, loop,
}

-- a number of seconds, where a negative one counts as none, in nanoseconds
abbrev pub nanoseconds : ℤ → ℕ
nanoseconds (pos n) = n * second_ns
nanoseconds (negsuc n) = 0

interval_passed-le :
    (interval : ℤ) (last now : ℕ)
    → last ≤ now
    → interval_passed interval last now ≡ true
    → last + nanoseconds interval ≤ now
unfolding interval_passed
interval_passed-le (pos n) last now k h = ground arith
interval_passed-le (negsuc n) last now k h = omega arith

-- The rounds of a loop: the clock when each is let through, and when it is over.
unfoldable pub rounds : Config → List Event → Runner → List (ℕ × ℕ)
unfolding tick
rounds cfg [] r = []
rounds cfg (stopped ∷ events) r = []
rounds cfg (timeout t ∷ events) r =
    let later = rounds cfg events (tick cfg t r).1 in
    if should_run cfg t r then (t.steady_now, t.steady_after) ∷ later else later

-- from a time on, each round begins at least the interval after the end of the one before
abbrev pub Spaced : (interval last : ℕ) → List (ℕ × ℕ) → Type 0
Spaced interval last [] = Unit
Spaced interval last ((begin, end) ∷ later) =
    (last + interval ≤ begin) × (begin ≤ end) × Spaced interval end later

-- `steady_clock` never goes back, from a time on
abbrev pub Steady : ℕ → List Event → Type 0
Steady now [] = Unit
Steady now (stopped ∷ events) = Unit
Steady now (timeout t ∷ events) =
    (now ≤ t.steady_now) × (t.steady_now ≤ t.steady_after) × Steady t.steady_after events

should_run-interval :
    (cfg : Config) (t : Tick) (r : Runner)
    → should_run cfg t r ≡ true
    → interval_passed cfg.min_round_interval r.last_round_at t.steady_now ≡ true
unfolding should_run
should_run-interval cfg t r h = ground arith

after_round-last_round_at :
    (cfg : Config) (t : Tick) (result : LearningRoundResult) (r : Runner)
    → (after_round cfg t result r).1.last_round_at ≡ r.last_round_at
unfolding after_round
after_round-last_round_at cfg t result r = ground arith

with_result-last_round_at :
    (cfg : Config) (t : Tick) (o : Option LearningRoundResult) (r : Runner)
    → (with_result cfg t o r).1.last_round_at ≡ t.steady_after
unfolding with_result
with_result-last_round_at cfg t none r = refl
with_result-last_round_at cfg t (some result) r = after_round-last_round_at cfg t result _

tick-runs :
    (cfg : Config) (t : Tick) (r : Runner)
    → should_run cfg t r ≡ true
    → (tick cfg t r).1.last_round_at ≡ t.steady_after
unfolding tick run_one_round
tick-runs cfg t r h = ground (arith, with_result-last_round_at cfg t t.result r)

tick-waits :
    (cfg : Config) (t : Tick) (r : Runner) → should_run cfg t r ≡ false → tick cfg t r ≡ ([], r)
unfolding tick
tick-waits cfg t r h = ground arith

-- what a round of the list needs, from the state before it
rounds-step :
    (cfg : Config) (t : Tick) (r : Runner) (later : List (ℕ × ℕ)) (now : ℕ)
    → r.last_round_at ≤ now
    → now ≤ t.steady_now
    → t.steady_now ≤ t.steady_after
    → Spaced (nanoseconds cfg.min_round_interval) (tick cfg t r).1.last_round_at later
    → Spaced
        (nanoseconds cfg.min_round_interval)
        r.last_round_at
        (if should_run cfg t r then (t.steady_now, t.steady_after) ∷ later else later)
rounds-step cfg t r later now h k l m = elim (Bool-cases (should_run cfg t r)) [
  | inl e ↦ rw e (
    interval_passed-le cfg.min_round_interval r.last_round_at t.steady_now (omega arith)
        (should_run-interval cfg t r e),
    l,
    subst (λ (x : ℕ). Spaced (nanoseconds cfg.min_round_interval) x later) (tick-runs cfg t r e) m,
  )
  | inr e ↦ rw e (
      subst
        (λ (x : List Action × Runner).
          Spaced (nanoseconds cfg.min_round_interval) x.1.last_round_at later)
        (tick-waits cfg t r e) m)
]

tick-last_round_at :
    (cfg : Config) (t : Tick) (r : Runner) (now : ℕ)
    → r.last_round_at ≤ now
    → now ≤ t.steady_now
    → t.steady_now ≤ t.steady_after
    → (tick cfg t r).1.last_round_at ≤ t.steady_after
tick-last_round_at cfg t r now h k l = elim (Bool-cases (should_run cfg t r)) [
  | inl e ↦ omega (arith, tick-runs cfg t r e)
  | inr e ↦ rw (tick-waits cfg t r e) (omega arith)
]

rounds-Spaced :
    (cfg : Config) (events : List Event) (r : Runner) (now : ℕ)
    → r.last_round_at ≤ now
    → Steady now events
    → Spaced (nanoseconds cfg.min_round_interval) r.last_round_at (rounds cfg events r)
unfolding rounds
rounds-Spaced cfg [] r now h k = tt
rounds-Spaced cfg (stopped ∷ events) r now h k = tt
rounds-Spaced cfg (timeout t ∷ events) r now h (k, l, steady) =
    rounds-step cfg t r (rounds cfg events (tick cfg t r).1) now h k l (
      rounds-Spaced cfg events (tick cfg t r).1 t.steady_after
        (tick-last_round_at cfg t r now h k l) steady)

-- how many rounds a list of actions runs
unfoldable pub learned : List Action → ℕ
learned [] = 0
learned (learn cfg ∷ actions) = learned actions + 1
learned (_ ∷ actions) = learned actions

learned-append : (xs ys : List Action) → learned (xs ++ ys) ≡ learned xs + learned ys
unfolding learned
learned-append [] ys = omega arith
learned-append (learn cfg ∷ xs) ys = omega (arith, learned-append xs ys)
learned-append (redeploy d ∷ xs) ys = learned-append xs ys
learned-append (notify n ∷ xs) ys = learned-append xs ys

learned-after_round :
    (cfg : Config) (t : Tick) (o : Option LearningRoundResult) (r : Runner)
    → learned (with_result cfg t o r).0 ≡ 0
unfolding with_result after_round learned
learned-after_round cfg t none r = refl
learned-after_round cfg t (some result) r = ground arith

learned-tick :
    (cfg : Config) (t : Tick) (r : Runner)
    → learned (tick cfg t r).0 ≡ (if should_run cfg t r then 1 else 0)
unfolding tick run_one_round learned
learned-tick cfg t r = ground (arith, learned-after_round cfg t t.result r)

-- The rounds of the list are the rounds that the loop runs.
pub learned-loop :
    (cfg : Config) (events : List Event) (r : Runner)
    → learned (loop cfg events r).0 ≡ length (rounds cfg events r)
unfolding loop rounds
learned-loop cfg [] r = learned-nil
  where
    learned-nil : learned [] ≡ 0
    learned-nil = unfold learned in refl
learned-loop cfg (stopped ∷ events) r = unfold learned in refl
learned-loop cfg (timeout t ∷ events) r =
    let r1 = (tick cfg t r).1 in
    ground (
      arith,
      learned-append (tick cfg t r).0 (loop cfg events r1).0,
      learned-tick cfg t r,
      learned-loop cfg events r1,
    )

-- However the loop is woken: the rounds that it runs are as many as those listed, and each begins at least
-- `min_round_interval` after the one before it has ended, whether that returned or threw; the first begins so long after
-- `last_round_at`, which `Start` sets. The clock does not go back.
pub loop-Spaced :
    (cfg : Config) (events : List Event) (r : Runner) (now : ℕ)
    → r.last_round_at ≤ now
    → Steady now events
    → (learned (loop cfg events r).0 ≡ length (rounds cfg events r))
      × Spaced (nanoseconds cfg.min_round_interval) r.last_round_at (rounds cfg events r)
loop-Spaced cfg events r now h k = (learned-loop cfg events r, rounds-Spaced cfg events r now h k)
