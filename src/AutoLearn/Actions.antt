-- ===== src/AutoLearn/Actions.antt =====
-- src/daemon/auto_learn.cc: what a tick does to the outside, and under which conditions.
use dafeng_wubi.Prelude.{
  ℕ, ◌+◌, ◌*◌, ◌≤◌, ◌<◌, ◌==◌, Bool, true, false, not, ◌||◌, [], ◌∷◌, Option, none, some, ◌≡◌, refl,
  inl, inr, arith, if◌then◌else◌, Bool-cases, All,
}
use dafeng_wubi.Prelude.Int.{ℤ, pos, negsuc}
use dafeng_wubi.LearningRound.{LearningRoundResult}
use dafeng_wubi.AutoLearn.Runner.{
  Config, Runner, Tick, latest_commit_timestamp, second_ns, interval_passed, idle_passed,
  should_run, round_config, Action, learn, redeploy, notify, after_round, with_result,
  run_one_round, tick,
}
use dafeng_wubi.AutoLearn.Gates.{nanoseconds}

-- the newest entry is older than a threshold
abbrev pub Quiet : (threshold : ℤ) → Option ℕ → (wall_now : ℕ) → Type 0
Quiet threshold none wall_now = Unit
Quiet (pos n) (some ts_us) wall_now = 0 < n → ts_us * 1_000 + n * second_ns ≤ wall_now
Quiet (negsuc n) (some ts_us) wall_now = Unit

-- what the header file says of a round: there are new entries, the interval has passed and the user is idle
abbrev pub Ready : Config → Tick → Runner → Type 0
Ready cfg t r =
    (r.last_round_entry_count < t.now_count)
    × (0 < nanoseconds cfg.min_round_interval
        → r.last_round_at + nanoseconds cfg.min_round_interval ≤ t.steady_now)
    × Quiet cfg.idle_threshold (latest_commit_timestamp t.recent) t.wall_now

-- the round has found words and has written them
abbrev pub Found : Tick → LearningRoundResult → Type 0
Found t result =
    (t.result ≡ some result)
    × (result.ok ≡ true)
    × (0 < result.words_discovered)
    × (result.wrote_user_dict ≡ true)

-- what an action of a tick tells
abbrev pub Warranted : Config → Tick → Runner → Action → Type 0
Warranted cfg t r (learn c) = Ready cfg t r × (c ≡ round_config cfg)
Warranted cfg t r (redeploy dir) =
    Ready cfg t r × ((result : LearningRoundResult) × Found t result) × (dir ≡ cfg.rime_user_dir)
Warranted cfg t r (notify words) =
    Ready cfg t r
    × ((result : LearningRoundResult) × Found t result × (words ≡ result.words_discovered))
    × (t.deployed ≡ true)

idle_passed-Quiet :
    (threshold : ℤ) (latest : Option ℕ) (wall_now : ℕ)
    → idle_passed threshold latest wall_now ≡ true
    → Quiet threshold latest wall_now
unfolding idle_passed
idle_passed-Quiet threshold none wall_now h = tt
idle_passed-Quiet (pos n) (some ts_us) wall_now h = λ k. ground arith
idle_passed-Quiet (negsuc n) (some ts_us) wall_now h = tt

interval_passed-Late :
    (interval : ℤ) (last now : ℕ)
    → interval_passed interval last now ≡ true
    → 0 < nanoseconds interval
    → last + nanoseconds interval ≤ now
unfolding interval_passed
interval_passed-Late (pos n) last now h k = ground arith
interval_passed-Late (negsuc n) last now h k = absurd (omega arith)

should_run-Ready :
    (cfg : Config) (t : Tick) (r : Runner) → should_run cfg t r ≡ true → Ready cfg t r
unfolding should_run
should_run-Ready cfg t r h =
    let interval : interval_passed cfg.min_round_interval r.last_round_at t.steady_now ≡ true =
      ground arith in
    let idle : idle_passed cfg.idle_threshold (latest_commit_timestamp t.recent) t.wall_now ≡ true =
      ground arith in
    (
      ground arith,
      interval_passed-Late cfg.min_round_interval r.last_round_at t.steady_now interval,
      idle_passed-Quiet cfg.idle_threshold (latest_commit_timestamp t.recent) t.wall_now idle,
    )

-- the redeployment, and the message where it has worked
redeploy-Warranted :
    (cfg : Config) (t : Tick) (result : LearningRoundResult) (r : Runner) (deployed : Bool)
    → Ready cfg t r
    → Found t result
    → t.deployed ≡ deployed
    → All (Warranted cfg t r) (
        redeploy cfg.rime_user_dir ∷ (if deployed then notify result.words_discovered ∷ [] else []))
redeploy-Warranted cfg t result r true ready found e =
    ((ready, (result, found), refl), ((ready, (result, found, refl), e), tt))
redeploy-Warranted cfg t result r false ready found e = ((ready, (result, found), refl), tt)

after_round-Warranted :
    (cfg : Config) (t : Tick) (result : LearningRoundResult) (r r' : Runner)
    → Ready cfg t r
    → t.result ≡ some result
    → All (Warranted cfg t r) (after_round cfg t result r').0
unfolding after_round
after_round-Warranted cfg t result r r' ready e = elim (Bool-cases result.ok) [
  | inr f ↦ rw f tt
  | inl f ↦ rw f (elim (Bool-cases (result.words_discovered == 0 || not result.wrote_user_dict)) [
    | inl g ↦ rw g tt
    | inr g ↦
        rw g (
          redeploy-Warranted cfg t result r t.deployed ready (e, f, ground arith, ground arith)
            refl)
  ])
]

with_result-Warranted :
    (cfg : Config) (t : Tick) (o : Option LearningRoundResult) (r r' : Runner)
    → Ready cfg t r
    → t.result ≡ o
    → All (Warranted cfg t r) (with_result cfg t o r').0
unfolding with_result
with_result-Warranted cfg t none r r' ready e = tt
with_result-Warranted cfg t (some result) r r' ready e =
    after_round-Warranted cfg t result r _ ready e

-- A tick runs a round only where there are entries since the last one, the interval has passed and the newest entry is old enough, and then with the runner's configuration;
-- it rebuilds RIME only after a round that is ok, has found words and has written them, for the user's directory; and it tells the user
-- their number only where the rebuilding has worked.
pub tick-Warranted :
    (cfg : Config) (t : Tick) (r : Runner) → All (Warranted cfg t r) (tick cfg t r).0
unfolding tick run_one_round
tick-Warranted cfg t r = elim (Bool-cases (should_run cfg t r)) [
  | inr e ↦ rw e tt
  | inl e ↦
      let ready = should_run-Ready cfg t r e in
      rw e ((ready, refl), with_result-Warranted cfg t t.result r r ready refl)
]
