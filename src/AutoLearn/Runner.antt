-- ===== src/AutoLearn/Runner.antt =====
-- src/daemon/auto_learn.{h,cc}: `AutoLearnRunner`, which decides when a learning round runs and what follows from it.
-- Readings of `steady_clock` are in nanoseconds and counted from a day before its zero, so that the value which the constructor
-- gives is one; `system_clock` is read in nanoseconds. What is logged is left out.
use dafeng_wubi.Prelude.{
  ℕ, ◌+◌, ◌*◌, ◌-◌, ◌%◌, ◌^◌, ◌==◌, Bool, true, false, not, ◌||◌, List, [], ◌∷◌, ◌++◌, Option, none,
  some, if◌then◌else◌, ltb, leb, is_empty, take, Bytes, codes,
}
use dafeng_wubi.Prelude.Int.{ℤ, pos, negsuc}
use dafeng_wubi.History.{HistoryEntry}
use dafeng_wubi.LearningRound.{LearningRoundConfig, LearningRoundResult, under}
use dafeng_wubi.GitSync.{GitSyncConfig, default_config}
use dafeng_wubi.UserDict.{decimal}
use dafeng_wubi.AutoLearn.{redeploy_command}

-- `AutoLearnRunner::Config`, with its times in seconds
pub record Config : Type 0 where
  pub data_dir : Bytes
  pub rime_user_dir : Bytes
  pub wubi_dict_path : Bytes
  pub idle_threshold : ℤ
  pub poll_interval : ℤ
  pub min_round_interval : ℤ
  pub min_new_word_freq : ℕ
  pub commit_to_git : Bool
  pub push_to_remote : Bool

-- the members that change
pub record Runner : Type 0 where
  pub stop : Bool
  pub started : Bool
  pub last_round_entry_count : ℕ
  pub last_round_at : ℕ
  pub total_runs : ℕ
  pub total_words_learned : ℕ

abbrev pub day_ns : ℕ
day_ns = 86_400_000_000_000

-- the constructor
unfoldable pub new_runner : (now : ℕ) → Runner
new_runner now = record {
  stop = false;
  started = false;
  last_round_entry_count = 0;
  last_round_at = now - day_ns;
  total_runs = 0;
  total_words_learned = 0;
}

-- `Start`, without the thread
unfoldable pub start : (now entry_count : ℕ) → Runner → Runner
start now entry_count r = if r.started then r else record r {
  last_round_at = now;
  last_round_entry_count = entry_count;
  stop = false;
  started = true;
}

-- what a tick reads: the entries of the store at the gate, its newest entry, and the two clocks; then the result of the round, `none`
-- where it throws, the clock and the entries behind it, and what the redeployment returns
pub record Tick : Type 0 where
  pub now_count : ℕ
  pub steady_now : ℕ
  pub recent : List HistoryEntry
  pub wall_now : ℕ
  pub result : Option LearningRoundResult
  pub steady_after : ℕ
  pub count_after : ℕ
  pub deployed : Bool

-- `LatestCommitTimestamp`, in microseconds
unfoldable pub latest_commit_timestamp : List HistoryEntry → Option ℕ
latest_commit_timestamp [] = none
latest_commit_timestamp (e ∷ recent) = some e.ts_us

abbrev pub second_ns : ℕ
second_ns = 1_000_000_000

-- whether the second gate lets a round through
unfoldable pub interval_passed : ℤ → (last_round_at now : ℕ) → Bool
interval_passed (pos n) last_round_at now =
    if ltb 0 n then not (ltb now (last_round_at + n * second_ns)) else true
interval_passed (negsuc n) last_round_at now = true

abbrev quiet_since : ℕ → Option ℕ → ℕ → Bool
quiet_since n none wall_now = true
quiet_since n (some ts_us) wall_now = not (ltb wall_now (ts_us * 1_000 + n * second_ns))

-- whether the third gate does
unfoldable pub idle_passed : ℤ → Option ℕ → (wall_now : ℕ) → Bool
idle_passed (pos n) latest wall_now = if ltb 0 n then quiet_since n latest wall_now else true
idle_passed (negsuc n) latest wall_now = true

-- `ShouldRunLocked`, with a store
unfoldable pub should_run : Config → Tick → Runner → Bool
unfolding interval_passed idle_passed latest_commit_timestamp
should_run cfg t r =
    if leb t.now_count r.last_round_entry_count
    then false
    else if not (interval_passed cfg.min_round_interval r.last_round_at t.steady_now)
    then false
    else idle_passed cfg.idle_threshold (latest_commit_timestamp t.recent) t.wall_now

-- `gcfg` and `lcfg` of `RunOneRoundLocked`; the other members keep their initialisers
abbrev pub git_config : Config → GitSyncConfig
git_config cfg = record default_config { repo_path = under cfg.data_dir (codes "userdata") }

abbrev pub round_config : Config → LearningRoundConfig
round_config cfg = record {
  data_dir = cfg.data_dir;
  rime_user_dir = cfg.rime_user_dir;
  wubi_dict_path = cfg.wubi_dict_path;
  min_new_word_freq = cfg.min_new_word_freq;
  scan_max_entries = 5_000;
  ngram_scan_max_entries = 5_000;
  include_bigrams = true;
  include_trigrams = true;
  commit_to_git = cfg.commit_to_git;
  push_to_remote = cfg.push_to_remote;
}

-- what a tick does to the outside: it runs a round, calls `redeploy_` and calls `notify_`
pub data Action : Type 0 where
  learn : LearningRoundConfig → Action
  redeploy : (rime_user_dir : Bytes) → Action
  notify : (words : ℕ) → Action

-- `fetch_add` on `std::atomic<uint64_t>`
abbrev pub add64 : ℕ → ℕ → ℕ
add64 counter n = (counter + n) % 2 ^ 64

-- from the test of `result.ok` on; the constructor sees to it that both callbacks are set
unfoldable pub after_round : Config → Tick → LearningRoundResult → Runner → List Action × Runner
after_round cfg t result r =
    if not result.ok
    then ([], r)
    else if result.words_discovered == 0 || not result.wrote_user_dict
    then ([], r)
    else (
      redeploy cfg.rime_user_dir ∷ (if t.deployed then notify result.words_discovered ∷ [] else []),
      record r { total_words_learned = add64 r.total_words_learned result.words_discovered },
    )

-- `RunOneRoundLocked` from the `try` on
unfoldable pub with_result :
    Config → Tick → Option LearningRoundResult → Runner → List Action × Runner
unfolding after_round
with_result cfg t none r = ([], record r { last_round_at = t.steady_after })
with_result cfg t (some result) r = after_round cfg t result (record r {
  total_runs = add64 r.total_runs 1;
  last_round_at = t.steady_after;
  last_round_entry_count = t.count_after;
})

-- `RunOneRoundLocked`
unfoldable pub run_one_round : Config → Tick → Runner → List Action × Runner
unfolding with_result
run_one_round cfg t r =
    let (actions, r') = with_result cfg t t.result r in (learn (round_config cfg) ∷ actions, r')

-- `TickForTesting`, and the body of `Loop` behind the wait
unfoldable pub tick : Config → Tick → Runner → List Action × Runner
unfolding should_run run_one_round
tick cfg t r = if not (should_run cfg t r) then ([], r) else run_one_round cfg t r

-- one turn of `Loop`: the wait ends by a timeout or by `Stop`
pub data Event : Type 0 where
  timeout : Tick → Event
  stopped : Event

-- `Loop`, to the first stop or to the end of the list
unfoldable pub loop : Config → List Event → Runner → List Action × Runner
unfolding tick
loop cfg [] r = ([], r)
loop cfg (stopped ∷ events) r = ([], record r { stop = true })
loop cfg (timeout t ∷ events) r =
    let (actions, r1) = tick cfg t r in
    let (later, r2) = loop cfg events r1 in (actions ++ later, r2)

-- `FindRimeDeployer`, where `exists` tells which files there are
unfoldable pub first_existing : (Bytes → Bool) → List Bytes → Bytes
first_existing exists [] = []
first_existing exists (c ∷ candidates) =
    let rest = first_existing exists candidates in if exists c then c else rest

abbrev pub deployers : List Bytes
deployers =
    codes "/Library/Input Methods/Squirrel.app/Contents/MacOS/rime_deployer"
    ∷ codes "/Applications/Squirrel.app/Contents/MacOS/rime_deployer"
    ∷ []

unfoldable pub find_rime_deployer : (Bytes → Bool) → Bytes
unfolding first_existing
find_rime_deployer exists = first_existing exists deployers

-- the callback of `DefaultRimeRedeploy`, where `system` is the exit status of a command
unfoldable pub default_rime_redeploy : (Bytes → Bool) → (system : Bytes → ℕ) → Bytes → Bool
unfolding find_rime_deployer redeploy_command
default_rime_redeploy exists system rime_dir =
    let deployer = find_rime_deployer exists in
    if is_empty deployer
    then false
    else if not (system (redeploy_command deployer rime_dir) == 0)
    then false
    else true

-- the command of `DefaultLearnNotify`, which `snprintf` cuts at 511 bytes; the texts are UTF-8
unfoldable pub notify_command : ℕ → Bytes
unfolding decimal
notify_command words = take 511 (
    codes "osascript -e 'display notification \""
    ++ ((0xE5 ∷ 0xB7 ∷ 0xB2 ∷ 0xE8 ∷ 0x87 ∷ 0xAA ∷ 0xE5 ∷ 0x8A ∷ 0xA8 ∷ 0xE5 ∷ 0xAD ∷ 0xA6 ∷ 0xE5
          ∷ 0x88 ∷ 0xB0 ∷ 0x20 ∷ [])
        ++ (decimal words
            ++ ((0x20 ∷ 0xE4 ∷ 0xB8 ∷ 0xAA ∷ 0xE6 ∷ 0x96 ∷ 0xB0 ∷ 0xE8 ∷ 0xAF ∷ 0x8D ∷ 0xEF ∷ 0xBC
                  ∷ 0x8C ∷ 0xE4 ∷ 0xB8 ∷ 0x8B ∷ 0xE6 ∷ 0xAC ∷ 0xA1 ∷ 0xE5 ∷ 0x88 ∷ 0x87 ∷ 0xE6
                  ∷ 0x8D ∷ 0xA2 ∷ 0xE8 ∷ 0xBE ∷ 0x93 ∷ 0xE5 ∷ 0x85 ∷ 0xA5 ∷ 0xE6 ∷ 0xB3 ∷ 0x95
                  ∷ 0xE6 ∷ 0x97 ∷ 0xB6 ∷ 0xE7 ∷ 0x94 ∷ 0x9F ∷ 0xE6 ∷ 0x95 ∷ 0x88 ∷ 0xE3 ∷ 0x80
                  ∷ 0x82 ∷ [])
                ++ (codes "\" with title \""
                    ++ ((0xE5 ∷ 0xA4 ∷ 0xA7 ∷ 0xE9 ∷ 0xA3 ∷ 0x8E ∷ 0xE4 ∷ 0xBA ∷ 0x94 ∷ 0xE7 ∷ 0xAC
                          ∷ 0x94 ∷ [])
                        ++ codes "\"' >/dev/null 2>&1"))))))

-- the callback of `DefaultLearnNotify`: the command that it runs
unfoldable pub default_learn_notify : ℕ → Option Bytes
unfolding notify_command
default_learn_notify words = if words == 0 then none else some (notify_command words)
