-- ===== src/LearningRound.antt =====
-- src/daemon/learning_round.{h,cc}: `RunLearningRound`, the round that reads the history, learns and writes, and
-- `RequestRimeRedeploy` of src/daemon/user_dict.cc. What the store answers to the round's queries, the outcome of the file
-- operations and the clock are arguments; what is logged is left out.
pub mod Paths
pub mod Files
pub mod Syncing
use dafeng_wubi.Prelude.{
  ℕ, ◌-◌, ◌/◌, ◌==◌, Bool, true, false, not, ◌&&◌, List, [], ◌∷◌, ◌++◌, Option, none, some,
  if◌then◌else◌, length, is_empty, take, Bytes, codes, map,
}
use dafeng_wubi.Prelude.UnorderedMap.{find, assign}
use dafeng_wubi.Disk.{Disk, Faults}
use dafeng_wubi.History.{HistoryEntry}
use dafeng_wubi.NewWord.{DiscoveredWord, DiscoveryConfig, discover}
use dafeng_wubi.WubiCodec.{CodeMap, load_from_dict, encode_phrase}
use dafeng_wubi.Ngram.{Table}
use dafeng_wubi.Ngram.History.{update_bigrams_from_history}
use dafeng_wubi.Ngram.File.{save}
use dafeng_wubi.UserDict.{generate, write_rime_dict_yaml}

pub record LearningRoundConfig : Type 0 where
  pub data_dir : Bytes
  pub rime_user_dir : Bytes
  pub wubi_dict_path : Bytes
  pub min_new_word_freq : ℕ
  pub scan_max_entries : ℕ
  pub ngram_scan_max_entries : ℕ
  pub include_bigrams : Bool
  pub include_trigrams : Bool
  pub commit_to_git : Bool
  pub push_to_remote : Bool

-- `elapsed` is in milliseconds
pub record LearningRoundResult : Type 0 where
  pub ok : Bool
  pub entries_scanned : ℕ
  pub bigram_increments : ℕ
  pub words_discovered : ℕ
  pub wrote_user_dict : Bool
  pub wrote_ngram : Bool
  pub requested_redeploy : Bool
  pub committed : Bool
  pub pushed : Bool
  pub elapsed : ℕ

-- `IGitSync`
pub record IGitSync : Type 1 where
  pub State : Type 0
  pub init : State → Bool × State
  pub commit_all : (message : Bytes) → State → Bool × State
  pub push : State → Bool × State

-- what `Count` and `RecentEntries` answer in the round: other threads insert between the calls
pub record Answers : Type 0 where
  pub entry_count : ℕ
  pub recent_for_bigrams : (limit : ℕ) → List HistoryEntry
  pub recent_for_words : (limit : ℕ) → List HistoryEntry

-- the outcome of the file operations of `RequestRimeRedeploy`
pub record SentinelFaults : Type 0 where
  pub mkdir_ok : Bool
  pub open_ok : Bool
  pub write_ok : Bool
  pub kept : ℕ

-- the outcome of the file operations of a round, and the readings of the clocks: the time stamps of the
-- files, and the nanoseconds at the start and at the end
pub record World : Type 0 where
  pub user_dict_faults : Faults
  pub ngram_faults : Faults
  pub rime_faults : Faults
  pub sentinel_faults : SentinelFaults
  pub user_dict_now : Bytes
  pub rime_now : Bytes
  pub rime_version : Bytes
  pub sentinel_now : Bytes
  pub t0 : ℕ
  pub t1 : ℕ

-- `dir / name`, for a relative name
unfoldable pub under : Bytes → Bytes → Bytes
under [] name = name
under (c ∷ []) name = if c == b'/' then c ∷ name else c ∷ b'/' ∷ name
under (c ∷ dir) name = c ∷ under dir name

-- one round of the loop that re-encodes, without its counters, which are only logged
unfoldable pub recode : CodeMap → DiscoveredWord → DiscoveredWord
recode codec w =
    let canonical = encode_phrase codec w.text in
    if not (is_empty canonical) then record w { code = canonical } else w

unfoldable pub recode_with : CodeMap × Bool → List DiscoveredWord → List DiscoveredWord
unfolding recode
recode_with (codec, loaded) words = if loaded then map (recode codec) words else words

-- the block behind step 2
unfoldable pub recode_words :
    (wubi_dict_path : Bytes) → Disk → List DiscoveredWord → List DiscoveredWord
unfolding recode_with
recode_words path disk words =
    if not (is_empty path) then recode_with (load_from_dict (find path disk)) words else words

-- `RequestRimeRedeploy`
unfoldable pub request_rime_redeploy : SentinelFaults → (now data_dir : Bytes) → Disk → Bool × Disk
unfolding under
request_rime_redeploy f now data_dir disk =
    let path = under data_dir (codes "redeploy_requested") in
    let content = now ++ b'\n' ∷ [] in
    if not f.mkdir_ok
    then (false, disk)
    else if not f.open_ok
    then (false, disk)
    else if not f.write_ok
    then (false, assign path (take f.kept content) disk)
    else (true, assign path content disk)

-- `disc_cfg`; `chain_max_gap_us` keeps its initialiser
abbrev pub discovery_config : LearningRoundConfig → DiscoveryConfig
discovery_config cfg = record {
  min_frequency = cfg.min_new_word_freq;
  include_bigrams = cfg.include_bigrams;
  include_trigrams = cfg.include_trigrams;
  chain_max_gap_us = 2_000_000;
}

abbrev pub userdata : LearningRoundConfig → Bytes
userdata cfg = under cfg.data_dir (codes "userdata")

-- the files of step 3
abbrev pub learned_words_path : LearningRoundConfig → Bytes
learned_words_path cfg = under (userdata cfg) (codes "learned_words.yaml")

abbrev pub personal_ngram_path : LearningRoundConfig → Bytes
personal_ngram_path cfg = under (userdata cfg) (codes "personal_ngram.bin")

abbrev pub rime_dict_path : LearningRoundConfig → Bytes
rime_dict_path cfg = under cfg.rime_user_dir (codes "dafeng_learned.dict.yaml")

-- the file for RIME, whose result is not looked at
unfoldable pub write_rime_dict : LearningRoundConfig → World → List DiscoveredWord → Disk → Disk
write_rime_dict cfg w words disk =
    if not (is_empty cfg.rime_user_dir)
    then (let (written, disk') =
          write_rime_dict_yaml w.rime_faults w.rime_now w.rime_version words (rime_dict_path cfg)
            (codes "dafeng_learned") disk in
        disk')
    else disk

module _ (git : IGitSync) where
  abbrev pub message : Bytes
  message = codes "dafeng-daemon: learning round"

  -- step 5 behind its first test: whether it committed, and whether it pushed
  unfoldable pub commit_and_push : Bool → git.State → (Bool × Bool) × git.State
  commit_and_push push_to_remote g =
      let (ready, g1) = git.init g in
      if not ready
      then ((false, false), g1)
      else (let (committed, g2) = git.commit_all message g1 in
          if not committed
          then ((false, false), g2)
          else if not push_to_remote
          then ((true, false), g2)
          else (let (pushed, g3) = git.push g2 in ((true, pushed), g3)))

  -- step 5; `none` is the null pointer
  unfoldable pub sync : LearningRoundConfig → Option git.State → (Bool × Bool) × Option git.State
  unfolding commit_and_push
  sync cfg none = ((false, false), none)
  sync cfg (some g) =
      if cfg.commit_to_git
      then (let (done, g') = commit_and_push cfg.push_to_remote g in (done, some g'))
      else ((false, false), some g)

  -- `RunLearningRound`: the result, the table, the disk and the repository
  unfoldable pub run_learning_round :
      LearningRoundConfig
      → Answers
      → World
      → Table
      → Disk
      → Option git.State
      → LearningRoundResult × Table × Disk × Option git.State
  unfolding recode_words request_rime_redeploy write_rime_dict sync
  run_learning_round cfg history w table disk g =
      let (table1, increments) =
        update_bigrams_from_history (history.recent_for_bigrams cfg.ngram_scan_max_entries) table in
      let found = discover (discovery_config cfg) (history.recent_for_words cfg.scan_max_entries) in
      let words = recode_words cfg.wubi_dict_path disk found in
      let (wrote_user_dict, disk1) =
        generate w.user_dict_faults w.user_dict_now words (learned_words_path cfg) disk in
      let (wrote_ngram, disk2) = save w.ngram_faults (personal_ngram_path cfg) table1 disk1 in
      let disk3 = write_rime_dict cfg w words disk2 in
      let (requested, disk4) =
        request_rime_redeploy w.sentinel_faults w.sentinel_now cfg.data_dir disk3 in
      let (done, g') = sync cfg g in
      (
        record {
          ok = wrote_user_dict && wrote_ngram;
          entries_scanned = history.entry_count;
          bigram_increments = increments;
          words_discovered = length found;
          wrote_user_dict = wrote_user_dict;
          wrote_ngram = wrote_ngram;
          requested_redeploy = requested;
          committed = done.0;
          pushed = done.1;
          elapsed = (w.t1 - w.t0) / 1_000_000;
        },
        table1,
        disk4,
        g',
      )
