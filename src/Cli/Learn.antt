-- ===== src/Cli/Learn.antt =====
-- src/cli/main.cc: `CmdLearn` over the learning round of the daemon. The answers of the store, the outcome of the file
-- operations and the clock are arguments; the output is left out but for the words that are listed.
use dafeng_wubi.Prelude.{
  ℕ, Bool, true, false, not, ◌&&◌, List, [], Option, none, some, if◌then◌else◌, take, Bytes, codes,
}
use dafeng_wubi.Prelude.UnorderedMap.{find}
use dafeng_wubi.Disk.{Disk}
use dafeng_wubi.NewWord.{DiscoveredWord, discover}
use dafeng_wubi.Ngram.File.{load}
use dafeng_wubi.GitSync.{GitSyncConfig, default_config, Libgit2, GitSync, make_git_sync}
use dafeng_wubi.History.Store.{Files, make_history_store}
use dafeng_wubi.LearningRound.{
  LearningRoundConfig, Answers, World, under, recode_words, discovery_config, run_learning_round,
}
use dafeng_wubi.LearningRound.Syncing.{libgit2_sync}

-- `cfg.rime_user_dir`; `home` is the variable HOME
abbrev pub rime_user_dir_of : (home : Option Bytes) → Bytes
rime_user_dir_of none = []
rime_user_dir_of (some home) = under (under home (codes "Library")) (codes "Rime")

-- `cfg.wubi_dict_path`
abbrev pub wubi_dict_path_of : (home : Option Bytes) → Bytes
wubi_dict_path_of none = []
wubi_dict_path_of (some home) = under (rime_user_dir_of (some home)) (codes "wubi86.dict.yaml")

abbrev is_some : {A : Type 0} → Option A → Bool
is_some none = false
is_some (some _) = true

-- `cfg`; the other members keep their initialisers
unfoldable pub learn_config :
    (home : Option Bytes)
    → (data_dir : Bytes) → (min_freq : ℕ) → (dry_run has_git : Bool) → LearningRoundConfig
unfolding under
learn_config home data_dir min_freq dry_run has_git = record {
  data_dir = data_dir;
  rime_user_dir = rime_user_dir_of home;
  wubi_dict_path = wubi_dict_path_of home;
  min_new_word_freq = min_freq;
  scan_max_entries = 5_000;
  ngram_scan_max_entries = 5_000;
  include_bigrams = true;
  include_trigrams = true;
  commit_to_git = not dry_run && has_git;
  push_to_remote = false;
}

-- `gcfg`
abbrev pub learn_git_config : (data_dir : Bytes) → GitSyncConfig
learn_git_config data_dir = record default_config { repo_path = under data_dir (codes "userdata") }

-- `preview`, the words that the command lists
unfoldable pub preview : LearningRoundConfig → Answers → Disk → List DiscoveredWord
unfolding recode_words
preview cfg history disk =
    recode_words cfg.wubi_dict_path disk
      (discover (discovery_config cfg) (history.recent_for_words cfg.scan_max_entries))

module _ (os : Files) (git : Libgit2) where
  -- the status, the words that are listed, the files of the round, the store's files, and the repositories
  pub record Learned : Type 0 where
    pub status : ℕ
    pub listed : List DiscoveredWord
    pub disk : Disk
    pub store_files : os.World
    pub repositories : git.World

  -- `git`
  unfoldable pub learn_git : (data_dir : Bytes) → (dry_run : Bool) → Option (GitSync git)
  unfolding make_git_sync under
  learn_git data_dir dry_run =
      if not dry_run then make_git_sync git (learn_git_config data_dir) else none

  abbrev pub with_repositories : git.World → Option (GitSync git) → Option (GitSync git × git.World)
  with_repositories w none = none
  with_repositories w (some g) = some (g, w)

  abbrev pub repositories_behind : git.World → Option (GitSync git × git.World) → git.World
  repositories_behind w none = w
  repositories_behind w (some (g, w')) = w'

  -- `CmdLearn` with a store, which answers the preview's query and then those of the round, to the end of `main`, which closes the
  -- store
  unfoldable pub learn_with :
      LearningRoundConfig
      → (dry_run : Bool) → (before history : Answers) → World
      → Option (GitSync git)
      → Disk
      → os.World
      → git.World
      → Learned
  unfolding preview load
  learn_with cfg dry_run before history world g disk files w =
      let listed = take 30 (preview cfg before disk) in
      if dry_run
      then record {
        status = 0;
        listed = listed;
        disk = disk;
        store_files = files;
        repositories = w;
      }
      else (let (table, loaded) = load (
            find (under (under cfg.data_dir (codes "userdata")) (codes "personal_ngram.bin"))
              disk) in
          let (result, table', disk', g') =
            run_learning_round (libgit2_sync git) cfg history world table disk
              (with_repositories w g) in
          record {
            status = if result.ok then 0 else 1;
            listed = listed;
            disk = disk';
            store_files = files;
            repositories = repositories_behind w g';
          })

  -- `CmdLearn` behind the call of `MakeSqliteHistoryStore`
  unfoldable pub learn_opened :
      Option os.Handle × os.World
      → (home : Option Bytes) → (data_dir : Bytes) → (min_freq : ℕ) → (dry_run : Bool)
      → (before history : Answers) → World
      → Disk
      → git.World
      → Learned
  unfolding learn_with learn_git learn_config
  learn_opened (none, files) home data_dir min_freq dry_run before history world disk w = record {
    status = 1;
    listed = [];
    disk = disk;
    store_files = files;
    repositories = w;
  }
  learn_opened (some db, files) home data_dir min_freq dry_run before history world disk w =
      let g = learn_git data_dir dry_run in
      learn_with (learn_config home data_dir min_freq dry_run (is_some g)) dry_run before history
        world g disk (os.sqlite_close db files) w

  -- `CmdLearn`
  unfoldable pub cmd_learn :
      (home : Option Bytes)
      → (data_dir : Bytes) → (min_freq : ℕ) → (dry_run : Bool) → (before history : Answers) → World
      → Disk
      → os.World
      → git.World
      → Learned
  unfolding learn_opened under make_history_store
  cmd_learn home data_dir min_freq dry_run before history world disk files w =
      learn_opened (make_history_store os (under data_dir (codes "history.db")) data_dir files) home
        data_dir min_freq dry_run before history world disk w
