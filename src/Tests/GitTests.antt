-- ===== src/Tests/GitTests.antt =====
-- src/daemon/git_sync.cc, and its use by the learning rounds, at a concrete input: a libgit2 whose world is the log of its effects.
use dafeng_wubi.Prelude.{
  ℕ, ◌*◌, ◌&&◌, true, false, List, [], ◌∷◌, Option, none, some, ◌≡◌, refl, arith, length, codes,
}
use dafeng_wubi.Disk.{Faults}
use dafeng_wubi.History.{HistoryEntry}
use dafeng_wubi.GitSync.{default_config, Code, Libgit2, GitSync, commit_all, make_git_sync}
use dafeng_wubi.GitSync.Effects.{Effect, Effects}
use dafeng_wubi.GitSync.Committing.{CommitsAll, commit_all-CommitsAll}
use dafeng_wubi.GitSync.Lifecycle.{
  unused, acquire, release, ◌⟶*◌, stay, make, destroy, Balanced, lifecycle-Balanced,
}
use dafeng_wubi.Prelude.Int.{pos}
use dafeng_wubi.LearningRound.{
  Answers, World, run_learning_round, recode_words, discovery_config, learned_words_path,
  personal_ngram_path,
}
use dafeng_wubi.NewWord.{discover}
use dafeng_wubi.UserDict.{yaml_content}
use dafeng_wubi.Ngram.File.{file_content}
use dafeng_wubi.Ngram.History.{update_bigrams_from_history}
use dafeng_wubi.LearningRound.Files.{Wrote, run_learning_round-Wrote}
use dafeng_wubi.LearningRound.Syncing.{libgit2_sync, RoundSynced, run_learning_round-RoundSynced}
use dafeng_wubi.AutoLearn.Runner.{Config, git_config, round_config}
use dafeng_wubi.AutoLearn.Privacy.{Unsent, round-Unsent}

abbrev Log : Type 0
Log = List (Effect ℕ ℕ)

abbrev parent_of : Log → Option ℕ
parent_of [] = none
parent_of (e ∷ log) = some (length log)

-- the repository exists already, the remote does not, and every call succeeds
abbrev pub log_git : Libgit2
log_git = record {
  World = Log;
  Repository = Unit {0};
  Index = Unit {0};
  Oid = ℕ;
  Tree = ℕ;
  Signature = Unit {0};
  Commit = ℕ;
  Remote = Unit {0};
  repository_init_ext = λ p w. (Code.special, w);
  repository_open = λ p w. (Code.okay tt, w);
  repository_index = λ r w. (some tt, w);
  index_add_all = λ i w. (some tt, w);
  index_write = λ i w. (some tt, w);
  index_write_tree = λ i w. (some 5, w);
  tree_lookup = λ r o w. (some o, w);
  signature_now = λ n e w. (some tt, w);
  reference_name_to_id = λ r n w. (parent_of w, w);
  commit_lookup = λ r o w. (some o, w);
  commit_create = λ r ref a c e m t ps w. (some (length w), Effect.committed ref m t ps ∷ w);
  remote_lookup = λ r n w. (Code.special, w);
  remote_create = λ r n u w. (Code.okay tt, w);
  remote_push = λ r refs cb w. (some tt, Effect.pushed refs ∷ w);
  status_entrycount = λ r w. (some 1, w);
}

some-none : (n : ℕ) (a b : Log) → some n ≡ none → a ≡ b
some-none n a b e = absurd (ground arith)

pub log_effects : Effects log_git
log_effects = record {
  log = λ w. w;
  init_ext-log = λ p w. refl;
  open-log = λ p w. refl;
  index-log = λ r w. refl;
  add_all-log = λ i w. refl;
  write-log = λ i w. refl;
  write_tree-log = λ i w. refl;
  tree_lookup-log = λ r o w. refl;
  signature_now-log = λ n e w. refl;
  name_to_id-log = λ r n w. refl;
  commit_lookup-log = λ r o w. refl;
  commit_create-none = λ r ref a c e m t ps w h. some-none (length w) _ _ h;
  commit_create-some = λ r ref a c e m t ps w o h. refl;
  remote_lookup-log = λ r n w. refl;
  remote_create-log = λ r n u w. refl;
  remote_push-log = λ r refs cb w. refl;
}

-- a repository object with pushing enabled
abbrev pushing : GitSync log_git
pushing = record {
  config = record default_config {
    repo_path = codes "/d/userdata";
    push_enabled = true;
    push_url = codes "git@example:u.git";
  };
  repo = none;
}

abbrev pub first_commit : Log
first_commit = Effect.committed (codes "HEAD") (codes "first") 5 [] ∷ []

commit_all-CommitsAll_example :
    CommitsAll log_git log_effects
      (codes "second")
      first_commit
      (commit_all log_git (codes "second") pushing first_commit)
unfolding log_effects
commit_all-CommitsAll_example =
    commit_all-CommitsAll log_git log_effects (codes "second") pushing first_commit

-- two objects, of which the first is destroyed
abbrev two_made : (unused, 0) ⟶* (release (acquire (acquire unused)), 1)
two_made = make (make (destroy (omega arith) stay))

lifecycle-Balanced_example : Balanced (release (acquire (acquire unused)), 1)
lifecycle-Balanced_example = lifecycle-Balanced (release (acquire (acquire unused))) 1 two_made

abbrev no_faults : Faults
no_faults = record { open_ok = true; write_ok = true; kept = 0; rename_ok = true }

-- a round in which the save of the bigrams fails at the rename
abbrev pub world : World
world = record {
  user_dict_faults = no_faults;
  ngram_faults = record no_faults { rename_ok = false };
  rime_faults = no_faults;
  sentinel_faults = record { mkdir_ok = true; open_ok = true; write_ok = true; kept = 0 };
  user_dict_now = codes "2026-01-01T00:00:00Z";
  rime_now = codes "2026-01-01T00:00:00Z";
  rime_version = codes "2026-01-01T00:00:00Z";
  sentinel_now = codes "2026-01-01T00:00:00Z";
  t0 = 0;
  t1 = 7_000_000;
}

abbrev entry : ℕ → HistoryEntry
entry n = record {
  id = n;
  ts_us = n * 1000;
  code = codes "a";
  committed_text = codes "x";
  context_before = [];
}

abbrev entries : List HistoryEntry
entries = entry 3 ∷ entry 2 ∷ entry 1 ∷ []

abbrev pub history : Answers
history = record {
  entry_count = 3;
  recent_for_bigrams = λ n. entries;
  recent_for_words = λ n. entries;
}

abbrev runner_config : Config
runner_config = record {
  data_dir = codes "/d";
  rime_user_dir = codes "/r/";
  wubi_dict_path = [];
  idle_threshold = pos 30;
  poll_interval = pos 60;
  min_round_interval = pos 300;
  min_new_word_freq = 2;
  commit_to_git = true;
  push_to_remote = true;
}

run_learning_round-RoundSynced_example :
    RoundSynced log_git log_effects
      (round_config runner_config)
      (some (pushing, first_commit))
      (run_learning_round
        (libgit2_sync log_git)
        (round_config runner_config)
        history
        world
        []
        []
        (some (pushing, first_commit))).0.committed
      (run_learning_round
        (libgit2_sync log_git)
        (round_config runner_config)
        history
        world
        []
        []
        (some (pushing, first_commit))).0.pushed
      (run_learning_round
        (libgit2_sync log_git)
        (round_config runner_config)
        history
        world
        []
        []
        (some (pushing, first_commit))).3
run_learning_round-RoundSynced_example =
    run_learning_round-RoundSynced log_git log_effects (round_config runner_config) history world []
      [] (some (pushing, first_commit))

run_learning_round-Wrote_example :
    let r =
      run_learning_round
        (libgit2_sync log_git)
        (round_config runner_config)
        history
        world
        []
        []
        (some (pushing, first_commit)) in
    let words =
      recode_words [] [] (discover (discovery_config (round_config runner_config)) entries) in
    (r.0.ok ≡ (r.0.wrote_user_dict && r.0.wrote_ngram))
    × Wrote r.0.wrote_user_dict
        (learned_words_path (round_config runner_config))
        (yaml_content world.user_dict_now words)
        []
        r.2
    × Wrote r.0.wrote_ngram
        (personal_ngram_path (round_config runner_config))
        (file_content (update_bigrams_from_history entries []).0)
        []
        r.2
run_learning_round-Wrote_example =
    run_learning_round-Wrote (libgit2_sync log_git) (round_config runner_config) history world [] []
      (some (pushing, first_commit))

round-Unsent_example :
    let g : GitSync log_git = record { config = git_config runner_config; repo = none } in
    let r =
      run_learning_round
        (libgit2_sync log_git)
        (round_config runner_config)
        history
        world
        []
        []
        (some (g, first_commit)) in
    (make_git_sync log_git (git_config runner_config) ≡ some g)
    × Unsent log_git log_effects runner_config first_commit r.0 r.3
unfolding log_effects
round-Unsent_example =
    round-Unsent log_git log_effects runner_config history world [] [] first_commit
