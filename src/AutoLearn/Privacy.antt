-- ===== src/AutoLearn/Privacy.antt =====
-- src/daemon/auto_learn.cc with src/daemon/learning_round.cc and src/daemon/git_sync.cc: the rounds of the auto-learner send nothing.
use dafeng_wubi.Prelude.{
  Bool, true, false, ◌&&◌, List, [], ◌∷◌, Option, none, some, ◌≡◌, ◌⊎◌, inl, inr, refl, arith,
  Bytes, not, is_empty, codes,
}
use dafeng_wubi.Disk.{Disk}
use dafeng_wubi.Ngram.{Table}
use dafeng_wubi.GitSync.{Libgit2, GitSync, make_git_sync}
use dafeng_wubi.GitSync.Effects.{Effect, Effects}
use dafeng_wubi.LearningRound.{Answers, World, LearningRoundResult, run_learning_round, under}
use dafeng_wubi.LearningRound.Syncing.{
  libgit2_sync, RoundCommit, SyncedSome, run_learning_round-RoundSynced,
}
use dafeng_wubi.AutoLearn.Runner.{Config, git_config, round_config}

under-is_empty : (dir name : Bytes) → is_empty name ≡ false → is_empty (under dir name) ≡ false
unfolding under
under-is_empty [] name h = h
under-is_empty (c ∷ []) name h = ground arith
under-is_empty (c ∷ d ∷ dir) name h = refl

module _ (git : Libgit2) (effects : Effects git) where
  open effects use {log}

  -- the repository of a round, and the effects behind it: none, or the round's commit
  abbrev pub Unsent :
      Config
      → List (Effect git.Tree git.Commit)
      → LearningRoundResult
      → Option (GitSync git × git.World)
      → Type 0
  Unsent cfg before result none = ⊥
  Unsent cfg before result (some (s, w)) =
      ((log w ≡ before) × (result.committed ≡ false) × (result.pushed ≡ false))
      ⊎ ((result.committed ≡ true)
          × (result.pushed ≡ cfg.push_to_remote)
          × ((e : Effect git.Tree git.Commit) × RoundCommit git effects e × (log w ≡ e ∷ before)))

  Synced-Unsent :
      (cfg : Config) (w : git.World) (result : LearningRoundResult)
      (after : Option (GitSync git × git.World))
      → SyncedSome git effects cfg.commit_to_git cfg.push_to_remote
          (git_config cfg)
          (log w)
          result.committed
          result.pushed
          after
      → Unsent cfg (log w) result after
  Synced-Unsent cfg w result none h = elim h [ ]
  Synced-Unsent cfg w result (some (s, after)) (inl h) = inl h
  Synced-Unsent cfg w result (some (s, after)) (inr (f, c, (e, r, inl (h, p)))) =
      inr (c, and_true p, (e, r, h))
    where
      and_true : {a b : Bool} → a ≡ (b && not (false && not true)) → a ≡ b
      and_true p = ground arith
  Synced-Unsent cfg w result (some (s, after)) (inr (f, c, (e, r, inr (h, p, enabled, url)))) =
      absurd (ground arith)

  -- A round of the auto-learner, which makes its repository object from its own configuration, sends nothing, whatever
  -- `push_to_remote` says: it makes at most the round's commit. Where it has made it, the round's result says
  -- that it has pushed exactly where `push_to_remote` is set, though nothing was sent.
  pub round-Unsent :
      (cfg : Config) (history : Answers) (world : World) (table : Table) (disk : Disk)
      (w : git.World)
      → let g : GitSync git = record { config = git_config cfg; repo = none } in
        let r =
          run_learning_round
            (libgit2_sync git)
            (round_config cfg)
            history
            world
            table
            disk
            (some (g, w)) in
        (make_git_sync git (git_config cfg) ≡ some g) × Unsent cfg (log w) r.0 r.3
  unfolding make_git_sync
  round-Unsent cfg history world table disk w =
      let g : GitSync git = record { config = git_config cfg; repo = none } in
      let r =
        run_learning_round (libgit2_sync git) (round_config cfg) history world table disk
          (some (g, w)) in
      (
        ground (arith, under-is_empty cfg.data_dir (codes "userdata") refl),
        Synced-Unsent cfg w r.0 r.3 (
            run_learning_round-RoundSynced git effects (round_config cfg) history world table disk
              (some (g, w))),
      )
