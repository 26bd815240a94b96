-- ===== src/LearningRound/Syncing.antt =====
-- src/daemon/learning_round.cc with src/daemon/git_sync.cc: what a round does to the repository and to the network.
use dafeng_wubi.Prelude.{
  Bool, true, false, not, ◌&&◌, List, ◌∷◌, Option, none, some, ◌≡◌, ◌⊎◌, inl, inr, refl, ap, subst,
  ◌∙◌, arith, if◌then◌else◌, is_empty, codes, length, ◌≤◌,
}
use dafeng_wubi.Disk.{Disk}
use dafeng_wubi.Ngram.{Table}
use dafeng_wubi.GitSync.{GitSyncConfig, Libgit2, GitSync, init, commit_all, push, refspecs}
use dafeng_wubi.GitSync.Effects.{Effect, Effects, init-log, init-config}
use dafeng_wubi.GitSync.Committing.{CommitsAll, commit_all-CommitsAll, commit_all-config}
use dafeng_wubi.GitSync.Pushing.{PushesIf, push-PushesIf}
use dafeng_wubi.LearningRound.{
  LearningRoundConfig, IGitSync, Answers, World, commit_and_push, sync, run_learning_round, message,
}

-- `LibGit2Sync` as an `IGitSync`
abbrev pub libgit2_sync : Libgit2 → IGitSync
libgit2_sync git = record {
  State = GitSync git × git.World;
  init = λ s. let (ok, s', w') = init git s.0 s.1 in (ok, (s', w'));
  commit_all = λ message s. let (ok, s', w') = commit_all git message s.0 s.1 in (ok, (s', w'));
  push = λ s. let (ok, s', w') = push git s.0 s.1 in (ok, (s', w'));
}

module _ (git : Libgit2) (effects : Effects git) where
  open effects use {log}

  -- a commit of the round on HEAD
  abbrev pub RoundCommit : Effect git.Tree git.Commit → Type 0
  RoundCommit e =
      (tree : git.Tree) × (parents : List git.Commit) × (e
        ≡ Effect.committed (codes "HEAD") (message (libgit2_sync git)) tree parents)
      × (length parents ≤ 1)

  -- the flags `committed` and `pushed`, and what happened: nothing, a commit, or a commit and a push
  abbrev pub Synced :
      (commit_to_git push_to_remote : Bool)
      → GitSyncConfig
      → List (Effect git.Tree git.Commit)
      → Bool
      → Bool
      → List (Effect git.Tree git.Commit)
      → Type 0
  Synced commit_to_git push_to_remote config before committed pushed after =
      ((after ≡ before) × (committed ≡ false) × (pushed ≡ false))
      ⊎ ((commit_to_git ≡ true)
          × (committed ≡ true)
          × ((e : Effect git.Tree git.Commit) × RoundCommit e
              × (((after ≡ e ∷ before)
                    × (pushed ≡ (
                        push_to_remote
                        && not (config.push_enabled && not (is_empty config.push_url)))))
                  ⊎ ((after ≡ Effect.pushed refspecs ∷ e ∷ before)
                      × (push_to_remote ≡ true)
                      × (config.push_enabled ≡ true)
                      × (is_empty config.push_url ≡ false)))))

  abbrev Outcome : Type 0
  Outcome = (Bool × Bool) × (GitSync git × git.World)

  after_commit :
      (push_to_remote : Bool) (config : GitSyncConfig) (before : List (Effect git.Tree git.Commit))
      (e : Effect git.Tree git.Commit) (s : GitSync git) (w : git.World)
      (r : Bool × GitSync git × git.World)
      → RoundCommit e
      → log w ≡ e ∷ before
      → PushesIf git effects config.push_enabled (is_empty config.push_url) (log w) r
      → let p : Outcome =
          if not push_to_remote then ((true, false), (s, w)) else ((true, r.0), (r.1, r.2)) in
        Synced true push_to_remote config before p.0.0 p.0.1 (log p.1.1)
  after_commit false config before e s w r c h p = inr (refl, refl, (e, c, inl (h, refl)))
  after_commit true config before e s w r c h (inl (same, ok)) =
      inr (refl, refl, (e, c, inl (same ∙ h, ok)))
  after_commit true config before e s w r c h (inr (sent, enabled, url)) =
      inr (refl, refl, (e, c, inr (sent ∙ ap (◌∷◌ (Effect.pushed refspecs)) h, refl, enabled, url)))

  -- from `CommitAll` on, where `next` is the rest
  after_commit_all :
      (push_to_remote : Bool) (config : GitSyncConfig) (before : List (Effect git.Tree git.Commit))
      (r : Bool × GitSync git × git.World) (next : Outcome)
      → CommitsAll git effects (message (libgit2_sync git)) before r
      → ((e : Effect git.Tree git.Commit)
          → RoundCommit e
          → log r.2 ≡ e ∷ before
          → Synced true push_to_remote config before next.0.0 next.0.1 (log next.1.1))
      → let p : Outcome = if not r.0 then ((false, false), (r.1, r.2)) else next in
        Synced true push_to_remote config before p.0.0 p.0.1 (log p.1.1)
  after_commit_all push_to_remote config before (false, s, w) next (inl (f, h)) rest =
      inl (h, refl, refl)
  after_commit_all push_to_remote config before (true, s, w) next (inr (f, (tree, parents, h, l)))
        rest =
      rest (Effect.committed (codes "HEAD") (message (libgit2_sync git)) tree parents)
        (tree, parents, refl, l) h
  after_commit_all push_to_remote config before (true, s, w) next (inl (f, h)) rest =
      absurd (ground arith)
  after_commit_all push_to_remote config before (false, s, w) next (inr (f, h)) rest =
      absurd (ground arith)

  after_init :
      (push_to_remote ready : Bool) (config : GitSyncConfig)
      (before : List (Effect git.Tree git.Commit)) (s : GitSync git) (w : git.World)
      (next : Outcome)
      → log w ≡ before
      → Synced true push_to_remote config before next.0.0 next.0.1 (log next.1.1)
      → let p : Outcome = if not ready then ((false, false), (s, w)) else next in
        Synced true push_to_remote config before p.0.0 p.0.1 (log p.1.1)
  after_init push_to_remote false config before s w next h k = inl (h, refl, refl)
  after_init push_to_remote true config before s w next h k = k

  commit_and_push-Synced :
      (push_to_remote : Bool) (s : GitSync git) (w : git.World)
      → let (done, g) = commit_and_push (libgit2_sync git) push_to_remote (s, w) in
        Synced true push_to_remote s.config (log w) done.0 done.1 (log g.1)
  unfolding commit_and_push
  commit_and_push-Synced push_to_remote s w =
      let before = log w in
      let (ready, s1, w1) = init git s w in
      let (committed, s2, w2) = commit_all git (message (libgit2_sync git)) s1 w1 in
      let r = push git s2 w2 in
      let same : s2.config ≡ s.config =
        commit_all-config git (message (libgit2_sync git)) s1 w1 ∙ init-config git s w in
      after_init push_to_remote ready s.config before s1 w1 _ (init-log git effects s w) (
        after_commit_all push_to_remote s.config before (committed, s2, w2) _
          (rw⁻¹ (init-log git effects s w)
            (commit_all-CommitsAll git effects (message (libgit2_sync git)) s1 w1))
          (λ e c h. after_commit push_to_remote s.config before e s2 w2 r c h (
            subst
              (λ (c : GitSyncConfig).
                PushesIf git effects c.push_enabled (is_empty c.push_url) (log w2) r)
              same (push-PushesIf git effects s2 w2))))

  -- what happened, where there is a repository
  abbrev pub SyncedSome :
      (commit_to_git push_to_remote : Bool)
      → GitSyncConfig
      → List (Effect git.Tree git.Commit)
      → Bool
      → Bool
      → Option (GitSync git × git.World)
      → Type 0
  SyncedSome commit_to_git push_to_remote config before committed pushed none = ⊥
  SyncedSome commit_to_git push_to_remote config before committed pushed (some (s, w)) =
      Synced commit_to_git push_to_remote config before committed pushed (log w)

  -- what happened, where there is a repository or none
  abbrev pub RoundSynced :
      LearningRoundConfig
      → Option (GitSync git × git.World)
      → Bool
      → Bool
      → Option (GitSync git × git.World)
      → Type 0
  RoundSynced cfg none committed pushed after =
      (committed ≡ false) × (pushed ≡ false) × (after ≡ none)
  RoundSynced cfg (some (s, w)) committed pushed after =
      SyncedSome cfg.commit_to_git cfg.push_to_remote s.config (log w) committed pushed after

  gate_sync :
      (commit_to_git push_to_remote : Bool) (config : GitSyncConfig) (s : GitSync git)
      (w : git.World) (next : Outcome)
      → Synced true push_to_remote config (log w) next.0.0 next.0.1 (log next.1.1)
      → let p : (Bool × Bool) × Option (GitSync git × git.World) =
          if commit_to_git then (next.0, some next.1) else ((false, false), some (s, w)) in
        SyncedSome commit_to_git push_to_remote config (log w) p.0.0 p.0.1 p.1
  gate_sync false push_to_remote config s w next h = inl (refl, refl, refl)
  gate_sync true push_to_remote config s w next h = h

  sync-RoundSynced :
      (cfg : LearningRoundConfig) (g : Option (GitSync git × git.World))
      → let (done, g') = sync (libgit2_sync git) cfg g in RoundSynced cfg g done.0 done.1 g'
  unfolding sync
  sync-RoundSynced cfg none = (refl, refl, refl)
  sync-RoundSynced cfg (some (s, w)) =
      gate_sync cfg.commit_to_git cfg.push_to_remote s.config s w
        (commit_and_push (libgit2_sync git) cfg.push_to_remote (s, w))
        (commit_and_push-Synced cfg.push_to_remote s w)

  -- A round makes at most one commit, with its message, on HEAD, and only where the configuration says so; it sends
  -- something, the branch master and that after the commit, only where it is to push, and the repository has pushing enabled and a
  -- URL. `committed` tells whether it has made the commit; `pushed` is true as well where it is to push but pushing is disabled or
  -- has no URL, and nothing was sent.
  pub run_learning_round-RoundSynced :
      (cfg : LearningRoundConfig) (history : Answers) (w : World) (table : Table) (disk : Disk)
      (g : Option (GitSync git × git.World))
      → let (result, table', disk', g') =
          run_learning_round (libgit2_sync git) cfg history w table disk g in
        RoundSynced cfg g result.committed result.pushed g'
  unfolding run_learning_round
  run_learning_round-RoundSynced cfg history w table disk g = sync-RoundSynced cfg g
