-- ===== src/GitSync/Committing.antt =====
-- src/daemon/git_sync.cc: what `CommitAll` does to the repository.
use dafeng_wubi.Prelude.{
  ◌≤◌, Bool, true, false, List, [], ◌∷◌, Option, none, some, ◌≡◌, ◌⊎◌, inl, inr, refl, ap, subst,
  ◌∙◌, arith, length, Bytes, codes,
}
use dafeng_wubi.GitSync.{
  then_call, GitSyncConfig, Libgit2, GitSync, init, parents_from, parents_of, commit_in, in_repo,
  with_repo, succeeded, commit_all,
}
use dafeng_wubi.GitSync.Effects.{Effect, Effects, init-log, init-config}

module _ (git : Libgit2) (effects : Effects git) where
  open git use {World, Repository, Tree, Commit, Oid, Remote}
  open effects use {log}

  -- a chain of calls that may make a commit with this message at its end
  abbrev Commits : Bytes → List (Effect Tree Commit) → Option Oid × World → Type 0
  Commits message before (none, w) = log w ≡ before
  Commits message before (some oid, w) =
      (tree : Tree) × (parents : List Commit) × (log w
        ≡ Effect.committed (codes "HEAD") message tree parents ∷ before)
      × (length parents ≤ 1)

  -- a call that changes nothing, before the rest of such a chain
  Commits-step :
      {A : Type 0} (message : Bytes) (before : List (Effect Tree Commit)) (p : Option A × World)
      (k : A → World → Option Oid × World)
      → log p.1 ≡ before
      → ((a : A) (w : World) → p.0 ≡ some a → log w ≡ before → Commits message before (k a w))
      → Commits message before (then_call p k)
  Commits-step message before (none, w) k e rest = e
  Commits-step message before (some a, w) k e rest = rest a w refl e

  parents_from-log :
      (r : Repository) (p : Option Oid × World) → log (parents_from git r p).1 ≡ log p.1
  unfolding parents_from
  parents_from-log r (none, w) = refl
  parents_from-log r (some oid, w) =
      after_lookup (git.commit_lookup r oid w) (effects.commit_lookup-log r oid w)
    where
      after_lookup :
          {before : List (Effect Tree Commit)} (p : Option Commit × World)
          → log p.1 ≡ before
          → log (then_call p (λ c w. (some (c ∷ []), w))).1 ≡ before
      after_lookup (none, w) e = e
      after_lookup (some c, w) e = e

  parents_from-short :
      (r : Repository) (p : Option Oid × World) (ps : List Commit)
      → (parents_from git r p).0 ≡ some ps
      → length ps ≤ 1
  unfolding parents_from
  parents_from-short r (none, w) ps e = ground arith
  parents_from-short r (some oid, w) ps e = after_lookup (git.commit_lookup r oid w) ps e
    where
      after_lookup :
          (p : Option Commit × World) (ps : List Commit)
          → (then_call p (λ c w. (some (c ∷ []), w))).0 ≡ some ps
          → length ps ≤ 1
      after_lookup (none, w) ps e = absurd (ground arith)
      after_lookup (some c, w) ps e = ground arith

  parents_of-log : (r : Repository) (w : World) → log (parents_of git r w).1 ≡ log w
  unfolding parents_of
  parents_of-log r w =
      parents_from-log r (git.reference_name_to_id r (codes "HEAD") w)
      ∙ effects.name_to_id-log r (codes "HEAD") w

  parents_of-short :
      (r : Repository) (w : World) (ps : List Commit)
      → (parents_of git r w).0 ≡ some ps
      → length ps ≤ 1
  unfolding parents_of
  parents_of-short r w ps e =
      parents_from-short r (git.reference_name_to_id r (codes "HEAD") w) ps e

  commit_create-Commits :
      (message : Bytes) (r : Repository) (sig : git.Signature) (tree : Tree) (ps : List Commit)
      (before : List (Effect Tree Commit)) (w : World)
      → length ps ≤ 1
      → log w ≡ before
      → Commits message before
          (git.commit_create r (codes "HEAD") sig sig (codes "UTF-8") message tree ps w)
  commit_create-Commits message r sig tree ps before w h e =
      by_result (git.commit_create r (codes "HEAD") sig sig (codes "UTF-8") message tree ps w)
        (effects.commit_create-none r (codes "HEAD") sig sig (codes "UTF-8") message tree ps w)
        (effects.commit_create-some r (codes "HEAD") sig sig (codes "UTF-8") message tree ps w)
    where
      by_result :
          (p : Option Oid × World)
          → (p.0 ≡ none → log p.1 ≡ log w)
          → ((o : Oid)
              → p.0 ≡ some o
              → log p.1 ≡ Effect.committed (codes "HEAD") message tree ps ∷ log w)
          → Commits message before p
      by_result (none, w') f g = f refl ∙ e
      by_result (some o, w') f g =
          (tree, ps, g o refl ∙ ap (◌∷◌ (Effect.committed (codes "HEAD") message tree ps)) e, h)

  commit_in-Commits :
      (config : GitSyncConfig) (message : Bytes) (r : Repository) (w : World)
      → Commits message (log w) (commit_in git config message r w)
  unfolding commit_in
  commit_in-Commits config message r w0 =
      let before = log w0 in
      Commits-step message before (git.repository_index r w0) _ (effects.index-log r w0)
        (λ (index : git.Index) (w : World) o e.
          Commits-step message before (git.index_add_all index w) _
            (effects.add_all-log index w ∙ e)
            (λ (u : Unit {0}) (w : World) o e.
              Commits-step message before (git.index_write index w) _
                (effects.write-log index w ∙ e)
                (λ (u : Unit {0}) (w : World) o e.
                  Commits-step message before (git.index_write_tree index w) _
                    (effects.write_tree-log index w ∙ e)
                    (λ (oid : Oid) (w : World) o e.
                      Commits-step message before (git.tree_lookup r oid w) _
                        (effects.tree_lookup-log r oid w ∙ e)
                        (λ (tree : Tree) (w : World) o e. commit_tree tree w e)))))
    where
      commit_tree :
          (tree : Tree) (w : World)
          → log w ≡ log w0
          → Commits message (log w0) (
              then_call (git.signature_now config.author_name config.author_email w) (λ sig w.
                then_call (parents_of git r w) (λ ps w.
                  git.commit_create r (codes "HEAD") sig sig (codes "UTF-8") message tree ps w)))
      commit_tree tree w e =
          Commits-step message (log w0) (git.signature_now config.author_name config.author_email w)
            _ (effects.signature_now-log config.author_name config.author_email w ∙ e)
            (λ (sig : git.Signature) (w : World) o e.
              Commits-step message (log w0) (parents_of git r w) _ (parents_of-log r w ∙ e)
                (λ (ps : List Commit) (w' : World) o e.
                  commit_create-Commits message r sig tree ps (log w0) w'
                    (parents_of-short r w ps o) e))

  abbrev pub CommitsAll : Bytes → List (Effect Tree Commit) → Bool × GitSync git × World → Type 0
  CommitsAll message before (ok, s, w) =
      ((ok ≡ false) × (log w ≡ before))
      ⊎ ((ok ≡ true)
          × ((tree : Tree) × (parents : List Commit) × (log w
                ≡ Effect.committed (codes "HEAD") message tree parents ∷ before)
              × (length parents ≤ 1)))

  in_repo-CommitsAll :
      (config : GitSyncConfig) (message : Bytes) (r : Option Repository) (s : GitSync git)
      (w : World)
      → let (result, s', w') = in_repo git (commit_in git config message) r s w in
        CommitsAll message (log w) (succeeded git result, s', w')
  unfolding in_repo
  in_repo-CommitsAll config message none s w = inl (refl, refl)
  in_repo-CommitsAll config message (some r) s w =
      by_result (commit_in git config message r w) (commit_in-Commits config message r w)
    where
      by_result :
          (p : Option Oid × World)
          → Commits message (log w) p
          → CommitsAll message (log w) (succeeded git p.0, s, p.1)
      by_result (none, w') c = inl (refl, c)
      by_result (some o, w') c = inr (refl, c)

  -- `CommitAll` reports success exactly where it has made one commit on HEAD, with the message and at most one
  -- parent, on top of what was there, whether or not the tree has changed; otherwise it has made none.
  pub commit_all-CommitsAll :
      (message : Bytes) (s : GitSync git) (w : World)
      → CommitsAll message (log w) (commit_all git message s w)
  unfolding commit_all with_repo
  commit_all-CommitsAll message s w =
      let (ok, s', w') = init git s w in
      subst
        (λ (before : List (Effect Tree Commit)).
          CommitsAll message before (commit_all git message s w))
        (init-log git effects s w) (in_repo-CommitsAll s.config message s'.repo s' w')

module _ (git : Libgit2) where
  open git use {World, Repository}

  in_repo-state :
      {A : Type 0} (k : Repository → World → Option A × World) (r : Option Repository)
      (s : GitSync git) (w : World)
      → (in_repo git k r s w).1 ≡ s
  unfolding in_repo
  in_repo-state k none s w = refl
  in_repo-state k (some r) s w = refl

  pub commit_all-config :
      (message : Bytes) (s : GitSync git) (w : World)
      → (commit_all git message s w).1.config ≡ s.config
  unfolding commit_all with_repo
  commit_all-config message s w =
      let (ok, s', w') = init git s w in
      ap (λ (t : GitSync git). t.config)
        (in_repo-state (commit_in git s.config message) s'.repo s' w')
      ∙ init-config git s w
