-- ===== src/GitSync/Pushing.antt =====
-- src/daemon/git_sync.cc: what `Push` sends.
use dafeng_wubi.Prelude.{
  Bool, true, false, not, ◌&&◌, List, ◌∷◌, Option, none, some, ◌≡◌, ◌⊎◌, inl, inr, refl, ◌∙◌,
  if◌then◌else◌, is_empty,
}
use dafeng_wubi.GitSync.{
  GitSyncConfig, Code, Libgit2, GitSync, init, in_repo, with_repo, succeeded, remote_from, push_to,
  push_in, push, refspecs,
}
use dafeng_wubi.GitSync.Effects.{Effect, Effects, init-log}

module _ (git : Libgit2) (effects : Effects git) where
  open git use {World, Repository, Tree, Commit, Oid, Remote}
  open effects use {log}

  -- `Push`, where it is enabled and its URL is empty or not
  abbrev pub PushesIf :
      (enabled no_url : Bool) → List (Effect Tree Commit) → Bool × GitSync git × World → Type 0
  PushesIf enabled no_url before (ok, s, w) =
      ((log w ≡ before) × (ok ≡ not (enabled && not no_url)))
      ⊎ ((log w ≡ Effect.pushed refspecs ∷ before) × (enabled ≡ true) × (no_url ≡ false))

  push_to-log :
      (config : GitSyncConfig) (c : Code Remote × World)
      → let (result, w') = push_to git config c in
        ((log w' ≡ log c.1) × (succeeded git result ≡ false))
        ⊎ (log w' ≡ Effect.pushed refspecs ∷ log c.1)
  unfolding push_to
  push_to-log config (Code.okay r, w) = inr (effects.remote_push-log r refspecs _ w)
  push_to-log config (Code.special, w) = inl (refl, refl)
  push_to-log config (Code.failure, w) = inl (refl, refl)

  remote_from-log :
      (config : GitSyncConfig) (r : Repository) (c : Code Remote × World)
      → log (remote_from git config r c).1 ≡ log c.1
  unfolding remote_from
  remote_from-log config r (Code.special, w) =
      effects.remote_create-log r config.remote_name config.push_url w
  remote_from-log config r (Code.okay remote, w) = refl
  remote_from-log config r (Code.failure, w) = refl

  in_repo-push :
      (config : GitSyncConfig) (r : Option Repository) (s : GitSync git) (w : World)
      → let (result, s', w') = in_repo git (push_in git config) r s w in
        ((log w' ≡ log w) × (succeeded git result ≡ false))
        ⊎ (log w' ≡ Effect.pushed refspecs ∷ log w)
  unfolding in_repo push_in
  in_repo-push config none s w = inl (refl, refl)
  in_repo-push config (some r) s w =
      let found = git.remote_lookup r config.remote_name w in
      let same : log (remote_from git config r found).1 ≡ log w =
        remote_from-log config r found ∙ effects.remote_lookup-log r config.remote_name w in
      rw⁻¹ same (push_to-log config (remote_from git config r found))

  gate-PushesIf :
      (enabled no_url : Bool) (s : GitSync git) (w : World) (r : Bool × GitSync git × World)
      → ((log r.2 ≡ log w) × (r.0 ≡ false)) ⊎ (log r.2 ≡ Effect.pushed refspecs ∷ log w)
      → PushesIf enabled no_url
          (log w)
          (if not enabled then (true, s, w) else if no_url then (true, s, w) else r)
  gate-PushesIf false no_url s w r h = inl (refl, refl)
  gate-PushesIf true true s w r h = inl (refl, refl)
  gate-PushesIf true false s w r (inl h) = inl h
  gate-PushesIf true false s w r (inr h) = inr (h, refl, refl)

  -- `Push` sends only where it is enabled and has a URL, and then only the branch master. Where it is not so it
  -- sends nothing and reports success; where it is so and nothing is sent, it reports failure.
  pub push-PushesIf :
      (s : GitSync git) (w : World)
      → PushesIf s.config.push_enabled (is_empty s.config.push_url) (log w) (push git s w)
  unfolding push with_repo
  push-PushesIf s w =
      let (ok, s', w') = init git s w in
      let (result, s2, w2) = in_repo git (push_in git s.config) s'.repo s' w' in
      gate-PushesIf s.config.push_enabled (is_empty s.config.push_url) s w
        (succeeded git result, s2, w2)
        (rw⁻¹ (init-log git effects s w) (in_repo-push s.config s'.repo s' w'))
