-- ===== src/GitSync/Effects.antt =====
-- src/daemon/git_sync.cc: what the calls of libgit2 do to the repository and to the network, and what `Init` leaves as it is.
use dafeng_wubi.Prelude.{Bool, List, ◌∷◌, Option, none, some, ◌≡◌, refl, ◌∙◌, Bytes}
use dafeng_wubi.GitSync.{Credential, Code, Libgit2, GitSync, opened, initialised, init_repo, init}

-- what outlives a call: a commit on a reference with its parents, or a push
pub data Effect (Tree Commit : Type 0) : Type 0 where
  committed : (update_ref message : Bytes) → Tree → List Commit → Effect Tree Commit
  pushed : (refspecs : List Bytes) → Effect Tree Commit

-- libgit2: `commit_create` makes a commit where it succeeds, `remote_push` sends, whether or not all of it
-- arrives, and no other call does either.
pub record Effects (git : Libgit2) : Type 0 where
  pub log : git.World → List (Effect git.Tree git.Commit)
  pub init_ext-log : (p : Bytes) (w : git.World) → log (git.repository_init_ext p w).1 ≡ log w
  pub open-log : (p : Bytes) (w : git.World) → log (git.repository_open p w).1 ≡ log w
  pub index-log : (r : git.Repository) (w : git.World) → log (git.repository_index r w).1 ≡ log w
  pub add_all-log : (i : git.Index) (w : git.World) → log (git.index_add_all i w).1 ≡ log w
  pub write-log : (i : git.Index) (w : git.World) → log (git.index_write i w).1 ≡ log w
  pub write_tree-log : (i : git.Index) (w : git.World) → log (git.index_write_tree i w).1 ≡ log w
  pub tree_lookup-log :
      (r : git.Repository) (o : git.Oid) (w : git.World) → log (git.tree_lookup r o w).1 ≡ log w
  pub signature_now-log : (n e : Bytes) (w : git.World) → log (git.signature_now n e w).1 ≡ log w
  pub name_to_id-log :
      (r : git.Repository) (n : Bytes) (w : git.World)
      → log (git.reference_name_to_id r n w).1 ≡ log w
  pub commit_lookup-log :
      (r : git.Repository) (o : git.Oid) (w : git.World) → log (git.commit_lookup r o w).1 ≡ log w
  pub commit_create-none :
      (r : git.Repository) (ref : Bytes) (a c : git.Signature) (e m : Bytes) (t : git.Tree)
      (ps : List git.Commit) (w : git.World)
      → (git.commit_create r ref a c e m t ps w).0 ≡ none
      → log (git.commit_create r ref a c e m t ps w).1 ≡ log w
  pub commit_create-some :
      (r : git.Repository) (ref : Bytes) (a c : git.Signature) (e m : Bytes) (t : git.Tree)
      (ps : List git.Commit) (w : git.World) (o : git.Oid)
      → (git.commit_create r ref a c e m t ps w).0 ≡ some o
      → log (git.commit_create r ref a c e m t ps w).1 ≡ Effect.committed ref m t ps ∷ log w
  pub remote_lookup-log :
      (r : git.Repository) (n : Bytes) (w : git.World) → log (git.remote_lookup r n w).1 ≡ log w
  pub remote_create-log :
      (r : git.Repository) (n u : Bytes) (w : git.World) → log (git.remote_create r n u w).1 ≡ log w
  pub remote_push-log :
      (r : git.Remote) (refs : List Bytes) (cb : Bool → Option Bytes → Credential) (w : git.World)
      → log (git.remote_push r refs cb w).1 ≡ Effect.pushed refs ∷ log w

module _ (git : Libgit2) (effects : Effects git) where
  open git use {World, Repository, Tree, Commit, Oid, Remote}
  open effects use {log}

  opened-log : (s : GitSync git) (p : Code Repository × World) → log (opened git s p).2 ≡ log p.1
  unfolding opened
  opened-log s (Code.okay r, w) = refl
  opened-log s (Code.special, w) = refl
  opened-log s (Code.failure, w) = refl

  initialised-log :
      (s : GitSync git) (p : Code Repository × World) → log (initialised git s p).2 ≡ log p.1
  unfolding initialised
  initialised-log s (Code.special, w) =
      opened-log s (git.repository_open s.config.repo_path w)
      ∙ effects.open-log s.config.repo_path w
  initialised-log s (Code.okay r, w) = opened-log s (Code.okay r, w)
  initialised-log s (Code.failure, w) = opened-log s (Code.failure, w)

  init_repo-log :
      (r : Option Repository) (s : GitSync git) (w : World) → log (init_repo git r s w).2 ≡ log w
  unfolding init_repo
  init_repo-log (some r) s w = refl
  init_repo-log none s w =
      initialised-log s (git.repository_init_ext s.config.repo_path w)
      ∙ effects.init_ext-log s.config.repo_path w

  pub init-log : (s : GitSync git) (w : World) → log (init git s w).2 ≡ log w
  unfolding init
  init-log s w = init_repo-log s.repo s w

module _ (git : Libgit2) where
  open git use {World, Repository}

  opened-config :
      (s : GitSync git) (p : Code Repository × World) → (opened git s p).1.config ≡ s.config
  unfolding opened
  opened-config s (Code.okay r, w) = refl
  opened-config s (Code.special, w) = refl
  opened-config s (Code.failure, w) = refl

  initialised-config :
      (s : GitSync git) (p : Code Repository × World) → (initialised git s p).1.config ≡ s.config
  unfolding initialised
  initialised-config s (Code.special, w) =
      opened-config s (git.repository_open s.config.repo_path w)
  initialised-config s (Code.okay r, w) = opened-config s (Code.okay r, w)
  initialised-config s (Code.failure, w) = opened-config s (Code.failure, w)

  init_repo-config :
      (r : Option Repository) (s : GitSync git) (w : World)
      → (init_repo git r s w).1.config ≡ s.config
  unfolding init_repo
  init_repo-config (some r) s w = refl
  init_repo-config none s w = initialised-config s (git.repository_init_ext s.config.repo_path w)

  pub init-config : (s : GitSync git) (w : World) → (init git s w).1.config ≡ s.config
  unfolding init
  init-config s w = init_repo-config s.repo s w
