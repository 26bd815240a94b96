-- ===== src/GitSync.antt =====
-- src/daemon/git_sync.{h,cc}: `LibGit2Sync` and `MakeGitSync` over libgit2, whose calls are a parameter. A call that
-- fails is `none`; the guards that free its handles, and what is logged, are left out.
pub mod Lifecycle
pub mod Effects
pub mod Committing
pub mod Pushing
use dafeng_wubi.Prelude.{
  ℕ, Bool, true, false, not, ltb, List, [], ◌∷◌, Option, none, some, if◌then◌else◌, is_empty, Bytes,
  codes,
}

pub record GitSyncConfig : Type 0 where
  pub repo_path : Bytes
  pub author_name : Bytes
  pub author_email : Bytes
  pub remote_name : Bytes
  pub push_url : Bytes
  pub push_enabled : Bool
  pub ssh_public_key : Bytes
  pub ssh_private_key : Bytes

-- the initialisers of the members
abbrev pub default_config : GitSyncConfig
default_config = record {
  repo_path = [];
  author_name = codes "dafeng-daemon";
  author_email = codes "dafeng@localhost";
  remote_name = codes "origin";
  push_url = [];
  push_enabled = false;
  ssh_public_key = [];
  ssh_private_key = [];
}

pub record SshContext : Type 0 where
  pub pub_key : Bytes
  pub priv_key : Bytes

-- what `CredentialsCallback` gives: `GIT_PASSTHROUGH`, or the arguments of `git_credential_ssh_key_new`
pub data Credential : Type 0 where
  passthrough : Credential
  ssh_key : (user : Bytes) → (public : Option Bytes) → (private : Bytes) → Credential

abbrev user_or_git : Option Bytes → Bytes
user_or_git none = codes "git"
user_or_git (some user) = user

abbrev none_if_empty : Bytes → Option Bytes
none_if_empty s = if is_empty s then none else some s

-- `CredentialsCallback`, where the server allows an SSH key or does not
unfoldable pub credentials : SshContext → (ssh_key_allowed : Bool) → Option Bytes → Credential
credentials ctx ssh_key_allowed user_from_url =
    if not ssh_key_allowed
    then Credential.passthrough
    else if is_empty ctx.priv_key
    then Credential.passthrough
    else Credential.ssh_key (user_or_git user_from_url) (none_if_empty ctx.pub_key) ctx.priv_key

-- the codes that are told apart: 0, GIT_EEXISTS or GIT_ENOTFOUND, and the others
pub data Code (A : Type 0) : Type 0 where
  okay : A → Code A
  special : Code A
  failure : Code A

pub record Libgit2 : Type 1 where
  pub World : Type 0
  pub Repository : Type 0
  pub Index : Type 0
  pub Oid : Type 0
  pub Tree : Type 0
  pub Signature : Type 0
  pub Commit : Type 0
  pub Remote : Type 0
  pub repository_init_ext : (path : Bytes) → World → Code Repository × World
  pub repository_open : (path : Bytes) → World → Code Repository × World
  pub repository_index : Repository → World → Option Index × World
  pub index_add_all : Index → World → Option (Unit {0}) × World
  pub index_write : Index → World → Option (Unit {0}) × World
  pub index_write_tree : Index → World → Option Oid × World
  pub tree_lookup : Repository → Oid → World → Option Tree × World
  pub signature_now : (name email : Bytes) → World → Option Signature × World
  pub reference_name_to_id : Repository → (name : Bytes) → World → Option Oid × World
  pub commit_lookup : Repository → Oid → World → Option Commit × World
  pub commit_create :
      Repository
      → (update_ref : Bytes) → (author committer : Signature) → (encoding message : Bytes) → Tree
      → List Commit
      → World
      → Option Oid × World
  pub remote_lookup : Repository → (name : Bytes) → World → Code Remote × World
  pub remote_create : Repository → (name url : Bytes) → World → Code Remote × World
  pub remote_push :
      Remote
      → (refspecs : List Bytes) → (Bool → Option Bytes → Credential)
      → World
      → Option (Unit {0}) × World
  pub status_entrycount : Repository → World → Option ℕ × World

-- A call, and what follows where it succeeds.
infixl 5 ◌>>=◌ ◌>>◌
abbrev pub then_call : {W A B : Type 0} → Option A × W → (A → W → Option B × W) → Option B × W
then_call (none, w) f = (none, w)
then_call (some a, w) f = f a w

abbrev pub ◌>>=◌ : {W A B : Type 0} → (W → Option A × W) → (A → W → Option B × W) → W → Option B × W
◌>>=◌ m f w = then_call (m w) f

abbrev pub ◌>>◌ : {W A B : Type 0} → (W → Option A × W) → (W → Option B × W) → W → Option B × W
◌>>◌ m k = m >>= λ _. k

abbrev pub return : {W A : Type 0} → A → W → Option A × W
return a w = (some a, w)

-- `refspecs` of `Push`
abbrev pub refspecs : List Bytes
refspecs = codes "refs/heads/master:refs/heads/master" ∷ []

module _ (git : Libgit2) where
  open git use {World, Repository, Commit, Oid, Remote}

  -- the members of `LibGit2Sync`
  pub record GitSync : Type 0 where
    pub config : GitSyncConfig
    pub repo : Option Repository

  -- `MakeGitSync`
  unfoldable pub make_git_sync : GitSyncConfig → Option GitSync
  make_git_sync config =
      if is_empty config.repo_path then none else some (record { config = config; repo = none })

  -- from the test of `rc != 0` in `Init`
  unfoldable pub opened : GitSync → Code Repository × World → Bool × GitSync × World
  opened s (Code.okay repo, w) = (true, record s { repo = some repo }, w)
  opened s (_, w) = (false, record s { repo = none }, w)

  -- from the test of `GIT_EEXISTS`
  unfoldable pub initialised : GitSync → Code Repository × World → Bool × GitSync × World
  unfolding opened
  initialised s (Code.special, w) = opened s (git.repository_open s.config.repo_path w)
  initialised s (code, w) = opened s (code, w)

  unfoldable pub init_repo : Option Repository → GitSync → World → Bool × GitSync × World
  unfolding initialised
  init_repo (some repo) s w = (true, s, w)
  init_repo none s w = initialised s (git.repository_init_ext s.config.repo_path w)

  -- `Init`
  unfoldable pub init : GitSync → World → Bool × GitSync × World
  unfolding init_repo
  init s w = init_repo s.repo s w

  -- the parents of the new commit, from `has_head` on
  unfoldable pub parents_from : Repository → Option Oid × World → Option (List Commit) × World
  parents_from repo (none, w) = (some [], w)
  parents_from repo (some oid, w) = (do parent ← git.commit_lookup repo oid; return (parent ∷ [])) w

  unfoldable pub parents_of : Repository → World → Option (List Commit) × World
  unfolding parents_from
  parents_of repo w = parents_from repo (git.reference_name_to_id repo (codes "HEAD") w)

  -- `CommitAll` behind its first line
  unfoldable pub commit_in :
      GitSyncConfig → (message : Bytes) → Repository → World → Option Oid × World
  commit_in config message repo = do
    index ← git.repository_index repo
    git.index_add_all index
    git.index_write index
    tree_oid ← git.index_write_tree index
    tree ← git.tree_lookup repo tree_oid
    sig ← git.signature_now config.author_name config.author_email
    parents ← parents_of repo
    git.commit_create repo (codes "HEAD") sig sig (codes "UTF-8") message tree parents

  abbrev pub succeeded : {A : Type 0} → Option A → Bool
  succeeded none = false
  succeeded (some a) = true

  unfoldable pub in_repo :
      {A : Type 0}
      → (Repository → World → Option A × World)
      → Option Repository
      → GitSync
      → World
      → Option A × GitSync × World
  in_repo k none s w = (none, s, w)
  in_repo k (some repo) s w = let (result, w') = k repo w in (result, s, w')

  -- `repo_ == nullptr && !Init()`, and what follows otherwise; a failed `Init` leaves no repository
  unfoldable pub with_repo :
      {A : Type 0}
      → (Repository → World → Option A × World)
      → Bool × GitSync × World
      → Option A × GitSync × World
  unfolding in_repo
  with_repo k (ok, s, w) = in_repo k s.repo s w

  -- `CommitAll`
  unfoldable pub commit_all : (message : Bytes) → GitSync → World → Bool × GitSync × World
  unfolding with_repo commit_in
  commit_all message s w =
      let (result, s', w') = with_repo (commit_in s.config message) (init s w) in
      (succeeded result, s', w')

  -- the remote, created where there is none
  unfoldable pub remote_from :
      GitSyncConfig → Repository → Code Remote × World → Code Remote × World
  remote_from config repo (Code.special, w) =
      git.remote_create repo config.remote_name config.push_url w
  remote_from config repo (code, w) = (code, w)

  -- from the test of `rc != 0` in `Push`
  unfoldable pub push_to : GitSyncConfig → Code Remote × World → Option (Unit {0}) × World
  push_to config (Code.okay remote, w) =
      git.remote_push remote refspecs
        (credentials
          (record { pub_key = config.ssh_public_key; priv_key = config.ssh_private_key }))
        w
  push_to config (_, w) = (none, w)

  -- `Push` behind its first three lines
  unfoldable pub push_in : GitSyncConfig → Repository → World → Option (Unit {0}) × World
  unfolding remote_from push_to
  push_in config repo w =
      push_to config (remote_from config repo (git.remote_lookup repo config.remote_name w))

  -- `Push`
  unfoldable pub push : GitSync → World → Bool × GitSync × World
  unfolding with_repo push_in
  push s w =
      if not s.config.push_enabled
      then (true, s, w)
      else if is_empty s.config.push_url
      then (true, s, w)
      else (let (result, s', w') = with_repo (push_in s.config) (init s w) in
          (succeeded result, s', w'))

  abbrev positive : Option ℕ → Bool
  positive none = false
  positive (some n) = ltb 0 n

  -- `HasChanges`
  unfoldable pub has_changes : GitSync → World → Bool × GitSync × World
  unfolding with_repo
  has_changes s w =
      let (n, s', w') = with_repo git.status_entrycount (init s w) in (positive n, s', w')
