-- ===== src/History/Opening.antt =====
-- src/daemon/history_store.cc: what `MakeSqliteHistoryStore` touches and what it leaves open.
use dafeng_wubi.Prelude.{ℕ, ◌+◌, ◌-◌, List, ◌∷◌, ◌++◌, All, Option, none, some, ◌≡◌, ◌⊎◌, Bytes}
use dafeng_wubi.History.Store.{Opened, Files}

abbrev pub handles_of : {Handle : Type 0} → Opened Handle → ℕ
handles_of (Opened.opened h) = 1
handles_of (Opened.refused none) = 0
handles_of (Opened.refused (some h)) = 1

-- The paths that the calls create or change, newest first: a directory, a database file, and a file's mode. The other calls work on a
-- handle.
pub record Touches (os : Files) : Type 0 where
  pub touched : os.World → List Bytes
  pub mkdir-touched :
      (p : Bytes) (w : os.World) → touched (os.create_directories p w).1 ≡ p ∷ touched w
  pub open-touched : (p : Bytes) (w : os.World) → touched (os.sqlite_open p w).1 ≡ p ∷ touched w
  pub chmod-touched : (p : Bytes) (w : os.World) → touched (os.chmod_owner p w) ≡ p ∷ touched w
  pub schema-touched : (h : os.Handle) (w : os.World) → touched (os.apply_schema h w).1 ≡ touched w
  pub close-touched : (h : os.Handle) (w : os.World) → touched (os.sqlite_close h w) ≡ touched w

module _ (os : Files) (touches : Touches os) where
  open os use {World, Handle}
  open touches use {touched}

  -- only the database and its directory are touched
  abbrev pub TouchesOnly : (db_path : Bytes) → (before after : List Bytes) → Type 0
  TouchesOnly db_path before after =
      (new : List Bytes) × (after ≡ new ++ before)
      × All (λ p. (p ≡ db_path) ⊎ (p ≡ os.parent_path db_path)) new

-- SQLite's handles: `sqlite3_open_v2` makes one where it returns one, `sqlite3_close_v2` ends one, and the other calls
-- do neither.
pub record Handles (os : Files) : Type 0 where
  pub live : os.World → ℕ
  pub mkdir-live : (p : Bytes) (w : os.World) → live (os.create_directories p w).1 ≡ live w
  pub chmod-live : (p : Bytes) (w : os.World) → live (os.chmod_owner p w) ≡ live w
  pub schema-live : (h : os.Handle) (w : os.World) → live (os.apply_schema h w).1 ≡ live w
  pub close-live : (h : os.Handle) (w : os.World) → live (os.sqlite_close h w) ≡ live w - 1
  pub open-live :
      (p : Bytes) (w : os.World)
      → live (os.sqlite_open p w).1 ≡ live w + handles_of (os.sqlite_open p w).0

module _ (os : Files) (handles : Handles os) (touches : Touches os) where
  open os use {World, Handle}
  open handles use {live}

  -- the store's handle is the only new one
  abbrev pub Holds : Option Handle → (before after : ℕ) → Type 0
  Holds none before after = after ≡ before
  Holds (some h) before after = after ≡ before + 1
