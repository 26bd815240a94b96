-- ===== src/History/Store.antt =====
-- src/daemon/history_store.cc: `PathIsUnder`, `MakeSqliteHistoryStore` and `SqliteHistoryStore`, with the commit logger of
-- src/daemon/mock_reranker.cc. SQLite and `std::filesystem` are parameters: a call that fails is `none` or false. A method holds its lock throughout, so it
-- is one step; what is logged is left out.
use dafeng_wubi.Prelude.{
  ℕ, zero, suc, ◌+◌, ◌-◌, ◌*◌, ◌%◌, ◌==◌, Bool, true, false, not, ◌||◌, List, [], ◌∷◌, Option, none,
  some, if◌then◌else◌, ltb, length, take, Bytes, bytes_eq,
}
use dafeng_wubi.Prelude.Int.{ℤ, pos, negsuc}
use dafeng_wubi.Protocol.{CommitEvent}
use dafeng_wubi.History.{HistoryEntry, u64_mod}

-- `is_absolute` and `preferred_separator` of a POSIX path
abbrev pub is_absolute : Bytes → Bool
is_absolute [] = false
is_absolute (c ∷ path) = c == b'/'

-- `t[i] == '/'`
abbrev pub separator_at : ℕ → Bytes → Bool
separator_at i [] = false
separator_at zero (c ∷ path) = c == b'/'
separator_at (suc i) (c ∷ path) = separator_at i path

-- `PathIsUnder` behind the calls of `weakly_canonical`
unfoldable pub canonical_is_under : (t r : Bytes) → Bool
canonical_is_under t r =
    if not (is_absolute t) || not (is_absolute r)
    then false
    else if ltb (length t) (length r)
    then false
    else if not (bytes_eq (take (length r) t) r)
    then false
    else if length t == length r
    then true
    else separator_at (length r) t

abbrev pub both_resolved : Option Bytes → Option Bytes → Bool
both_resolved none r = false
both_resolved (some t) none = false
both_resolved (some t) (some r) = canonical_is_under t r

-- `PathIsUnder`
unfoldable pub path_is_under :
    (weakly_canonical : Bytes → Option Bytes) → (target root : Bytes) → Bool
unfolding canonical_is_under
path_is_under weakly_canonical target root =
    both_resolved (weakly_canonical target) (weakly_canonical root)

-- the conversions of 64-bit integers
unfoldable pub to_int64 : ℕ → ℤ
to_int64 n = if ltb n 0x8000000000000000 then pos n else negsuc (u64_mod - 1 - n)

unfoldable pub to_uint64 : ℤ → ℕ
to_uint64 (pos n) = n
to_uint64 (negsuc n) = u64_mod - 1 - n

-- The statements of the store. A row that is read is an entry; `delete_before` returns `sqlite3_changes`.
pub record Sqlite : Type 1 where
  pub Db : Type 0
  pub insert : (ts_us : ℤ) → (code text ctx : Bytes) → Db → Bool × Db
  pub select_recent : (limit : ℤ) → Db → Option (List HistoryEntry)
  pub select_count : Db → Option ℕ
  pub delete_before : (cutoff_us : ℤ) → Db → Option ℕ × Db
  pub vacuum : Db → Bool × Db

module _ (sql : Sqlite) where
  open sql use {Db}

  -- `Insert`, at the time `now_us`
  unfoldable pub insert : (now_us : ℕ) → CommitEvent → Db → Bool × Db
  unfolding to_int64
  insert now_us ev db = sql.insert (to_int64 now_us) ev.code ev.committed_text ev.context_before db

  abbrev pub or_none : Option (List HistoryEntry) → List HistoryEntry
  or_none none = []
  or_none (some l) = l

  -- `RecentEntries`
  unfoldable pub recent_entries : (limit : ℕ) → Db → List HistoryEntry
  unfolding to_int64
  recent_entries limit db = or_none (sql.select_recent (to_int64 limit) db)

  abbrev pub or_0 : Option ℕ → ℕ
  or_0 none = 0
  or_0 (some n) = n

  -- `Count`
  unfoldable pub count : Db → ℕ
  count db = or_0 (sql.select_count db)

  -- `cutoff_us` of `Prune`, in uint64_t
  unfoldable pub cutoff : (now_us : ℕ) → (older_than : ℤ) → ℕ
  unfolding to_uint64
  cutoff now_us older_than =
      (now_us + u64_mod - to_uint64 older_than * 1_000_000 % u64_mod) % u64_mod

  -- `Prune`, of the rows older than so many seconds
  unfoldable pub prune : (now_us : ℕ) → (older_than : ℤ) → Db → ℕ × Db
  unfolding cutoff to_int64
  prune now_us older_than db =
      let (changes, db') = sql.delete_before (to_int64 (cutoff now_us older_than)) db in
      (or_0 changes, db')

  -- `Vacuum`
  unfoldable pub vacuum : Db → Bool × Db
  vacuum db = sql.vacuum db

  -- `SqliteCommitLogger::Record`; `none` is the null store
  unfoldable pub log_commit : (now_us : ℕ) → CommitEvent → Option Db → Option Db
  unfolding insert
  log_commit now_us ev none = none
  log_commit now_us ev (some db) = let (ok, db') = insert now_us ev db in some db'

-- what `sqlite3_open_v2` gives: a handle, or an error, with a handle to close or none
pub data Opened (Handle : Type 0) : Type 0 where
  opened : Handle → Opened Handle
  refused : Option Handle → Opened Handle

-- The calls of `MakeSqliteHistoryStore`.
pub record Files : Type 1 where
  pub World : Type 0
  pub Handle : Type 0
  pub weakly_canonical : Bytes → Option Bytes
  pub parent_path : Bytes → Bytes
  pub create_directories : Bytes → World → Bool × World
  pub sqlite_open : Bytes → World → Opened Handle × World
  pub chmod_owner : Bytes → World → World
  pub apply_schema : Handle → World → Bool × World
  pub sqlite_close : Handle → World → World

module _ (os : Files) where
  open os use {World, Handle}

  -- from `ApplySchema` on
  unfoldable pub with_schema : Handle → World → Option Handle × World
  with_schema db w =
      let (ok, w1) = os.apply_schema db w in
      if not ok then (none, os.sqlite_close db w1) else (some db, w1)

  -- from the test of `sqlite3_open_v2` on
  unfoldable pub with_handle : Bytes → Opened Handle × World → Option Handle × World
  unfolding with_schema
  with_handle path (Opened.refused none, w) = (none, w)
  with_handle path (Opened.refused (some db), w) = (none, os.sqlite_close db w)
  with_handle path (Opened.opened db, w) = with_schema db (os.chmod_owner path w)

  -- `MakeSqliteHistoryStore`
  unfoldable pub make_history_store : (db_path data_root : Bytes) → World → Option Handle × World
  unfolding path_is_under with_handle
  make_history_store db_path data_root w =
      if not (path_is_under os.weakly_canonical db_path data_root)
      then (none, w)
      else (let (made, w1) = os.create_directories (os.parent_path db_path) w in
          if not made then (none, w1) else with_handle db_path (os.sqlite_open db_path w1))
