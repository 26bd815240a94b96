-- ===== src/History/Rows.antt =====
-- src/daemon/history_store.cc: what pruning deletes and what the recent entries are, from the meaning of the statements.
use dafeng_wubi.Prelude.{
  ℕ, suc, ◌+◌, ◌-◌, ◌*◌, ◌%◌, ◌<◌, Bool, true, false, not, List, [], ◌∷◌, ◌++◌, Option, none, some,
  ◌≡◌, ◌⊎◌, inl, inr, refl, ap, ◌∙◌, arith, if◌then◌else◌, ltb, Bool-cases, Option-cases,
}
use dafeng_wubi.Prelude.Int.{ℤ, pos, negsuc}
use dafeng_wubi.Protocol.{CommitEvent}
use dafeng_wubi.History.{HistoryEntry, u64_mod}
use dafeng_wubi.History.Store.{to_int64, to_uint64, Sqlite, insert, cutoff, prune, or_0}

-- the rows that a condition keeps, and how many it does not
abbrev pub kept : (HistoryEntry → Bool) → List HistoryEntry → List HistoryEntry
kept p [] = []
kept p (e ∷ rows) = if p e then e ∷ kept p rows else kept p rows

abbrev pub dropped : (HistoryEntry → Bool) → List HistoryEntry → ℕ
dropped p [] = 0
dropped p (e ∷ rows) = if p e then dropped p rows else dropped p rows + 1

-- `ts_us < cutoff`, of a signed 64-bit column
abbrev pub before : ℤ → HistoryEntry → Bool
before (pos n) e = ltb e.ts_us n
before (negsuc n) e = false

-- the greatest time of a list
abbrev pub later_of : ℕ → Option ℕ → ℕ
later_of a none = a
later_of a (some b) = if ltb a b then b else a

abbrev pub newest : List HistoryEntry → Option ℕ
newest [] = none
newest (e ∷ rows) = some (later_of e.ts_us (newest rows))

-- the time of the first row
abbrev pub first_time : List HistoryEntry → Option ℕ
first_time [] = none
first_time (e ∷ rows) = some e.ts_us

-- an entry of an event at a time
abbrev pub Logged : CommitEvent → ℕ → HistoryEntry → Type 0
Logged ev ts_us e =
    (e.ts_us ≡ ts_us)
    × (e.code ≡ ev.code)
    × (e.committed_text ≡ ev.committed_text)
    × (e.context_before ≡ ev.context_before)

-- SQLite on the table `commits`, whose times are not negative: `INSERT` adds a row at the end or, where it fails, none; the first row of
-- `ORDER BY ts_us DESC` is a newest one; `DELETE` deletes the rows of its condition, or none.
pub record CommitsTable (sql : Sqlite) : Type 0 where
  pub rows : sql.Db → List HistoryEntry
  pub insert-true :
      (ts : ℕ) (ev : CommitEvent) (db : sql.Db)
      → let (ok, db') = sql.insert (pos ts) ev.code ev.committed_text ev.context_before db in
        ok ≡ true → (e : HistoryEntry) × Logged ev ts e × (rows db' ≡ rows db ++ e ∷ [])
  pub select_recent-first :
      (n : ℕ) (db : sql.Db) (l : List HistoryEntry)
      → sql.select_recent (pos (suc n)) db ≡ some l
      → first_time l ≡ newest (rows db)
  pub delete_before-some :
      (cutoff : ℤ) (db : sql.Db) (n : ℕ)
      → (sql.delete_before cutoff db).0 ≡ some n
      → (rows (sql.delete_before cutoff db).1 ≡ kept (λ e. not (before cutoff e)) (rows db))
        × (n ≡ dropped (λ e. not (before cutoff e)) (rows db))
  pub delete_before-none :
      (cutoff : ℤ) (db : sql.Db)
      → (sql.delete_before cutoff db).0 ≡ none
      → rows (sql.delete_before cutoff db).1 ≡ rows db

-- every row is older than a time
abbrev pub Before : ℕ → List HistoryEntry → Type 0
Before now [] = Unit
Before now (e ∷ rows) = (e.ts_us < now) × Before now rows

-- whether a row is no older than so many seconds
abbrev pub recent_enough : (now_us older_than : ℕ) → HistoryEntry → Bool
recent_enough now_us older_than e = not (ltb (e.ts_us + older_than * 1_000_000) now_us)

module _ (sql : Sqlite) (table : CommitsTable sql) where
  open sql use {Db}
  open table use {rows}

  before-to_int64 :
      (now_us age : ℕ) (e : HistoryEntry)
      → now_us < 0x8000000000000000
      → age < 0x8000000000000000
      → before (to_int64 ((now_us + u64_mod - age % u64_mod) % u64_mod)) e
        ≡ ltb (e.ts_us + age) now_us
  unfolding to_int64
  before-to_int64 now_us age e h k =
      let cut : ℕ = (now_us + u64_mod - age % u64_mod) % u64_mod in
      elim (Bool-cases (ltb cut 0x8000000000000000)) [
        | inl z ↦ rw z (ground arith)
        | inr z ↦ rw z (ground arith)
      ]

  kept-same :
      (p q : HistoryEntry → Bool) (l : List HistoryEntry)
      → ((e : HistoryEntry) → p e ≡ q e)
      → (kept p l ≡ kept q l) × (dropped p l ≡ dropped q l)
  kept-same p q [] h = (refl, refl)
  kept-same p q (e ∷ l) h = ground (arith, h e, kept-same p q l h)

  -- `Prune` deletes exactly the rows older than so many seconds and returns their number, or deletes none and returns 0; times
  -- and ages are below 2^63 microseconds. An age beyond the clock's own deletes none, although the time to delete before
  -- has wrapped round.
  pub prune-kept :
      (now_us older_than : ℕ) (db : Db)
      → now_us < 0x8000000000000000
      → older_than * 1_000_000 < 0x8000000000000000
      → let (n, db') = prune sql now_us (pos older_than) db in
        ((rows db' ≡ kept (recent_enough now_us older_than) (rows db))
          × (n ≡ dropped (recent_enough now_us older_than) (rows db)))
        ⊎ ((rows db' ≡ rows db) × (n ≡ 0))
  unfolding prune cutoff to_uint64
  prune-kept now_us older_than db h k =
      let age = older_than * 1_000_000 in
      let cut = to_int64 ((now_us + u64_mod - age % u64_mod) % u64_mod) in
      let (same_rows, same_count) =
        kept-same (λ e. not (before cut e)) (recent_enough now_us older_than) (rows db)
          (λ e. ap not (before-to_int64 now_us age e h k)) in
      elim (Option-cases (sql.delete_before cut db).0) [
        | inl e ↦ inr (table.delete_before-none cut db e, ap (or_0 sql) e)
        | inr (n, e) ↦
            let (some_rows, some_count) = table.delete_before-some cut db n e in
            inl (some_rows ∙ same_rows, ap (or_0 sql) e ∙ some_count ∙ same_count)
      ]

  newest-append :
      (now : ℕ) (l : List HistoryEntry) (e : HistoryEntry)
      → e.ts_us ≡ now
      → Before now l
      → newest (l ++ e ∷ []) ≡ some now
  newest-append now [] e h k = ap some h
  newest-append now (d ∷ l) e h (k, below) =
      let rest : newest (l ++ e ∷ []) ≡ some now = newest-append now l e h below in
      rw rest (ground arith)

  to_int64-pos : (n : ℕ) → n < 0x8000000000000000 → to_int64 n ≡ pos n
  unfolding to_int64
  to_int64-pos n h = ground arith

  insert-pos :
      (now_us : ℕ) (ev : CommitEvent) (db : Db)
      → now_us < 0x8000000000000000
      → insert sql now_us ev db
        ≡ sql.insert (pos now_us) ev.code ev.committed_text ev.context_before db
  unfolding insert
  insert-pos now_us ev db h =
      ap (λ (t : ℤ). sql.insert t ev.code ev.committed_text ev.context_before db)
        (to_int64-pos now_us h)

  -- A commit that is logged after all the rows is the newest entry from then on: the first of the recent entries has its time.
  pub insert-newest :
      (now_us n : ℕ) (ev : CommitEvent) (db : Db) (l : List HistoryEntry)
      → now_us < 0x8000000000000000
      → Before now_us (rows db)
      → let (ok, db') = insert sql now_us ev db in
        ok ≡ true → sql.select_recent (pos (suc n)) db' ≡ some l → first_time l ≡ some now_us
  insert-newest now_us n ev db l h below ok e =
      let stored = insert-pos now_us ev db h in
      let (entry, logged, added) = table.insert-true now_us ev db (rw stored at ok) in
      table.select_recent-first n (insert sql now_us ev db).1 l e
      ∙ ap newest (ap (λ (r : Bool × Db). rows r.1) stored ∙ added)
      ∙ newest-append now_us (rows db) entry logged.0 below
