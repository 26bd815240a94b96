-- ===== src/AutoLearn/Idle.antt =====
-- src/daemon/auto_learn.cc with src/daemon/history_store.cc: a commit that was just logged keeps the auto-learner from running.
use dafeng_wubi.Prelude.{
  ℕ, ◌+◌, ◌*◌, ◌<◌, true, false, List, [], ◌∷◌, Option, some, ◌≡◌, refl, ap, ◌∙◌, arith,
}
use dafeng_wubi.Prelude.Int.{ℤ, pos}
use dafeng_wubi.Protocol.{CommitEvent}
use dafeng_wubi.History.{HistoryEntry}
use dafeng_wubi.History.Store.{Sqlite, to_int64, insert, recent_entries, or_none}
use dafeng_wubi.History.Rows.{CommitsTable, Before, first_time, insert-newest}
use dafeng_wubi.AutoLearn.Runner.{
  Config, Runner, Tick, latest_commit_timestamp, second_ns, idle_passed, should_run, tick,
}

latest-first : (l : List HistoryEntry) → latest_commit_timestamp l ≡ first_time l
unfolding latest_commit_timestamp
latest-first [] = refl
latest-first (e ∷ l) = refl

idle_passed-early :
    (n ts_us wall_now : ℕ)
    → 0 < n
    → wall_now < ts_us * 1_000 + n * second_ns
    → idle_passed (pos n) (some ts_us) wall_now ≡ false
unfolding idle_passed
idle_passed-early n ts_us wall_now h k = ground arith

should_run-idle :
    (cfg : Config) (t : Tick) (r : Runner)
    → idle_passed cfg.idle_threshold (latest_commit_timestamp t.recent) t.wall_now ≡ false
    → should_run cfg t r ≡ false
unfolding should_run
should_run-idle cfg t r h = ground arith

module _ (sql : Sqlite) (table : CommitsTable sql) where
  -- A tick that reads the store after a commit was logged at `now_us`, later than every row, does nothing before the idle threshold has passed since then,
  -- whatever the entries and the interval; the store answers the query.
  pub tick-idle :
      (cfg : Config) (t : Tick) (r : Runner) (threshold now_us : ℕ) (ev : CommitEvent) (db : sql.Db)
      (l : List HistoryEntry)
      → cfg.idle_threshold ≡ pos threshold
      → 0 < threshold
      → now_us < 0x8000000000000000
      → Before now_us (table.rows db)
      → (insert sql now_us ev db).0 ≡ true
      → sql.select_recent (pos 1) (insert sql now_us ev db).1 ≡ some l
      → t.recent ≡ recent_entries sql 1 (insert sql now_us ev db).1
      → t.wall_now < now_us * 1_000 + threshold * second_ns
      → tick cfg t r ≡ ([], r)
  unfolding tick recent_entries to_int64
  tick-idle cfg t r threshold now_us ev db l is_threshold positive h below ok answered reads early =
      let read : t.recent ≡ l = reads ∙ ap (or_none sql) answered in
      let latest : latest_commit_timestamp t.recent ≡ some now_us =
        ap latest_commit_timestamp read
        ∙ latest-first l
        ∙ insert-newest sql table now_us 0 ev db l h below ok answered in
      let gate : idle_passed cfg.idle_threshold (latest_commit_timestamp t.recent) t.wall_now
          ≡ false =
        ap (λ (i : ℤ). idle_passed i (latest_commit_timestamp t.recent) t.wall_now) is_threshold
        ∙ ap (λ (o : Option ℕ). idle_passed (pos threshold) o t.wall_now) latest
        ∙ idle_passed-early threshold now_us t.wall_now positive early in
      ground (arith, should_run-idle cfg t r gate)
