-- ===== src/Tests/StoreTests.antt =====
-- src/daemon/history_store.cc at concrete inputs, with a database that is the list of its rows; and the auto-learner's use of it.
use dafeng_wubi.Prelude.{
  ℕ, ◌+◌, ◌-◌, Bool, true, false, not, List, [], ◌∷◌, ◌++◌, Option, none, some, ◌≡◌, ◌==◌, ◌&&◌,
  ◌⊎◌, refl, sym, ap, ◌∙◌, arith, if◌then◌else◌, ltb, length, Bytes, codes, All,
}
use dafeng_wubi.Prelude.Int.{ℤ, pos, negsuc}
use dafeng_wubi.Protocol.{CommitEvent}
use dafeng_wubi.History.{HistoryEntry}
use dafeng_wubi.History.Store.{Sqlite, insert, recent_entries, prune, Files, Opened}
use dafeng_wubi.History.Opening.{Touches, Handles}
use dafeng_wubi.History.Rows.{
  kept, dropped, before, later_of, newest, first_time, CommitsTable, recent_enough, prune-kept,
}
use dafeng_wubi.LearningRound.{LearningRoundResult}
use dafeng_wubi.AutoLearn.Runner.{Config, Runner, Tick, Event, timeout, stopped, tick, loop}
use dafeng_wubi.AutoLearn.Gates.{rounds, learned, Spaced, loop-Spaced}
use dafeng_wubi.AutoLearn.Actions.{Warranted, tick-Warranted}
use dafeng_wubi.AutoLearn.Idle.{tick-idle}

-- a path is canonical but for two separators at its beginning
abbrev canonical : Bytes → Option Bytes
canonical [] = some []
canonical (c ∷ []) = some (c ∷ [])
canonical (c ∷ d ∷ p) = if c == b'/' && d == b'/' then none else some (c ∷ d ∷ p)

-- the world is the number of handles and the paths that were touched; the schema fails
abbrev pub counting_files : Files
counting_files = record {
  World = ℕ × List Bytes;
  Handle = Unit {0};
  weakly_canonical = λ p. some p;
  parent_path = λ p. codes "/d";
  create_directories = λ p w. (true, (w.0, p ∷ w.1));
  sqlite_open = λ p w. (Opened.opened tt, (w.0 + 1, p ∷ w.1));
  chmod_owner = λ p w. (w.0, p ∷ w.1);
  apply_schema = λ h w. (false, w);
  sqlite_close = λ h w. (w.0 - 1, w.1);
}

pub counting_handles : Handles counting_files
counting_handles = record {
  live = λ w. w.0;
  mkdir-live = λ p w. refl;
  chmod-live = λ p w. refl;
  schema-live = λ h w. refl;
  close-live = λ h w. refl;
  open-live = λ p w. refl;
}

pub counting_touches : Touches counting_files
counting_touches = record {
  touched = λ w. w.1;
  mkdir-touched = λ p w. refl;
  open-touched = λ p w. refl;
  chmod-touched = λ p w. refl;
  schema-touched = λ h w. refl;
  close-touched = λ h w. refl;
}

abbrev row_of : ℕ → (code text ctx : Bytes) → HistoryEntry
row_of ts code text ctx = record {
  id = 0;
  ts_us = ts;
  code = code;
  committed_text = text;
  context_before = ctx;
}

abbrev add_row : ℤ → (code text ctx : Bytes) → List HistoryEntry → Bool × List HistoryEntry
add_row (pos ts) code text ctx rows = (true, rows ++ row_of ts code text ctx ∷ [])
add_row (negsuc n) code text ctx rows = (false, rows)

-- a newest row, where there is one
abbrev newer : HistoryEntry → List HistoryEntry → List HistoryEntry
newer e [] = e ∷ []
newer e (d ∷ rows) = if ltb e.ts_us d.ts_us then d ∷ [] else e ∷ []

abbrev top : List HistoryEntry → List HistoryEntry
top [] = []
top (e ∷ rows) = newer e (top rows)

newer-first :
    (e : HistoryEntry) (l : List HistoryEntry)
    → first_time (newer e l) ≡ some (later_of e.ts_us (first_time l))
newer-first e [] = refl
newer-first e (d ∷ l) = ground arith

top-first : (l : List HistoryEntry) → first_time (top l) ≡ newest l
top-first [] = refl
top-first (e ∷ l) =
    newer-first e (top l) ∙ ap (λ (o : Option ℕ). some (later_of e.ts_us o)) (top-first l)

abbrev row_list : Sqlite
row_list = record {
  Db = List HistoryEntry;
  insert = add_row;
  select_recent = λ n db. some (top db);
  select_count = λ db. some (length db);
  delete_before =
      λ c db. (some (dropped (λ e. not (before c e)) db), kept (λ e. not (before c e)) db);
  vacuum = λ db. (true, db);
}

first_of : (db l : List HistoryEntry) → some (top db) ≡ some l → first_time l ≡ newest db
first_of db l e = let same : top db ≡ l = ground arith in ap first_time (sym same) ∙ top-first db

count_of : (n m : ℕ) → some n ≡ some m → m ≡ n
count_of n m e = ground arith

rows_same : (n : ℕ) (a b : List HistoryEntry) → some n ≡ none → a ≡ b
rows_same n a b e = absurd (ground arith)

row_table : CommitsTable row_list
row_table = record {
  rows = λ db. db;
  insert-true = λ ts ev db ok.
      (row_of ts ev.code ev.committed_text ev.context_before, (refl, refl, refl, refl), refl);
  select_recent-first = λ n db l e. first_of db l e;
  delete_before-some = λ c db n e. (refl, count_of _ n e);
  delete_before-none = λ c db e. rows_same _ _ _ e;
}

abbrev stored : List HistoryEntry
stored =
    row_of 5_000_000 (codes "a") (codes "x") [] ∷ row_of 9_000_000 (codes "b") (codes "y") [] ∷ []

prune-kept_example :
    let r = prune row_list 10_000_000 (pos 3) stored in
    ((r.1 ≡ kept (recent_enough 10_000_000 3) stored)
      × (r.0 ≡ dropped (recent_enough 10_000_000 3) stored))
    ⊎ ((r.1 ≡ stored) × (r.0 ≡ 0))
unfolding row_table
prune-kept_example = prune-kept row_list row_table 10_000_000 3 stored (omega arith) (omega arith)

abbrev config : Config
config = record {
  data_dir = codes "/d";
  rime_user_dir = codes "/r";
  wubi_dict_path = [];
  idle_threshold = pos 30;
  poll_interval = pos 60;
  min_round_interval = pos 300;
  min_new_word_freq = 2;
  commit_to_git = true;
  push_to_remote = false;
}

abbrev commit : CommitEvent
commit = record { code = codes "a"; committed_text = codes "x"; context_before = [] }

abbrev found_two : LearningRoundResult
found_two = record {
  ok = true;
  entries_scanned = 3;
  bigram_increments = 2;
  words_discovered = 2;
  wrote_user_dict = true;
  wrote_ngram = true;
  requested_redeploy = true;
  committed = true;
  pushed = false;
  elapsed = 7;
}

-- a tick after a commit at 10 s, where the clocks are in nanoseconds
abbrev tick_at : ℕ → ℕ → Tick
tick_at steady wall = record {
  now_count = 3;
  steady_now = steady;
  recent = recent_entries row_list 1 (insert row_list 10_000_000 commit stored).1;
  wall_now = wall;
  result = some found_two;
  steady_after = steady + 1_000_000;
  count_after = 3;
  deployed = true;
}

abbrev runner : Runner
runner = record {
  stop = false;
  started = true;
  last_round_entry_count = 1;
  last_round_at = 0;
  total_runs = 0;
  total_words_learned = 0;
}

tick-idle_example : tick config (tick_at 400_000_000_000 39_999_999_999) runner ≡ ([], runner)
unfolding row_table insert
tick-idle_example =
    tick-idle row_list row_table config (tick_at 400_000_000_000 39_999_999_999) runner 30
      10_000_000 commit stored (row_of 10_000_000 (codes "a") (codes "x") [] ∷ []) refl
      (omega arith) (omega arith) (omega arith, (omega arith, tt)) refl refl refl (omega arith)

tick-Warranted_example :
    All
      (Warranted config (tick_at 400_000_000_000 41_000_000_000) runner)
      (tick config (tick_at 400_000_000_000 41_000_000_000) runner).0
tick-Warranted_example = tick-Warranted config (tick_at 400_000_000_000 41_000_000_000) runner

abbrev wakeups : List Event
wakeups =
    timeout (tick_at 400_000_000_000 41_000_000_000)
    ∷ timeout (tick_at 460_000_000_000 101_000_000_000)
    ∷ stopped
    ∷ []

loop-Spaced_example :
    (learned (loop config wakeups runner).0 ≡ length (rounds config wakeups runner))
    × Spaced 300_000_000_000 0 (rounds config wakeups runner)
loop-Spaced_example =
    loop-Spaced config wakeups runner 0 (omega arith)
      (omega arith, omega arith, (omega arith, omega arith, tt))
