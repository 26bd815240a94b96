-- ===== src/Ngram/History.antt =====
-- `UpdateBigramsFromHistory` of src/daemon/ngram.cc. `RecentEntries` is the store's; its result is the
-- argument.
use dafeng_wubi.Prelude.{ℕ, ◌+◌, ◌%◌, not, ◌&&◌, List, [], ◌∷◌, if◌then◌else◌, is_empty, Bytes}
use dafeng_wubi.Prelude.Sort.{sort}
use dafeng_wubi.Utf8.{utf8_len}
use dafeng_wubi.Utf8.Chars.{chars}
use dafeng_wubi.History.{HistoryEntry, earlier, gap_exceeds, u64_mod}
use dafeng_wubi.Ngram.{Table, increment_bigram}

-- `kChainGapUs`
abbrev pub chain_gap_us : ℕ
chain_gap_us = 2_000_000

-- the table and the variables of the loop
pub record Walk : Type 0 where
  pub table : Table
  pub increments : ℕ
  pub prev_char : Bytes
  pub prev_ts : ℕ

-- one round of the inner loop, for a character `ch`
unfoldable pub walk_char : Walk → Bytes → Walk
walk_char w ch =
    if not (is_empty w.prev_char)
    then record w {
      table = increment_bigram w.prev_char ch w.table;
      increments = (w.increments + 1) % u64_mod;
      prev_char = ch;
    }
    else record w { prev_char = ch }

unfoldable pub walk_chars : Walk → List Bytes → Walk
unfolding walk_char
walk_chars w [] = w
walk_chars w (ch ∷ cs) = walk_chars (walk_char w ch) cs

-- the phrase boundary
unfoldable pub cut_phrase : Walk → HistoryEntry → Walk
cut_phrase w e =
    if not (is_empty w.prev_char) && gap_exceeds chain_gap_us w.prev_ts e.ts_us
    then record w { prev_char = [] }
    else w

-- one round of the outer loop
unfoldable pub walk_entry : Walk → HistoryEntry → Walk
unfolding cut_phrase walk_chars
walk_entry w e = record (walk_chars (cut_phrase w e) (chars utf8_len e.committed_text)) {
  prev_ts = e.ts_us;
}

unfoldable pub walk_entries : Walk → List HistoryEntry → Walk
unfolding walk_entry
walk_entries w [] = w
walk_entries w (e ∷ es) = walk_entries (walk_entry w e) es

-- the table afterwards, and the number that is returned
unfoldable pub update_bigrams_from_history : List HistoryEntry → Table → Table × ℕ
unfolding walk_entries
update_bigrams_from_history recent t =
    let w =
      walk_entries (record { table = t; increments = 0; prev_char = []; prev_ts = 0 })
        (sort earlier recent) in
    (w.table, w.increments)
