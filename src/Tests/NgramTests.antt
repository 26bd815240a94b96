-- ===== src/Tests/NgramTests.antt =====
-- src/daemon/ngram.cc at concrete inputs.
use dafeng_wubi.Prelude.{ℕ, true, false, List, [], ◌∷◌, some, arith, ◌≡◌, refl, codes, Bytes, take}
use dafeng_wubi.Prelude.UnorderedMap.{find, assign}
use dafeng_wubi.Prelude.Sort.{sort}
use dafeng_wubi.Utf8.{utf8_len}
use dafeng_wubi.Utf8.Chars.{chars}
use dafeng_wubi.History.{HistoryEntry, earlier}
use dafeng_wubi.History.Phrases.{phrases}
use dafeng_wubi.Ngram.{Table, bigram_count, top_of, top_followers, put, size}
use dafeng_wubi.Ngram.Counts.{IsTable}
use dafeng_wubi.Ngram.File.{
  file_content, load, read_record, read_header, read_bytes, read16, read32, load_pairs, write16,
  write32, record_bytes,
}
use dafeng_wubi.Ngram.Reload.{load-file_content_counts}
use dafeng_wubi.Ngram.History.{chain_gap_us}

abbrev table : Table
table =
    (codes "a", (codes "b", 3) ∷ (codes "c", 7) ∷ (codes "d", 1) ∷ [])
    ∷ (codes "b", (codes "a", 2) ∷ [])
    ∷ []

table-IsTable : IsTable table
unfolding find
table-IsTable = ground arith

top-two : top_followers (codes "a") 2 table ≡ (codes "c", 7) ∷ (codes "b", 3) ∷ []
unfolding top_followers top_of find
top-two = refl

reload : load (some (file_content table)) ≡ (table, true)
unfolding load file_content read_record read_header read_bytes read16 read32 load_pairs write16
    write32 put find assign record_bytes
reload = refl

-- A file that is cut short keeps the records before the cut, though `Load` reports failure.
cut_file :
    load (some (take 30 (file_content table))) ≡ ((codes "a", (codes "b", 3) ∷ []) ∷ [], false)
unfolding load file_content read_record read_header read_bytes read16 read32 load_pairs write16
    write32 put find assign record_bytes
cut_file = refl

load-file_content_counts_example :
    let r = load (some (file_content table)) in
    (bigram_count (codes "a") (codes "c") r.0 ≡ bigram_count (codes "a") (codes "c") table)
    × (r.1 ≡ true)
unfolding size
load-file_content_counts_example =
    load-file_content_counts table (codes "a") (codes "c") table-IsTable (omega arith)

abbrev entry : ℕ → Bytes → HistoryEntry
entry ts text = record { id = 0; ts_us = ts; code = []; committed_text = text; context_before = [] }

-- newest first: "c" five seconds after "ab", "d" shortly after "c"
abbrev recent : List HistoryEntry
recent =
    entry 6_500_000 (codes "d") ∷ entry 6_000_000 (codes "c") ∷ entry 1_000_000 (codes "ab") ∷ []

recent-phrases :
    phrases chain_gap_us (sort earlier recent)
    ≡ (codes "a" ∷ codes "b" ∷ []) ∷ (codes "c" ∷ codes "d" ∷ []) ∷ []
unfolding sort chars utf8_len
recent-phrases = refl
