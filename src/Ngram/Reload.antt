-- ===== src/Ngram/Reload.antt =====
-- `Load` after `Save`.
use dafeng_wubi.Prelude.{
  ℕ, suc, ◌+◌, ◌<◌, not, ◌&&◌, List, [], ◌∷◌, ◌++◌, Option, none, some, ◌≡◌, refl, ◌==◌, arith, ap,
  ◌∙◌, if◌then◌else◌, length, Bytes, bytes_eq, bytes_eq_iff, inl, inr, All, Option-cases,
}
use native.Mathlib.Nat.{zero-add}
use dafeng_wubi.Ngram.{Inner, Table, u32_mod, put, size, bigram_count}
use dafeng_wubi.Ngram.Counts.{bigram_count-put, IsTable}
use dafeng_wubi.Prelude.UnorderedMap.{find, or_default, IsMap}
use dafeng_wubi.Ngram.Reading.{
  read_record-record_bytes, load_pairs-suc, load-file_content, load_pairs-nil,
}
use dafeng_wubi.Ngram.Records.{
  Record, inner_records, records, bytes_of, put_all, put_all-append, table_bytes-bytes_of,
  IsReadable, records-IsReadable, skips, size-records,
}
use dafeng_wubi.Ngram.File.{record_bytes, is_skipped, file_content, load_pairs, load}

-- The loop reads the records, and goes on with the rounds that are left.
load_pairs-bytes_of :
    (l : List Record) (k : ℕ) (t : Table)
    → All IsReadable l
    → load_pairs (length l + k) (bytes_of l) t ≡ load_pairs k [] (put_all l t)
load_pairs-bytes_of [] k t h = ap (λ j. load_pairs j [] t) (zero-add k)
load_pairs-bytes_of ((a, b, n) ∷ l) k t ((ha, hb, hn), hs) =
    let more : suc (length l) + k ≡ suc (length l + k) = omega arith in
    ap (λ j. load_pairs j (record_bytes a b n ++ bytes_of l) t) more
    ∙ load_pairs-suc (length l + k) _ (bytes_of l) a b n t
        (read_record-record_bytes a b n (bytes_of l) ha hb hn)
    ∙ load_pairs-bytes_of l k (put a b n t) hs

bigram_count-inner_records :
    (a c d : Bytes) (inner : Inner) (t : Table)
    → IsMap inner
    → bigram_count c d (put_all (inner_records a inner) t) ≡ (
        if bytes_eq a c && not (is_skipped a d)
        then or_default (bigram_count c d t) (find d inner)
        else bigram_count c d t)
unfolding find
bigram_count-inner_records a c d [] t m = ground arith
bigram_count-inner_records a c d ((b, n) ∷ inner) t (fresh, m) = ground (
  arith,
  bytes_eq_iff b d,
  bigram_count-inner_records a c d inner t m,
  bigram_count-inner_records a c d inner (put a b n t) m,
  bigram_count-put a b c d n t,
)

abbrev looked_up : Option Inner → Bytes → ℕ → ℕ
looked_up none d n = n
looked_up (some inner) d n = or_default n (find d inner)

bigram_count-records :
    (c d : Bytes) (t t' : Table)
    → IsTable t
    → bigram_count c d (put_all (records t) t') ≡ (
        if is_skipped c d
        then bigram_count c d t'
        else looked_up (find c t) d (bigram_count c d t'))
unfolding find
bigram_count-records c d [] t' m = ground arith
bigram_count-records c d ((a, inner) ∷ t) t' ((fresh, m), (v, vs)) =
    rw (put_all-append (inner_records a inner) (records t) t') (
      ground (
        arith,
        bytes_eq_iff a c,
        bigram_count-records c d t (put_all (inner_records a inner) t') (m, vs),
        bigram_count-inner_records a c d inner t' v.0,
      ))

looked_up_zero : (c d : Bytes) (t : Table) → looked_up (find c t) d 0 ≡ bigram_count c d t
unfolding bigram_count
looked_up_zero c d t = elim (Option-cases (find c t)) [ inl e ↦ rw e | inr (inner, e) ↦ rw e ]

bigram_count-records_nil :
    (c d : Bytes) (t : Table)
    → IsTable t
    → bigram_count c d (put_all (records t) []) ≡ (if is_skipped c d then 0 else bigram_count c d t)
unfolding bigram_count find
bigram_count-records_nil c d t h =
    ground (arith, bigram_count-records c d t [] h, looked_up_zero c d t)

-- For every table of fewer than 2^32 pairs that the program can build: `Load` of what `Save` wrote gives
-- every pair its count, except those with a string longer than 65535 bytes, which the file does not hold;
-- it returns true exactly if there is no such pair.
pub load-file_content_counts :
    (t : Table) (c d : Bytes)
    → IsTable t
    → size t < u32_mod
    → let r = load (some (file_content t)) in
      (bigram_count c d r.0 ≡ (if is_skipped c d then 0 else bigram_count c d t))
      × (r.1 ≡ (skips t == 0))
load-file_content_counts t c d h n =
    rw
      (
        load-file_content t n,
        table_bytes-bytes_of t,
        size-records t,
        load_pairs-bytes_of (records t) (skips t) [] (records-IsReadable t h),
        load_pairs-nil,
      )
      (bigram_count-records_nil c d t h, refl)
