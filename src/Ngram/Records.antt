-- ===== src/Ngram/Records.antt =====
-- The pairs of a table that `Save` writes, those that it skips, and their bytes.
use dafeng_wubi.Prelude.{
  ℕ, suc, ◌+◌, ◌≤◌, ◌<◌, List, [], ◌∷◌, ◌++◌, ◌≡◌, refl, arith, sym, if◌then◌else◌, length, Bytes,
  length-append, Bool-cases, inl, inr, All, All-append,
}
use mathlib.Core.List.{append_assoc}
use dafeng_wubi.Ngram.{Inner, Table, u32_mod, put, size}
use dafeng_wubi.Ngram.Counts.{IsTable}
use dafeng_wubi.Prelude.UnorderedMap.{AllValues}
use dafeng_wubi.Ngram.File.{record_bytes, inner_bytes, table_bytes, is_skipped, u16_max}

abbrev pub Record : Type 0
Record = Bytes × Bytes × ℕ

-- the pairs of the table that the file holds, in the order of the loops
abbrev pub inner_records : Bytes → Inner → List Record
inner_records a [] = []
inner_records a ((b, n) ∷ inner) =
    if is_skipped a b then inner_records a inner else (a, b, n) ∷ inner_records a inner

abbrev pub records : Table → List Record
records [] = []
records ((a, inner) ∷ t) = inner_records a inner ++ records t

abbrev pub bytes_of : List Record → Bytes
bytes_of [] = []
bytes_of ((a, b, n) ∷ l) = record_bytes a b n ++ bytes_of l

abbrev pub put_all : List Record → Table → Table
put_all [] t = t
put_all ((a, b, n) ∷ l) t = put_all l (put a b n t)

pub bytes_of-append : (xs ys : List Record) → bytes_of (xs ++ ys) ≡ bytes_of xs ++ bytes_of ys
bytes_of-append [] ys = refl
bytes_of-append ((a, b, n) ∷ xs) ys =
    rw (bytes_of-append xs ys) (sym (append_assoc (record_bytes a b n) (bytes_of xs) (bytes_of ys)))

pub put_all-append :
    (xs ys : List Record) (t : Table) → put_all (xs ++ ys) t ≡ put_all ys (put_all xs t)
put_all-append [] ys t = refl
put_all-append ((a, b, n) ∷ xs) ys t = put_all-append xs ys (put a b n t)

pub inner_bytes-bytes_of :
    (a : Bytes) (inner : Inner) → inner_bytes a inner ≡ bytes_of (inner_records a inner)
unfolding inner_bytes
inner_bytes-bytes_of a [] = refl
inner_bytes-bytes_of a ((b, n) ∷ inner) = ground (arith, inner_bytes-bytes_of a inner)

pub table_bytes-bytes_of : (t : Table) → table_bytes t ≡ bytes_of (records t)
unfolding table_bytes
table_bytes-bytes_of [] = refl
table_bytes-bytes_of ((a, inner) ∷ t) =
    rw (inner_bytes-bytes_of a inner, table_bytes-bytes_of t)
      (sym (bytes_of-append (inner_records a inner) (records t)))

-- what `read_record` needs of a record
abbrev pub IsReadable : Record → Type 0
IsReadable (a, b, n) = (length a ≤ u16_max) × (length b ≤ u16_max) × (n < u32_mod)

pub inner_records-IsReadable :
    (a : Bytes) (inner : Inner)
    → AllValues (λ n. n < u32_mod) inner
    → All IsReadable (inner_records a inner)
inner_records-IsReadable a [] h = tt
inner_records-IsReadable a ((b, n) ∷ inner) (h, hs) = elim (Bool-cases (is_skipped a b)) [
  | inl e ↦ rw e (inner_records-IsReadable a inner hs)
  | inr e ↦ rw e ((ground arith, ground arith, h), inner_records-IsReadable a inner hs)
]

pub records-IsReadable : (t : Table) → IsTable t → All IsReadable (records t)
records-IsReadable [] h = tt
records-IsReadable ((a, inner) ∷ t) ((_, m), (h, hs)) =
    All-append IsReadable (inner_records a inner) (records t) (inner_records-IsReadable a inner h.1)
      (records-IsReadable t (m, hs))

-- the pairs that `Save` counts and skips
abbrev pub inner_skips : Bytes → Inner → ℕ
inner_skips a [] = 0
inner_skips a ((b, n) ∷ inner) =
    if is_skipped a b then suc (inner_skips a inner) else inner_skips a inner

abbrev pub skips : Table → ℕ
skips [] = 0
skips ((a, inner) ∷ t) = inner_skips a inner + skips t

pub length-inner_records :
    (a : Bytes) (inner : Inner)
    → length inner ≡ length (inner_records a inner) + inner_skips a inner
length-inner_records a [] = omega arith
length-inner_records a ((b, n) ∷ inner) = ground (arith, length-inner_records a inner)

pub size-records : (t : Table) → size t ≡ length (records t) + skips t
unfolding size
size-records [] = omega arith
size-records ((a, inner) ∷ t) = omega (
  arith,
  size-records t,
  length-inner_records a inner,
  length-append (inner_records a inner) (records t),
)
