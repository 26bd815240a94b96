-- ===== src/Ngram/Counts.antt =====
-- `IncrementBigram`, `BigramCount`, `TopFollowers` and `Size`.
use dafeng_wubi.Prelude.{
  ℕ, ◌+◌, ◌%◌, ◌<◌, ◌&&◌, ◌||◌, List, [], ◌++◌, Option, none, some, ◌≡◌, ltb, if◌then◌else◌, length,
  drop, is_empty, Bytes, bytes_eq, bytes_eq_iff, arith, Option-cases, Bool-cases, inl, inr,
  take-append-drop, length-take, min, ltb→lt, ltb→ge,
}
use mathlib.Core.List.{Perm, append-nil}
use mathlib.Core.List.Perm
use dafeng_wubi.Prelude.UnorderedMap.{
  find, assign, or_default, find-assign, IsMap, AllValues, assign-IsMap, assign-AllValues,
  find-AllValues,
}
use dafeng_wubi.Prelude.Sort.{sort, IsOrdered, IsStrictWeak, sort-perm, sort-IsOrdered, length-sort}
use dafeng_wubi.Ngram.{
  Inner, Table, u32_mod, put, increment_bigram, count_in, bigram_count, top_of, top_followers,
  more_frequent,
}

count_in-assign :
    (o : Option Inner) (b d : Bytes) (n : ℕ)
    → count_in (some (assign b n (or_default [] o))) d ≡ (if bytes_eq b d then n else count_in o d)
unfolding find
count_in-assign none b d n = ground (arith, find-assign b d n [])
count_in-assign (some inner) b d n = ground (arith, find-assign b d n inner)

-- One count is set, and no other is changed.
pub bigram_count-put :
    (a b c d : Bytes) (n : ℕ) (t : Table)
    → bigram_count c d (put a b n t)
      ≡ (if bytes_eq a c && bytes_eq b d then n else bigram_count c d t)
unfolding bigram_count put
bigram_count-put a b c d n t =
    let inner = assign b n (or_default [] (find a t)) in
    elim (Bool-cases (bytes_eq a c)) [
      | inl same ↦
          rw (find-assign a c inner t, same, (bytes_eq_iff a c).0 same)
            (count_in-assign (find c t) b d n)
      | inr other ↦ rw (find-assign a c inner t, other)
    ]

-- An increment of two characters adds 1 modulo 2^32 to the count of their pair, and leaves the count of
-- every other pair; one with an empty string leaves all counts.
pub bigram_count-increment_bigram :
    (a b c d : Bytes) (t : Table)
    → bigram_count c d (increment_bigram a b t) ≡ (
        if is_empty a || is_empty b
        then bigram_count c d t
        else if bytes_eq a c && bytes_eq b d
        then (bigram_count c d t + 1) % u32_mod
        else bigram_count c d t)
unfolding increment_bigram
bigram_count-increment_bigram a b c d t = ground (
  arith,
  bytes_eq_iff a c,
  bytes_eq_iff b d,
  bigram_count-put a b c d ((bigram_count a b t + 1) % u32_mod) t,
)

more_frequent_order : IsStrictWeak more_frequent
more_frequent_order = record {
  irrefl = λ x. ground arith;
  asym = λ x y h. ground arith;
  neg_trans = λ x y z h k. ground arith;
}

abbrev IsTop : ℕ → List (Bytes × ℕ) → List (Bytes × ℕ) → Type 0
IsTop k followers top =
    (length top ≡ min k (length followers))
    × ((others : List (Bytes × ℕ)) × Perm (top ++ others) followers
        × IsOrdered more_frequent (top ++ others))

top_of-IsTop : (k : ℕ) (o : Option Inner) → IsTop k (or_default [] o) (top_of k o)
unfolding top_of
top_of-IsTop k none = (omega arith, ([], Perm.rfl, tt))
top_of-IsTop k (some l) = elim (Bool-cases (ltb k (length l))) [
  | inl many ↦ rw many (
    omega
        (arith, length-take k (sort more_frequent l), length-sort more_frequent l, ltb→lt k _ many),
    (
      drop k (sort more_frequent l),
      rw take-append-drop (sort-perm more_frequent l),
      rw take-append-drop (sort-IsOrdered more_frequent more_frequent_order l),
    ),
  )
  | inr few ↦ rw few (
    omega (arith, length-sort more_frequent l, ltb→ge k _ few),
    (
      [],
      rw append-nil (sort-perm more_frequent l),
      rw append-nil (sort-IsOrdered more_frequent more_frequent_order l),
    ),
  )
]

-- `TopFollowers` returns the most frequent followers first, as many as there are but at most `k`: with the
-- others behind them, they are all the followers of `a` in falling order of their counts.
pub top_followers_lem :
    (a : Bytes) (k : ℕ) (t : Table)
    → let followers = or_default [] (find a t) in
      let top = top_followers a k t in
      (length top ≡ min k (length followers))
      × ((others : List (Bytes × ℕ)) × Perm (top ++ others) followers
          × IsOrdered more_frequent (top ++ others))
unfolding top_followers
top_followers_lem a k t = top_of-IsTop k (find a t)

-- A table as the program builds it: no key twice, counts of 32 bits.
abbrev pub IsTable : Table → Type 0
IsTable t = IsMap t × AllValues (λ inner. IsMap inner × AllValues (λ n. n < u32_mod) inner) t

-- Setting a count keeps the table well formed.
pub put-IsTable :
    (a b : Bytes) (n : ℕ) (t : Table) → n < u32_mod → IsTable t → IsTable (put a b n t)
unfolding put
put-IsTable a b n t h (m, v) = elim (Option-cases (find a t)) [
  | inl e ↦ rw e (assign-IsMap a _ t m, assign-AllValues _ a _ t (new h) v)
  | inr (inner, e) ↦
      let (im, iv) = find-AllValues _ a t v e in
      rw e (
        assign-IsMap a _ t m,
        assign-AllValues _ a _ t
            (assign-IsMap b n inner im, assign-AllValues (λ k. k < u32_mod) b n inner h iv) v,
      )
]
  where
    new : n < u32_mod → IsMap (assign b n []) × AllValues (λ k. k < u32_mod) (assign b n [])
    new h = (assign-IsMap b n [] tt, assign-AllValues (λ k. k < u32_mod) b n [] h tt)

-- `IncrementBigram` keeps the table well formed: no key stands twice, no inner key stands twice, and every
-- count fits 32 bits.
pub increment_bigram-IsTable :
    (a b : Bytes) (t : Table) → IsTable t → IsTable (increment_bigram a b t)
unfolding increment_bigram
increment_bigram-IsTable a b t h = elim (Bool-cases (is_empty a || is_empty b)) [
  | inl e ↦ rw e h
  | inr e ↦ rw e (put-IsTable a b _ t (omega arith) h)
]
