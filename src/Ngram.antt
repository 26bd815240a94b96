-- ===== src/Ngram.antt =====
-- src/daemon/ngram.{h,cc}: the table of bigram counts. The mutex is left out: every method holds it for its
-- whole body, so that calls do not overlap. A string is its bytes.
pub mod Counts
pub mod File
pub mod Reading
pub mod Records
pub mod Reload
pub mod History
pub mod Walks
pub mod Phrases
use dafeng_wubi.Prelude.{
  ℕ, ◌+◌, ◌%◌, ◌<◌, Bool, ◌||◌, List, [], ◌∷◌, Option, none, some, ltb, if◌then◌else◌, length, take,
  is_empty, Bytes,
}
use dafeng_wubi.Prelude.UnorderedMap.{find, assign, or_default}
use dafeng_wubi.Prelude.Sort.{sort}

-- `Inner` and `map_`
abbrev pub Inner : Type 0
Inner = List (Bytes × ℕ)

abbrev pub Table : Type 0
Table = List (Bytes × Inner)

abbrev pub u32_mod : ℕ
u32_mod = 0x100000000

-- `map_[a][b] = n`
unfoldable pub put : Bytes → Bytes → ℕ → Table → Table
put a b n t = assign a (assign b n (or_default [] (find a t))) t

-- the second half of `BigramCount`, on the result of `map_.find(a)`
abbrev pub count_in : Option Inner → Bytes → ℕ
count_in none b = 0
count_in (some inner) b = or_default 0 (find b inner)

unfoldable pub bigram_count : Bytes → Bytes → Table → ℕ
bigram_count a b t = count_in (find a t) b

-- `++map_[a][b]`; a missing count starts at 0
unfoldable pub increment_bigram : Bytes → Bytes → Table → Table
increment_bigram a b t =
    if is_empty a || is_empty b then t else put a b ((bigram_count a b t + 1) % u32_mod) t

-- `x.second > y.second`
abbrev pub more_frequent : Bytes × ℕ → Bytes × ℕ → Bool
more_frequent x y = ltb y.1 x.1

-- the entries under the key, `partial_sort` and `resize(k)`, or `sort`
unfoldable pub top_of : ℕ → Option Inner → List (Bytes × ℕ)
unfolding sort
top_of k none = []
top_of k (some entries) =
    if ltb k (length entries)
    then take k (sort more_frequent entries)
    else sort more_frequent entries

unfoldable pub top_followers : Bytes → ℕ → Table → List (Bytes × ℕ)
top_followers a k t = top_of k (find a t)

-- `Size`: the pairs in the table
unfoldable pub size : Table → ℕ
size [] = 0
size ((a, inner) ∷ t) = length inner + size t
