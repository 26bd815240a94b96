-- ===== src/History/Phrases.antt =====
-- The phrases of a history: its entries in order of time, cut where the gap is too long, and the pairs of
-- neighbouring characters in them.
use dafeng_wubi.Prelude.{
  ℕ, suc, ◌<◌, ◌&&◌, List, [], ◌∷◌, ◌++◌, if◌then◌else◌, Bytes, bytes_eq, length, All, All-append,
  Bool-cases, inl, inr,
}
use dafeng_wubi.Utf8.{utf8_len, utf8_len_bounds}
use dafeng_wubi.Utf8.Chars.{chars, chars-Splits}
use dafeng_wubi.History.{HistoryEntry, gap_exceeds}

abbrev pub Pair : Type 0
Pair = Bytes × Bytes

-- the neighbours in a text, from a character on
abbrev pub neighbours_from : Bytes → List Bytes → List Pair
neighbours_from c [] = []
neighbours_from c (d ∷ ds) = (c, d) ∷ neighbours_from d ds

abbrev pub neighbours : List Bytes → List Pair
neighbours [] = []
neighbours (c ∷ cs) = neighbours_from c cs

abbrev pub characters : HistoryEntry → List Bytes
characters e = chars utf8_len e.committed_text

-- What is left of the phrase that an entry at `prev_ts` belongs to, and the phrases behind it: a phrase ends
-- where the next entry comes more than the gap later.
abbrev pub phrases_after : ℕ → ℕ → List HistoryEntry → List Bytes × List (List Bytes)
phrases_after gap prev_ts [] = ([], [])
phrases_after gap prev_ts (e ∷ es) =
    let (here, later) = phrases_after gap e.ts_us es in
    if gap_exceeds gap prev_ts e.ts_us
    then ([], (characters e ++ here) ∷ later)
    else (characters e ++ here, later)

abbrev pub phrases : ℕ → List HistoryEntry → List (List Bytes)
phrases gap [] = []
phrases gap (e ∷ es) =
    let (here, later) = phrases_after gap e.ts_us es in (characters e ++ here) ∷ later

abbrev pub bigrams_of : List (List Bytes) → List Pair
bigrams_of [] = []
bigrams_of (p ∷ ps) = neighbours p ++ bigrams_of ps

abbrev pub occurrences : Bytes → Bytes → List Pair → ℕ
occurrences a b [] = 0
occurrences a b ((c, d) ∷ ps) =
    if bytes_eq c a && bytes_eq d b then suc (occurrences a b ps) else occurrences a b ps

-- no character is empty, so that an empty `prev_char` means that there is none
abbrev pub NonEmpty : List Bytes → Type 0
NonEmpty cs = All (λ c. 0 < length c) cs

abbrev pub NonEmptyPairs : List Pair → Type 0
NonEmptyPairs ps = All (λ p. (0 < length p.0) × (0 < length p.1)) ps

pub characters-NonEmpty : (e : HistoryEntry) → NonEmpty (characters e)
characters-NonEmpty e = (chars-Splits utf8_len utf8_len_bounds e.committed_text).pieces

pub neighbours_from-NonEmptyPairs :
    (c : Bytes) (cs : List Bytes)
    → 0 < length c
    → NonEmpty cs
    → NonEmptyPairs (neighbours_from c cs)
neighbours_from-NonEmptyPairs c [] h n = tt
neighbours_from-NonEmptyPairs c (d ∷ cs) h (n, ns) =
    ((h, n), neighbours_from-NonEmptyPairs d cs n ns)

pub neighbours-NonEmptyPairs : (cs : List Bytes) → NonEmpty cs → NonEmptyPairs (neighbours cs)
neighbours-NonEmptyPairs [] n = tt
neighbours-NonEmptyPairs (c ∷ cs) (n, ns) = neighbours_from-NonEmptyPairs c cs n ns

pub bigrams_of-NonEmptyPairs :
    (ps : List (List Bytes)) → All NonEmpty ps → NonEmptyPairs (bigrams_of ps)
bigrams_of-NonEmptyPairs [] n = tt
bigrams_of-NonEmptyPairs (p ∷ ps) (n, ns) =
    All-append _ (neighbours p) (bigrams_of ps) (neighbours-NonEmptyPairs p n)
      (bigrams_of-NonEmptyPairs ps ns)

pub phrases_after-NonEmpty :
    (gap ts : ℕ) (es : List HistoryEntry)
    → NonEmpty (phrases_after gap ts es).0 × All NonEmpty (phrases_after gap ts es).1
phrases_after-NonEmpty gap ts [] = (tt, tt)
phrases_after-NonEmpty gap ts (e ∷ es) =
    let (here, later) = phrases_after-NonEmpty gap e.ts_us es in
    let whole = All-append (λ c. 0 < length c) (characters e) _ (characters-NonEmpty e) here in
    elim (Bool-cases (gap_exceeds gap ts e.ts_us)) [
      | inl apart ↦ rw apart (tt, (whole, later))
      | inr near ↦ rw near (whole, later)
    ]

pub phrases-NonEmpty : (gap : ℕ) (es : List HistoryEntry) → All NonEmpty (phrases gap es)
phrases-NonEmpty gap [] = tt
phrases-NonEmpty gap (e ∷ es) =
    let (here, later) = phrases_after-NonEmpty gap e.ts_us es in
    (All-append (λ c. 0 < length c) (characters e) _ (characters-NonEmpty e) here, later)
