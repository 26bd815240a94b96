-- ===== src/Ngram/Walks.antt =====
-- The walk of `UpdateBigramsFromHistory` makes the pairs of the phrases, entry by entry.
use dafeng_wubi.Prelude.{
  ℕ, ◌+◌, ◌%◌, ◌<◌, List, [], ◌∷◌, ◌++◌, ◌≡◌, refl, sym, ap, ◌∙◌, arith, if◌then◌else◌, Bytes,
  length, length-append, Bool-cases, inl, inr,
}
use mathlib.Core.List.{append_assoc}
use dafeng_wubi.History.{HistoryEntry, gap_exceeds, u64_mod}
use dafeng_wubi.History.Phrases.{
  Pair, neighbours_from, neighbours, characters, phrases_after, bigrams_of, NonEmpty,
  characters-NonEmpty,
}
use dafeng_wubi.Ngram.{Table, increment_bigram}
use dafeng_wubi.Ngram.History.{Walk, walk_chars, cut_phrase, walk_entry, walk_entries, chain_gap_us}

-- the increments for a list of pairs
abbrev pub add_all : List Pair → Table → Table
add_all [] t = t
add_all ((a, b) ∷ ps) t = add_all ps (increment_bigram a b t)

pub add_all-append :
    (ps qs : List Pair) (t : Table) → add_all (ps ++ qs) t ≡ add_all qs (add_all ps t)
add_all-append [] qs t = refl
add_all-append ((a, b) ∷ ps) qs t = add_all-append ps qs (increment_bigram a b t)

-- the pairs that a walk over characters makes, and its last character
abbrev pub continued : Bytes → List Bytes → List Pair
continued [] cs = neighbours cs
continued (x ∷ c) cs = neighbours_from (x ∷ c) cs

abbrev pub last_of : Bytes → List Bytes → Bytes
last_of c [] = c
last_of c (d ∷ ds) = last_of d ds

pub neighbours_from-append :
    (c : Bytes) (cs ds : List Bytes)
    → neighbours_from c (cs ++ ds) ≡ neighbours_from c cs ++ neighbours_from (last_of c cs) ds
neighbours_from-append c [] ds = refl
neighbours_from-append c (d ∷ cs) ds = ap (◌∷◌ (c, d)) (neighbours_from-append d cs ds)

pub continued_pos :
    (c : Bytes) (cs : List Bytes) → 0 < length c → continued c cs ≡ neighbours_from c cs
continued_pos [] cs h = absurd (omega arith)
continued_pos (x ∷ c) cs h = refl

pub last_of_pos :
    (c : Bytes) (cs : List Bytes) → 0 < length c → NonEmpty cs → 0 < length (last_of c cs)
last_of_pos c [] h n = h
last_of_pos c (d ∷ cs) h (n, ns) = last_of_pos d cs n ns

pub continued-append :
    (c : Bytes) (cs ds : List Bytes)
    → NonEmpty cs
    → continued c (cs ++ ds) ≡ continued c cs ++ continued (last_of c cs) ds
continued-append [] [] ds n = refl
continued-append [] (d ∷ cs) ds (n, ns) =
    neighbours_from-append d cs ds
    ∙ ap (λ t. neighbours_from d cs ++ t)
        (sym (continued_pos (last_of d cs) ds (last_of_pos d cs n ns)))
continued-append (x ∷ c) cs ds n =
    neighbours_from-append (x ∷ c) cs ds
    ∙ ap (λ t. neighbours_from (x ∷ c) cs ++ t)
        (sym (continued_pos (last_of (x ∷ c) cs) ds (last_of_pos (x ∷ c) cs (omega arith) n)))

abbrev pub walk : Table → ℕ → Bytes → ℕ → Walk
walk t n c ts = record { table = t; increments = n; prev_char = c; prev_ts = ts }

-- the walk with the pairs `ps` counted
abbrev pub counted : List Pair → Table → ℕ → Bytes → ℕ → Walk
counted ps t n c ts = walk (add_all ps t) ((n + length ps) % u64_mod) c ts

pub walk_chars-counted :
    (t : Table) (n : ℕ) (c : Bytes) (ts : ℕ) (cs : List Bytes)
    → n < u64_mod
    → NonEmpty cs
    → walk_chars (walk t n c ts) cs ≡ counted (continued c cs) t n (last_of c cs) ts
unfolding walk_chars
walk_chars-counted t n [] ts [] h p = ap (λ k. walk t k [] ts) (omega arith)
walk_chars-counted t n (x ∷ c) ts [] h p = ap (λ k. walk t k (x ∷ c) ts) (omega arith)
walk_chars-counted t n [] ts (d ∷ cs) h (p, ps) =
    walk_chars-counted t n d ts cs h ps
    ∙ ap (λ l. counted l t n (last_of d cs) ts) (continued_pos d cs p)
walk_chars-counted t n (x ∷ c) ts (d ∷ cs) h (p, ps) =
    walk_chars-counted (increment_bigram (x ∷ c) d t) ((n + 1) % u64_mod) d ts cs (omega arith) ps
    ∙ ap (λ l. counted l (increment_bigram (x ∷ c) d t) ((n + 1) % u64_mod) (last_of d cs) ts)
        (continued_pos d cs p)
    ∙ ap
        (λ k.
          walk (add_all (neighbours_from d cs) (increment_bigram (x ∷ c) d t)) k (last_of d cs) ts)
        (omega arith)

-- the pairs of the rest of a phrase, after the character `c`, and of the phrases behind it
abbrev pub pairs_after : Bytes → List Bytes × List (List Bytes) → List Pair
pairs_after c (here, later) = continued c here ++ bigrams_of later

-- the character before an entry, if the entry goes on with the phrase
abbrev pub kept_char : Bytes → ℕ → HistoryEntry → Bytes
kept_char c ts e = if gap_exceeds chain_gap_us ts e.ts_us then [] else c

pub cut_phrase-kept_char :
    (t : Table) (n : ℕ) (c : Bytes) (ts : ℕ) (e : HistoryEntry)
    → cut_phrase (walk t n c ts) e ≡ walk t n (kept_char c ts e) ts
unfolding cut_phrase
cut_phrase-kept_char t n [] ts e = ground arith
cut_phrase-kept_char t n (x ∷ c) ts e = ground arith

pub walk_entry-counted :
    (t : Table) (n : ℕ) (c : Bytes) (ts : ℕ) (e : HistoryEntry)
    → n < u64_mod
    → let c' = kept_char c ts e in
      walk_entry (walk t n c ts) e
      ≡ counted (continued c' (characters e)) t n (last_of c' (characters e)) e.ts_us
walk_entry-counted t n c ts e h =
    walk_entry-walk_chars t n c ts e
    ∙ ap {A = Walk} {B = Walk} (λ w. record w { prev_ts = e.ts_us })
        (ap (λ w. walk_chars w (characters e)) (cut_phrase-kept_char t n c ts e)
          ∙ walk_chars-counted t n (kept_char c ts e) ts (characters e) h (characters-NonEmpty e))
  where
    walk_entry-walk_chars :
        (t : Table) (n : ℕ) (c : Bytes) (ts : ℕ) (e : HistoryEntry)
        → walk_entry (walk t n c ts) e
          ≡ record (walk_chars (cut_phrase (walk t n c ts) e) (characters e)) { prev_ts = e.ts_us }
    walk_entry-walk_chars t n c ts e = unfold walk_entry in refl

pub continued_nil : (c : Bytes) → continued c [] ≡ []
continued_nil [] = refl
continued_nil (x ∷ c) = refl

pub pairs_after-cons :
    (c : Bytes) (ts : ℕ) (e : HistoryEntry) (es : List HistoryEntry)
    → let c' = kept_char c ts e in
      pairs_after c (phrases_after chain_gap_us ts (e ∷ es))
      ≡ continued c' (characters e)
        ++ pairs_after (last_of c' (characters e)) (phrases_after chain_gap_us e.ts_us es)
pairs_after-cons c ts e es =
    let here = (phrases_after chain_gap_us e.ts_us es).0 in
    let later = (phrases_after chain_gap_us e.ts_us es).1 in
    let joined : (d : Bytes)
        → continued d (characters e ++ here) ++ bigrams_of later
          ≡ continued d (characters e)
            ++ (continued (last_of d (characters e)) here ++ bigrams_of later) =
      λ d.
        ap (λ l. l ++ bigrams_of later)
          (continued-append d (characters e) here (characters-NonEmpty e))
        ∙ append_assoc (continued d (characters e)) _ (bigrams_of later) in
    elim (Bool-cases (gap_exceeds chain_gap_us ts e.ts_us)) [
      | inl apart ↦ rw (apart, continued_nil c) (joined [])
      | inr near ↦ rw near (joined c)
    ]

pub walk_entries-cons :
    (w : Walk) (e : HistoryEntry) (es : List HistoryEntry)
    → walk_entries w (e ∷ es) ≡ walk_entries (walk_entry w e) es
unfolding walk_entries
walk_entries-cons w e es = refl

pub walk_entries-counted :
    (t : Table) (n : ℕ) (c : Bytes) (ts : ℕ) (es : List HistoryEntry)
    → n < u64_mod
    → let w = walk_entries (walk t n c ts) es in
      let ps = pairs_after c (phrases_after chain_gap_us ts es) in
      (w.table ≡ add_all ps t) × (w.increments ≡ (n + length ps) % u64_mod)
walk_entries-counted t n c ts [] h = rw continued_nil (unfold walk_entries in (refl, omega arith))
walk_entries-counted t n c ts (e ∷ es) h =
    let c' = kept_char c ts e in
    let ps = continued c' (characters e) in
    let c'' = last_of c' (characters e) in
    let qs = pairs_after c'' (phrases_after chain_gap_us e.ts_us es) in
    let ih =
      walk_entries-counted (add_all ps t) ((n + length ps) % u64_mod) c'' e.ts_us es
        (omega arith) in
    let step : walk_entries (walk t n c ts) (e ∷ es)
        ≡ walk_entries (counted ps t n c'' e.ts_us) es =
      walk_entries-cons (walk t n c ts) e es
      ∙ ap (λ w. walk_entries w es) (walk_entry-counted t n c ts e h) in
    rw (pairs_after-cons c ts e es) (
      ap (λ w. w.table) step ∙ ih.0 ∙ sym (add_all-append ps qs t),
      ap (λ w. w.increments) step ∙ ih.1 ∙ omega (arith, length-append ps qs),
    )
