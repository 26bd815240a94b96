-- ===== src/NewWord/Counts/Words.antt =====
-- What `Discover` of src/daemon/new_word.cc reports: the counters of the texts, and the words.
use dafeng_wubi.Prelude.{
  ℕ, ◌+◌, ◌-◌, ◌%◌, ◌^◌, ◌≤◌, ◌<◌, min, max, true, List, [], ◌∷◌, none, some, ◌≡◌, refl, ap, ◌∙◌,
  arith, inl, inr, Bool-cases, ltb, if◌then◌else◌, length, Bytes, bytes_eq, bytes_eq_iff,
  bytes_eq_refl, All,
}
use dafeng_wubi.Prelude.Sort.{sort-All}
use dafeng_wubi.Prelude.UnorderedMap.{find, assign, or_default, find-assign, IsMap, assign-IsMap}
use dafeng_wubi.History.{HistoryEntry}
use dafeng_wubi.NewWord.{
  DiscoveryConfig, DiscoveredWord, Token, Counter, Counts, fresh, text_of, code_of, code_ok, bump,
  emit, words, before, discover, looks_like_real_candidate,
}
use dafeng_wubi.NewWord.Counts.{all_grams, runs_of, emit_all, count_all-runs_of}

-- the times of the groups that spell a text
abbrev pub times : Bytes → List (List Token) → List ℕ
times text [] = []
times text ([] ∷ gs) = times text gs
times text ((t ∷ toks) ∷ gs) =
    if bytes_eq (text_of (t ∷ toks)) text then t.ts ∷ times text gs else times text gs

abbrev pub earliest : ℕ → List ℕ → ℕ
earliest n [] = n
earliest n (t ∷ ts) = earliest (min n t) ts

abbrev pub latest : ℕ → List ℕ → ℕ
latest n [] = n
latest n (t ∷ ts) = latest (max n t) ts

abbrev pub counter_of : Bytes → Counts → Counter
counter_of text counts = or_default fresh (find text counts)

-- How a counter stands after groups at the times `ts`.
abbrev pub Tallied : Counter → List ℕ → Counter → Type 0
Tallied c ts c' =
    (c'.count ≡ (c.count + length ts) % 2 ^ 32)
    × (c'.first_us ≡ earliest c.first_us ts)
    × (c'.last_us ≡ latest c.last_us ts)

counter_of-assign :
    (k j : Bytes) (c : Counter) (counts : Counts)
    → counter_of j (assign k c counts) ≡ (if bytes_eq k j then c else counter_of j counts)
counter_of-assign k j c counts = ground (arith, find-assign k j c counts)

-- the arguments of `bump` that `emit` takes from its tokens
abbrev bump_by : Token → List Token → Counter → Counter
bump_by t toks c = bump t.ts (code_ok (t ∷ toks)) (code_of (t ∷ toks)) c

counter_of-assigned :
    (text : Bytes) (t : Token) (toks : List Token) (counts : Counts)
    → counter_of text (emit (t ∷ toks) counts) ≡ (
        if bytes_eq (text_of (t ∷ toks)) text
        then bump_by t toks (counter_of (text_of (t ∷ toks)) counts)
        else counter_of text counts)
unfolding emit
counter_of-assigned text t toks counts =
    counter_of-assign (text_of (t ∷ toks)) text
      (bump_by t toks (counter_of (text_of (t ∷ toks)) counts)) counts

counter_of-emit :
    (text : Bytes) (t : Token) (toks : List Token) (counts : Counts)
    → counter_of text (emit (t ∷ toks) counts) ≡ (
        if bytes_eq (text_of (t ∷ toks)) text
        then bump_by t toks (counter_of text counts)
        else counter_of text counts)
counter_of-emit text t toks counts = elim (Bool-cases (bytes_eq (text_of (t ∷ toks)) text)) [
  | inl same ↦
      let is_text = (bytes_eq_iff (text_of (t ∷ toks)) text).0 same in
      rw same (
        counter_of-assigned text t toks counts
        ∙ rw same (ap (λ k. bump_by t toks (counter_of k counts)) is_text))
  | inr other ↦ rw other (counter_of-assigned text t toks counts ∙ rw other refl)
]

bump-Tallied :
    (t : Token) (toks : List Token) (c c' : Counter) (ts : List ℕ)
    → Tallied (bump_by t toks c) ts c'
    → Tallied c (t.ts ∷ ts) c'
unfolding bump
bump-Tallied t toks c c' ts (h, first, last) = (omega arith, first, last)

bump-count : (t : Token) (toks : List Token) (c : Counter) → (bump_by t toks c).count < 2 ^ 32
unfolding bump
bump-count t toks c = omega arith

emit-nil : (counts : Counts) → emit [] counts ≡ counts
unfolding emit
emit-nil counts = refl

-- The counter of a text after groups of tokens: the count has grown by their number, and the times reach
-- from the earliest to the latest.
emit_all-Tallied :
    (text : Bytes) (gs : List (List Token)) (counts : Counts)
    → (counter_of text counts).count < 2 ^ 32
    → Tallied (counter_of text counts) (times text gs) (counter_of text (emit_all gs counts))
emit_all-Tallied text [] counts h = (omega arith, refl, refl)
emit_all-Tallied text ([] ∷ gs) counts h = rw emit-nil (emit_all-Tallied text gs counts h)
emit_all-Tallied text ((t ∷ toks) ∷ gs) counts h =
    let counts1 = emit (t ∷ toks) counts in
    let now = counter_of-emit text t toks counts in
    elim (Bool-cases (bytes_eq (text_of (t ∷ toks)) text)) [
      | inl same ↦
          let bumped : counter_of text counts1 ≡ bump_by t toks (counter_of text counts) =
            now ∙ rw same refl in
          rw same (
            bump-Tallied t toks (counter_of text counts) (counter_of text (emit_all gs counts1))
              (times text gs)
              (rw bumped at (
                emit_all-Tallied text gs counts1
                  (rw bumped (bump-count t toks (counter_of text counts))))))
      | inr other ↦
          let kept : counter_of text counts1 ≡ counter_of text counts = now ∙ rw other refl in
          rw other (rw kept at (emit_all-Tallied text gs counts1 (rw kept h)))
    ]

emit-IsMap : (g : List Token) (counts : Counts) → IsMap counts → IsMap (emit g counts)
unfolding emit
emit-IsMap [] counts h = h
emit-IsMap (t ∷ toks) counts h = assign-IsMap _ _ counts h

emit_all-IsMap :
    (gs : List (List Token)) (counts : Counts) → IsMap counts → IsMap (emit_all gs counts)
emit_all-IsMap [] counts h = h
emit_all-IsMap (g ∷ gs) counts h = emit_all-IsMap gs (emit g counts) (emit-IsMap g counts h)

-- every entry is what a look-up of its text in `m` gives
abbrev pub Found : Counts → Counts → Type 0
Found m counts = All (λ kv. find kv.0 m ≡ some kv.1) counts

Found-cons :
    (k : Bytes) (c : Counter) (m counts : Counts)
    → find k m ≡ none
    → Found m counts
    → Found ((k, c) ∷ m) counts
unfolding find
Found-cons k c m [] h f = tt
Found-cons k c m ((j, d) ∷ counts) h (f, fs) =
    (ground (arith, bytes_eq_iff k j), Found-cons k c m counts h fs)

IsMap-Found : (m : Counts) → IsMap m → Found m m
unfolding find
IsMap-Found [] h = tt
IsMap-Found ((k, c) ∷ m) (absent, h) =
    (rw bytes_eq_refl refl, Found-cons k c m m absent (IsMap-Found m h))

-- A word that is reported stands for its text's counter.
abbrev pub Reports : DiscoveryConfig → Counts → DiscoveredWord → Type 0
Reports cfg m w =
    (c : Counter) × (find w.text m ≡ some c)
    × (w.frequency ≡ c.count)
    × (w.first_seen_us ≡ c.first_us)
    × (w.last_seen_us ≡ c.last_us)
    × (cfg.min_frequency ≤ c.count)
    × (looks_like_real_candidate w.text ≡ true)

words-Reports :
    (cfg : DiscoveryConfig) (m counts : Counts)
    → Found m counts
    → All (Reports cfg m) (words cfg counts)
unfolding words
words-Reports cfg m [] f = tt
words-Reports cfg m ((text, c) ∷ counts) (f, fs) =
    let rest = words-Reports cfg m counts fs in
    elim (Bool-cases (ltb c.count cfg.min_frequency)) [
      | inl rare ↦ rw rare rest
      | inr often ↦ elim (Bool-cases (looks_like_real_candidate text)) [
        | inl real ↦ rw (often, real) ((c, f, refl, refl, refl, ground arith, real), rest)
        | inr noise ↦ rw (often, noise) rest
      ]
    ]

-- What a reported word says of a list of groups: how often they spell it, modulo 2^32, and when first and last.
abbrev pub IsWordOf : DiscoveryConfig → List (List Token) → DiscoveredWord → Type 0
IsWordOf cfg gs w =
    (w.frequency ≡ length (times w.text gs) % 2 ^ 32)
    × (w.first_seen_us ≡ earliest (2 ^ 64 - 1) (times w.text gs))
    × (w.last_seen_us ≡ latest 0 (times w.text gs))
    × (cfg.min_frequency ≤ w.frequency)
    × (looks_like_real_candidate w.text ≡ true)

Reports-IsWordOf :
    (cfg : DiscoveryConfig) (gs : List (List Token)) (w : DiscoveredWord)
    → Reports cfg (emit_all gs []) w
    → IsWordOf cfg gs w
unfolding find
Reports-IsWordOf cfg gs w (c, found, freq, first, last, often, real) =
    let (count, earliest_is, latest_is) =
      rw found at (emit_all-Tallied w.text gs [] (omega arith)) in
    (freq ∙ count ∙ omega arith, first ∙ earliest_is, last ∙ latest_is, rw freq often, real)

All-map {ℓ κ μ} :
    {A : Type ℓ} (P : A → Type κ) (Q : A → Type μ) (l : List A)
    → ((x : A) → P x → Q x)
    → All P l
    → All Q l
All-map P Q [] f h = tt
All-map P Q (x ∷ l) f (h, hs) = (f x h, All-map P Q l f hs)

-- Every word that `Discover` reports is a text that pairs or triples of neighbouring characters in a run
-- of the history spell; it comes with their number, modulo 2^32, which is not below the minimum, with the
-- times of the first and the last of them, and it passes the test for candidates.
pub discover-IsWordOf :
    (cfg : DiscoveryConfig) (entries : List HistoryEntry)
    → All (IsWordOf cfg (all_grams cfg (runs_of cfg entries))) (discover cfg entries)
unfolding discover
discover-IsWordOf cfg entries =
    let gs = all_grams cfg (runs_of cfg entries) in
    let m = emit_all gs [] in
    rw (count_all-runs_of cfg entries) (
      sort-All before (IsWordOf cfg gs) (words cfg m) (
        All-map (Reports cfg m) (IsWordOf cfg gs) (words cfg m) (Reports-IsWordOf cfg gs)
          (words-Reports cfg m m (IsMap-Found m (emit_all-IsMap gs [] tt)))))
