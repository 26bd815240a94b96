-- ===== src/WubiCodec/Phrase.antt =====
-- `EncodePhrase` against the table of src/daemon/wubi_codec.h: which key of which character's code.
use dafeng_wubi.Prelude.{
  ℕ, zero, suc, ◌-◌, ◌≤◌, ◌<◌, List, [], ◌∷◌, ◌++◌, none, some, ◌≡◌, refl, ◌∙◌, sym, ap, ◌⊎◌, inl,
  inr, arith, ltb, ◌==◌, if◌then◌else◌, length, length-append, length-take, take, map, get_elem?,
  Bytes, All, Option-cases, Bool-cases, ltb→ge,
}
use mathlib.Core.List.{append-nil}
use dafeng_wubi.Prelude.UnorderedMap.{find}
use dafeng_wubi.WubiCodec.{
  CodeMap, split_utf8_chars, full_code, codes_of, last_or, phrase_code, encode_phrase,
}

-- the key at a place of the code of a character; no key where the code is shorter
abbrev pub key_in : Bytes → ℕ → Bytes
key_in code j = elim (get_elem? code j) [ none ↦ [] | some key ↦ key ∷ [] ]

abbrev pub key_at : List Bytes → ℕ × ℕ → Bytes
key_at codes (i, j) = elim (get_elem? codes i) [ none ↦ [] | some code ↦ key_in code j ]

abbrev pub picks : List Bytes → List (ℕ × ℕ) → Bytes
picks codes [] = []
picks codes (p ∷ ps) = key_at codes p ++ picks codes ps

-- "Aa + Ab + Ba + Bb", "Aa + Ba + Ca + Cb" and "Aa + Ba + Ca + Za", each key by the number of its character
-- and its place in that character's code
abbrev pub places : ℕ → List (ℕ × ℕ)
places n =
    if n == 2
    then (0, 0) ∷ (0, 1) ∷ (1, 0) ∷ (1, 1) ∷ []
    else if n == 3
    then (0, 0) ∷ (1, 0) ∷ (2, 0) ∷ (2, 1) ∷ []
    else (0, 0) ∷ (1, 0) ∷ (2, 0) ∷ (n - 1, 0) ∷ []

-- Every character has a code.
abbrev pub AllKnown : CodeMap → List Bytes → Type 0
AllKnown m cs = All (λ c. 0 < length (full_code m c)) cs

codes_of-AllKnown :
    (m : CodeMap) (cs : List Bytes) → AllKnown m cs → codes_of m cs ≡ some (map (full_code m) cs)
unfolding codes_of full_code
codes_of-AllKnown m [] h = refl
codes_of-AllKnown m (c ∷ cs) (h, hs) = elim (Option-cases (find c m)) [
  | inl e ↦ absurd (ground arith)
  | inr (code, e) ↦ ground (arith, codes_of-AllKnown m cs hs)
]

codes_of_cases :
    (m : CodeMap) (cs : List Bytes)
    → AllKnown m cs
      ⊎ ((codes_of m cs ≡ none)
          × ((i : ℕ) × (c : Bytes) × (get_elem? cs i ≡ some c) × (full_code m c ≡ [])))
unfolding codes_of full_code
codes_of_cases m [] = inl tt
codes_of_cases m (c ∷ cs) = elim (Option-cases (find c m)) [
  | inl e ↦ inr (ground arith, (zero, c, refl, ground arith))
  | inr ([], e) ↦ inr (ground arith, (zero, c, refl, ground arith))
  | inr (k ∷ code, e) ↦ elim (codes_of_cases m cs) [
    | inl known ↦ inl (ground arith, known)
    | inr (n, (i, c', at, empty)) ↦ inr (ground arith, (suc i, c', at, empty))
  ]
]

key_at-last : (d : Bytes) (cs : List Bytes) → get_elem? (d ∷ cs) (length cs) ≡ some (last_or d cs)
unfolding last_or
key_at-last d [] = refl
key_at-last d (c ∷ cs) = key_at-last c cs

take_one : (a : Bytes) → take 1 a ≡ key_in a 0
take_one [] = refl
take_one (x ∷ a) = refl

take_two : (a rest : Bytes) → take 2 a ++ rest ≡ key_in a 0 ++ (key_in a 1 ++ rest)
take_two [] rest = refl
take_two (x ∷ []) rest = refl
take_two (x ∷ y ∷ a) rest = refl

places_many :
    (k : ℕ)
    → places (suc (suc (suc (suc k)))) ≡ (0, 0) ∷ (1, 0) ∷ (2, 0) ∷ (suc (suc (suc k)), 0) ∷ []
places_many k = ground arith

key_at-back :
    (a b c d : Bytes) (rest : List Bytes)
    → take 1 (last_or d rest) ≡ key_at (a ∷ b ∷ c ∷ d ∷ rest) (suc (suc (suc (length rest))), 0)
key_at-back a b c d rest = ground (arith, key_at-last d rest, take_one (last_or d rest))

phrase_code-picks :
    (codes : List Bytes)
    → 2 ≤ length codes
    → phrase_code codes ≡ picks codes (places (length codes))
unfolding phrase_code
phrase_code-picks [] h = absurd (omega arith)
phrase_code-picks (a ∷ []) h = absurd (omega arith)
phrase_code-picks (a ∷ b ∷ []) h =
    take_two a (take 2 b)
    ∙ ap (λ t. key_in a 0 ++ (key_in a 1 ++ t)) (sym (append-nil (take 2 b)) ∙ take_two b [])
phrase_code-picks (a ∷ b ∷ c ∷ []) h =
    rw (take_one a, take_one b)
      (ap (λ t. key_in a 0 ++ (key_in b 0 ++ t)) (sym (append-nil (take 2 c)) ∙ take_two c []))
phrase_code-picks (a ∷ b ∷ c ∷ d ∷ rest) h =
    rw (places_many (length rest), take_one a, take_one b, take_one c)
      (ap (λ t. key_in a 0 ++ (key_in b 0 ++ (key_in c 0 ++ t)))
        (sym (append-nil (take 1 (last_or d rest))) ∙ ap (λ t. t ++ []) (key_at-back a b c d rest)))

key_in-length : (a : Bytes) (j : ℕ) → j < length a → length (key_in a j) ≡ 1
key_in-length [] j h = absurd (omega arith)
key_in-length (x ∷ a) zero h = refl
key_in-length (x ∷ a) (suc j) h = key_in-length a j (omega arith)

phrase_code_bounds :
    (codes : List Bytes)
    → 2 ≤ length codes
    → All (λ c. 0 < length c) codes
    → (0 < length (phrase_code codes)) × (length (phrase_code codes) ≤ 4)
unfolding phrase_code
phrase_code_bounds [] h k = absurd (omega arith)
phrase_code_bounds (a ∷ []) h k = absurd (omega arith)
phrase_code_bounds (a ∷ b ∷ []) h k =
    omega (arith, length-append (take 2 a) (take 2 b), length-take 2 a, length-take 2 b)
phrase_code_bounds (a ∷ b ∷ c ∷ []) h k =
    omega (arith, length-append {0} {A = ℕ}, length-take 1 a, length-take 1 b, length-take 2 c)
phrase_code_bounds (a ∷ b ∷ c ∷ d ∷ rest) h k = omega (
  arith,
  length-append {0} {A = ℕ},
  length-take 1 a,
  length-take 1 b,
  length-take 1 c,
  length-take 1 (last_or d rest),
)

length-map-full_code : (m : CodeMap) (cs : List Bytes) → length (map (full_code m) cs) ≡ length cs
length-map-full_code m [] = refl
length-map-full_code m (c ∷ cs) = ap suc (length-map-full_code m cs)

AllKnown-map :
    (m : CodeMap) (cs : List Bytes) → AllKnown m cs → All (λ c. 0 < length c) (map (full_code m) cs)
AllKnown-map m [] h = tt
AllKnown-map m (c ∷ cs) (h, hs) = (h, AllKnown-map m cs hs)

encode_phrase-phrase_code :
    (m : CodeMap) (phrase : Bytes)
    → 2 ≤ length (split_utf8_chars phrase)
    → AllKnown m (split_utf8_chars phrase)
    → encode_phrase m phrase ≡ phrase_code (map (full_code m) (split_utf8_chars phrase))
unfolding encode_phrase
encode_phrase-phrase_code m phrase h k =
    ground (arith, codes_of-AllKnown m (split_utf8_chars phrase) k)

-- A phrase of two or more characters, each with a code, is encoded by the keys of the table.
pub encode_phrase-picks :
    (m : CodeMap) (phrase : Bytes)
    → 2 ≤ length (split_utf8_chars phrase)
    → AllKnown m (split_utf8_chars phrase)
    → let cs = split_utf8_chars phrase in
      encode_phrase m phrase ≡ picks (map (full_code m) cs) (places (length cs))
encode_phrase-picks m phrase h k =
    let cs = split_utf8_chars phrase in
    encode_phrase-phrase_code m phrase h k
    ∙ phrase_code-picks _ (rw length-map-full_code h)
    ∙ ap (λ n. picks (map (full_code m) cs) (places n)) (length-map-full_code m cs)

-- Every phrase is either encoded by one to four keys, and then has at least two characters, all of them with
-- a code; or it is refused with "", and then has fewer than two characters or one with no code.
pub encode_phrase_cases :
    (m : CodeMap) (phrase : Bytes)
    → let cs = split_utf8_chars phrase in
      let code = encode_phrase m phrase in
      ((2 ≤ length cs) × AllKnown m cs × (0 < length code) × (length code ≤ 4))
      ⊎ ((code ≡ [])
          × ((length cs < 2)
              ⊎ ((i : ℕ) × (c : Bytes) × (get_elem? cs i ≡ some c) × (full_code m c ≡ []))))
unfolding encode_phrase
encode_phrase_cases m phrase = elim (Bool-cases (ltb (length (split_utf8_chars phrase)) 2)) [
  | inl few ↦ inr (rw few, inl (ground arith))
  | inr many ↦ elim (codes_of_cases m (split_utf8_chars phrase)) [
    | inr (refused, lacking) ↦ inr (ground arith, inr lacking)
    | inl known ↦
        let cs = split_utf8_chars phrase in
        let bounds =
          phrase_code_bounds (map (full_code m) cs) (rw length-map-full_code (ltb→ge _ _ many))
            (AllKnown-map m cs known) in
        let e = encode_phrase-phrase_code m phrase (ltb→ge _ _ many) known in
        inl (ltb→ge _ _ many, known, rw e bounds.0, rw e bounds.1)
  ]
]
