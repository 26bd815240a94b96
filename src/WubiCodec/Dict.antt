-- ===== src/WubiCodec/Dict.antt =====
-- `LoadFromDict` and `FullCode`: the map holds, for each character, the first of its longest codes.
use dafeng_wubi.Prelude.{
  ℕ, zero, suc, ◌≤◌, Bool, false, ◌||◌, List, [], ◌∷◌, ◌++◌, none, some, ◌≡◌, refl, ◌∙◌, sym, ap,
  ◌⊎◌, inl, inr, arith, ltb, if◌then◌else◌, length, get_elem?, is_empty, Bytes, bytes_eq,
  bytes_eq_iff, All, Option-cases, Bool-cases,
}
use dafeng_wubi.Prelude.UnorderedMap.{find, assign, or_default, find-assign}
use dafeng_wubi.WubiCodec.{
  CodeMap, split_utf8_chars, lines, cut_tab, is_skipped, code_column, index_entry, index_line,
  index_lines, load_from_dict, full_code,
}

-- the code that a line with these columns gives for a character
unfoldable pub entry_codes : Bytes → Bytes → Bytes → List Bytes
entry_codes ch text code =
    if is_empty text || is_empty code then [] else elim (split_utf8_chars text) [
      | [] ↦ []
      | c ∷ [] ↦ if bytes_eq c ch then code ∷ [] else []
      | c ∷ d ∷ cs ↦ []
    ]

unfoldable pub line_codes : Bytes → Bytes → List Bytes
line_codes ch line = if is_skipped line then [] else elim (cut_tab line) [
  | none ↦ []
  | some (text, behind) ↦ entry_codes ch text (code_column behind)
]

-- All codes that a file lists for a character, in order: those of the lines that are no comment, have a
-- tab and a code, and whose text is that one character.
unfoldable pub codes_for : Bytes → List Bytes → List Bytes
codes_for ch [] = []
codes_for ch (line ∷ rest) = line_codes ch line ++ codes_for ch rest

abbrev longer : Bytes → Bytes → Bytes
longer cur code = if ltb (length cur) (length code) then code else cur

abbrev longest : Bytes → List Bytes → Bytes
longest cur [] = cur
longest cur (code ∷ codes) = longest (longer cur code) codes

longest-append :
    (cur : Bytes) (xs ys : List Bytes) → longest cur (xs ++ ys) ≡ longest (longest cur xs) ys
longest-append cur [] ys = refl
longest-append cur (x ∷ xs) ys = longest-append (longer cur x) xs ys

index_entry-entry_codes :
    (m : CodeMap) (ch text code : Bytes)
    → full_code (index_entry m text code) ch ≡ longest (full_code m ch) (entry_codes ch text code)
unfolding index_entry entry_codes full_code
index_entry-entry_codes m ch text code = elim (Bool-cases (is_empty text || is_empty code)) [
  | inl e ↦ rw e
  | inr e ↦ rw e (one (split_utf8_chars text))
]
  where
    one :
        (cs : List Bytes)
        → or_default [] (
            find ch (elim cs [
              | [] ↦ m
              | c ∷ [] ↦ assign c (longer (or_default [] (find c m)) code) m
              | c ∷ d ∷ r ↦ m
            ]))
          ≡ longest (or_default [] (find ch m)) (elim cs [
            | [] ↦ []
            | c ∷ [] ↦ if bytes_eq c ch then code ∷ [] else []
            | c ∷ d ∷ r ↦ []
          ])
    one [] = refl
    one (c ∷ []) =
        ground
          (arith, bytes_eq_iff c ch, find-assign c ch (longer (or_default [] (find c m)) code) m)
    one (c ∷ d ∷ r) = refl

index_line-line_codes :
    (s : Bool × CodeMap) (ch line : Bytes)
    → full_code (index_line s line).1 ch ≡ longest (full_code s.1 ch) (line_codes ch line)
unfolding line_codes index_line full_code
index_line-line_codes (p, m) ch line = elim (Bool-cases (is_skipped line)) [
  | inl e ↦ rw (e, index_line)
  | inr e ↦ elim (Option-cases (cut_tab line)) [
    | inl none_left ↦ rw (e, none_left, index_line)
    | inr ((text, behind), cut) ↦
        rw (e, cut, index_line) (index_entry-entry_codes m ch text (code_column behind))
  ]
]

index_lines-codes_for :
    (s : Bool × CodeMap) (ch : Bytes) (ls : List Bytes)
    → full_code (index_lines s ls).1 ch ≡ longest (full_code s.1 ch) (codes_for ch ls)
unfolding index_lines codes_for
index_lines-codes_for s ch [] = refl
index_lines-codes_for s ch (line ∷ rest) =
    index_lines-codes_for (index_line s line) ch rest
    ∙ rw (index_line-line_codes s ch line) (sym (longest-append _ (line_codes ch line) _))

longest-le : (cur : Bytes) (xs : List Bytes) → length cur ≤ length (longest cur xs)
longest-le cur [] = omega arith
longest-le cur (x ∷ xs) = ground (arith, longest-le (longer cur x) xs)

longest-All : (cur : Bytes) (xs : List Bytes) → All (λ x. length x ≤ length (longest cur xs)) xs
longest-All cur [] = tt
longest-All cur (x ∷ xs) =
    (ground (arith, longest-le (longer cur x) xs), longest-All (longer cur x) xs)

longest-listed :
    (cur : Bytes) (xs : List Bytes)
    → (longest cur xs ≡ cur) ⊎ ((i : ℕ) × (get_elem? xs i ≡ some (longest cur xs)))
longest-listed cur [] = inl refl
longest-listed cur (x ∷ xs) = elim (longest-listed (longer cur x) xs) [
  | inr (i, e) ↦ inr (suc i, e)
  | inl e ↦ elim (Bool-cases (ltb (length cur) (length x))) [
    | inl l ↦ inr (zero, ground arith)
    | inr g ↦ inl (ground arith)
  ]
]

length_zero : (x : Bytes) → length x ≤ 0 → x ≡ []
length_zero [] h = refl
length_zero (c ∷ x) h = absurd (omega arith)

longest-listed_or_empty :
    (xs : List Bytes)
    → ((xs ≡ []) × (longest [] xs ≡ [])) ⊎ ((i : ℕ) × (get_elem? xs i ≡ some (longest [] xs)))
longest-listed_or_empty [] = inl (refl, refl)
longest-listed_or_empty (x ∷ xs) = elim (longest-listed [] (x ∷ xs)) [
  | inr found ↦ inr found
  | inl e ↦
      let short = (longest-All [] (x ∷ xs)).0 in
      inr (zero, ap some (length_zero x (omega (arith, ap length e)) ∙ sym e))
]

-- After a load, `FullCode` of a character is at least as long as each code that the file lists for it, and
-- is one of these codes, or empty where the file lists none.
pub full_code-load_from_dict :
    (file ch : Bytes)
    → let code = full_code (load_from_dict (some file)).0 ch in
      All (λ c. length c ≤ length code) (codes_for ch (lines file))
      × (((codes_for ch (lines file) ≡ []) × (code ≡ []))
          ⊎ ((i : ℕ) × (get_elem? (codes_for ch (lines file)) i ≡ some code)))
unfolding load_from_dict full_code find
full_code-load_from_dict file ch = rw (index_lines-codes_for (false, []) ch (lines file)) (
  longest-All [] (codes_for ch (lines file)),
  longest-listed_or_empty (codes_for ch (lines file)),
)
