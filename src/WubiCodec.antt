-- ===== src/WubiCodec.antt =====
-- src/daemon/wubi_codec.{h,cc}: the dictionary of full codes and the phrase encoder. A file is its bytes;
-- `none` is a file that cannot be opened. Log lines and the counter that only they show are left out.
pub mod Dict
pub mod Phrase
use dafeng_wubi.Prelude.{
  ℕ, ◌+◌, ◌<◌, Bool, true, false, not, ◌&&◌, ◌||◌, List, [], ◌∷◌, ◌++◌, Option, none, some, ltb,
  ◌==◌, if◌then◌else◌, length, take, get_or, is_empty, Bytes,
}
use dafeng_wubi.Prelude.UnorderedMap.{find, assign, or_default}
use dafeng_wubi.Utf8.{utf8_lead_len}
use dafeng_wubi.Utf8.Chars.{chars}

-- `char_to_full_code_`
abbrev pub CodeMap : Type 0
CodeMap = List (Bytes × Bytes)

-- `SplitUtf8Chars`
abbrev pub split_utf8_chars : Bytes → List Bytes
split_utf8_chars = chars utf8_lead_len

-- `std::getline` until it fails: the last line may lack its newline.
lines_onto : Bytes → Bytes → List Bytes
lines_onto [] [] = []
lines_onto (c ∷ line) [] = (c ∷ line) ∷ []
lines_onto line (c ∷ cs) =
    let ended = line ∷ lines_onto [] cs in
    let longer = lines_onto (line ++ c ∷ []) cs in if c == b'\n' then ended else longer

unfoldable pub lines : Bytes → List Bytes
unfolding lines_onto
lines = lines_onto []

-- `line.find('\t')`, with what stands before the tab and behind it
unfoldable pub cut_tab : Bytes → Option (Bytes × Bytes)
cut_tab [] = none
cut_tab (c ∷ cs) =
    if c == b'\t'
    then some ([], cs)
    else elim (cut_tab cs) [ none ↦ none | some (before, behind) ↦ some (c ∷ before, behind) ]

-- `line.empty() || line[0] == '#'`
unfoldable pub is_skipped : Bytes → Bool
is_skipped [] = true
is_skipped (c ∷ cs) = c == b'#'

-- the code: up to a second tab, or all that is left
unfoldable pub code_column : Bytes → Bytes
code_column behind = elim (cut_tab behind) [ none ↦ behind | some (code, _) ↦ code ]

-- the end of the loop's body, for a line with a text and a code
unfoldable pub index_entry : CodeMap → Bytes → Bytes → CodeMap
index_entry m text code =
    if is_empty text || is_empty code then m else elim (split_utf8_chars text) [
      | [] ↦ m
      | c ∷ [] ↦
          let cur = or_default [] (find c m) in
          assign c (if ltb (length cur) (length code) then code else cur) m
      | c ∷ d ∷ cs ↦ m
    ]

-- The loop of `LoadFromDict`; the flag is `past_header`.
unfoldable pub index_line : Bool × CodeMap → Bytes → Bool × CodeMap
unfolding is_skipped code_column index_entry
index_line (past_header, m) line =
    if is_skipped line then (past_header, m) else elim (cut_tab line) [
      | none ↦ (past_header, m)
      | some (text, behind) ↦ (true, index_entry m text (code_column behind))
    ]

unfoldable pub index_lines : Bool × CodeMap → List Bytes → Bool × CodeMap
unfolding index_line
index_lines s [] = s
index_lines s (line ∷ rest) = index_lines (index_line s line) rest

-- `LoadFromDict`: the map afterwards, and what it returns
unfoldable pub load_from_dict : Option Bytes → CodeMap × Bool
unfolding index_lines lines
load_from_dict none = ([], false)
load_from_dict (some file) = ((index_lines (false, []) (lines file)).1, true)

-- `FullCode`
unfoldable pub full_code : CodeMap → Bytes → Bytes
full_code m ch = or_default [] (find ch m)

-- the loop of `EncodePhrase`: every character's code, or nothing at the first that has none
unfoldable pub codes_of : CodeMap → List Bytes → Option (List Bytes)
codes_of m [] = some []
codes_of m (c ∷ cs) = elim (find c m) [
  | none ↦ none
  | some code ↦
      if is_empty code
      then none
      else elim (codes_of m cs) [ none ↦ none | some codes ↦ some (code ∷ codes) ]
]

-- `codes.back()`
unfoldable pub last_or : Bytes → List Bytes → Bytes
last_or d [] = d
last_or d (c ∷ cs) = last_or c cs

-- the rules for 2, 3, and 4 or more characters
unfoldable pub phrase_code : List Bytes → Bytes
unfolding last_or
phrase_code (a ∷ b ∷ []) = take 2 a ++ take 2 b
phrase_code (a ∷ b ∷ c ∷ []) = take 1 a ++ (take 1 b ++ take 2 c)
phrase_code (a ∷ b ∷ c ∷ d ∷ rest) = take 1 a ++ (take 1 b ++ (take 1 c ++ take 1 (last_or d rest)))
phrase_code _ = []

-- `EncodePhrase`
unfoldable pub encode_phrase : CodeMap → Bytes → Bytes
unfolding codes_of phrase_code
encode_phrase m phrase =
    let cs = split_utf8_chars phrase in
    if ltb (length cs) 2
    then []
    else elim (codes_of m cs) [ none ↦ [] | some codes ↦ phrase_code codes ]
