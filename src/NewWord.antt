-- ===== src/NewWord.antt =====
-- src/daemon/new_word.cc: words that the user has typed character by character. `RecentEntries` is the
-- store's; its result is the argument.
pub mod Counts
use dafeng_wubi.Prelude.{
  ℕ, zero, suc, ◌+◌, ◌-◌, ◌%◌, ◌^◌, min, max, Bool, true, false, not, ◌&&◌, ◌||◌, List, [], ◌∷◌,
  ◌++◌, Option, none, some, ltb, leb, ◌==◌, if◌then◌else◌, length, take, drop, is_empty, Bytes,
  bytes_eq,
}
use dafeng_wubi.Prelude.Sort.{sort}
use dafeng_wubi.Prelude.UnorderedMap.{find, assign, or_default}
use dafeng_wubi.Utf8.{utf8_len}
use dafeng_wubi.History.{HistoryEntry, earlier, gap_exceeds}

pub record DiscoveredWord : Type 0 where
  pub text : Bytes
  pub code : Bytes
  pub frequency : ℕ
  pub first_seen_us : ℕ
  pub last_seen_us : ℕ

-- `scan_max_entries` is used by the store only.
pub record DiscoveryConfig : Type 0 where
  pub min_frequency : ℕ
  pub include_bigrams : Bool
  pub include_trigrams : Bool
  pub chain_max_gap_us : ℕ

-- `CharOffsets`, from offset `i` with the text `rest` behind it; each round takes a byte or more
unfoldable pub offsets_fuel : ℕ → ℕ → Bytes → List ℕ
offsets_fuel zero i rest = []
offsets_fuel (suc fuel) i [] = []
offsets_fuel (suc fuel) i (c ∷ rest) =
    let n = utf8_len (c ∷ rest) in
    let later = offsets_fuel fuel (i + n) (drop n (c ∷ rest)) in if n == 0 then [] else i ∷ later

unfoldable pub char_offsets : Bytes → List ℕ
unfolding offsets_fuel
char_offsets s = offsets_fuel (length s) 0 s

-- `s.substr(offs[i], end - offs[i])` for every `i`, where `end` is the next offset or the size
unfoldable pub pieces : Bytes → List ℕ → List Bytes
pieces s [] = []
pieces s (i ∷ []) = drop i s ∷ []
pieces s (i ∷ j ∷ offs) = take (j - i) (drop i s) ∷ pieces s (j ∷ offs)

-- `c == ' ' || c == '\t' || c == '\n' || c == '\r'`
abbrev pub is_space : ℕ → Bool
is_space c = c == 0x20 || (c == 0x09 || (c == 0x0A || c == 0x0D))

unfoldable pub has_space : Bytes → Bool
has_space [] = false
has_space (c ∷ text) = is_space c || has_space text

unfoldable pub all_ascii : Bytes → Bool
all_ascii [] = true
all_ascii (c ∷ text) = not (leb 0x80 c) && all_ascii text

unfoldable pub all_equal : Bytes → List Bytes → Bool
all_equal first [] = true
all_equal first (p ∷ ps) = bytes_eq p first && all_equal first ps

-- The test on the repeats of a character. `first` is the text up to `offs[1]`, which is the first piece.
unfoldable pub is_repeat : List Bytes → Bool
unfolding all_equal
is_repeat [] = false
is_repeat (first ∷ ps) = leb 2 (length ps) && all_equal first ps

-- `LooksLikeRealCandidate`
unfoldable pub looks_like_real_candidate : Bytes → Bool
unfolding has_space all_ascii is_repeat pieces char_offsets
looks_like_real_candidate text =
    if is_empty text
    then false
    else if has_space text
    then false
    else if all_ascii text
    then false
    else not (is_repeat (pieces text (char_offsets text)))

pub record Counter : Type 0 where
  pub count : ℕ
  pub first_us : ℕ
  pub last_us : ℕ
  pub code : Bytes

abbrev pub fresh : Counter
fresh = record { count = 0; first_us = 2 ^ 64 - 1; last_us = 0; code = [] }

abbrev pub Counts : Type 0
Counts = List (Bytes × Counter)

pub record Token : Type 0 where
  pub ch : Bytes
  pub code : Bytes
  pub ts : ℕ

-- what `emit` gathers of its tokens
unfoldable pub text_of : List Token → Bytes
text_of [] = []
text_of (t ∷ toks) = t.ch ++ text_of toks

unfoldable pub code_of : List Token → Bytes
code_of [] = []
code_of (t ∷ toks) = t.code ++ code_of toks

unfoldable pub code_ok : List Token → Bool
code_ok [] = true
code_ok (t ∷ toks) = not (is_empty t.code) && code_ok toks

-- the counter of a text, after `emit` for tokens that begin at `ts0`
unfoldable pub bump : ℕ → Bool → Bytes → Counter → Counter
bump ts0 ok code c = record {
  count = (c.count + 1) % 2 ^ 32;
  first_us = min c.first_us ts0;
  last_us = max c.last_us ts0;
  code = if ok && ltb (length c.code) (length code) then code else c.code;
}

-- `emit`, of the tokens from `i` to `i + span`
unfoldable pub emit : List Token → Counts → Counts
unfolding text_of code_of code_ok bump assign find
emit [] counts = counts
emit (t ∷ toks) counts =
    let text = text_of (t ∷ toks) in
    assign text
      (bump t.ts (code_ok (t ∷ toks)) (code_of (t ∷ toks)) (or_default fresh (find text counts)))
      counts

-- the loop over `i` with `i + span <= toks.size()`
unfoldable pub emit_spans : ℕ → List Token → Counts → Counts
unfolding emit
emit_spans span [] counts = counts
emit_spans span (t ∷ toks) counts =
    let rest = emit_spans span toks (emit (take span (t ∷ toks)) counts) in
    if leb span (length (t ∷ toks)) then rest else counts

-- `emit_token_ngrams`
unfoldable pub emit_token_ngrams : DiscoveryConfig → List Token → Counts → Counts
unfolding emit_spans
emit_token_ngrams cfg toks counts =
    let counts1 = if cfg.include_bigrams then emit_spans 2 toks counts else counts in
    if cfg.include_trigrams then emit_spans 3 toks counts1 else counts1

-- the loop of `entry_to_tokens`
unfoldable pub tokens_of : Bytes → ℕ → List Bytes → List Token
tokens_of code ts [] = []
tokens_of code ts (ch ∷ chs) = record { ch = ch; code = code; ts = ts } ∷ tokens_of code ts chs

unfoldable pub entry_to_tokens : HistoryEntry → List Token
unfolding tokens_of pieces char_offsets
entry_to_tokens e =
    let offs = char_offsets e.committed_text in
    tokens_of (if length offs == 1 then e.code else []) e.ts_us (pieces e.committed_text offs)

-- the loop without chaining
unfoldable pub count_entries : DiscoveryConfig → List HistoryEntry → Counts → Counts
unfolding emit_token_ngrams entry_to_tokens
count_entries cfg [] counts = counts
count_entries cfg (e ∷ es) counts =
    count_entries cfg es (emit_token_ngrams cfg (entry_to_tokens e) counts)

-- the loop with chaining, with `run` and `prev_ts`
unfoldable pub count_runs : DiscoveryConfig → List Token → ℕ → List HistoryEntry → Counts → Counts
unfolding emit_token_ngrams entry_to_tokens
count_runs cfg run prev_ts [] counts =
    if not (is_empty run) then emit_token_ngrams cfg run counts else counts
count_runs cfg run prev_ts (e ∷ es) counts =
    let ends = not (is_empty run) && gap_exceeds cfg.chain_max_gap_us prev_ts e.ts_us in
    let counts1 = if ends then emit_token_ngrams cfg run counts else counts in
    let run1 = if ends then [] else run in
    count_runs cfg (run1 ++ entry_to_tokens e) e.ts_us es counts1

-- `counts` before the output
unfoldable pub count_all : DiscoveryConfig → List HistoryEntry → Counts
unfolding count_entries count_runs sort
count_all cfg entries =
    if cfg.chain_max_gap_us == 0
    then count_entries cfg entries []
    else count_runs cfg [] 0 (sort earlier entries) []

-- the loop that fills `out`
unfoldable pub words : DiscoveryConfig → Counts → List DiscoveredWord
unfolding looks_like_real_candidate
words cfg [] = []
words cfg ((text, c) ∷ counts) =
    let rest = words cfg counts in
    if ltb c.count cfg.min_frequency
    then rest
    else if not (looks_like_real_candidate text)
    then rest
    else record {
      text = text;
      code = c.code;
      frequency = c.count;
      first_seen_us = c.first_us;
      last_seen_us = c.last_us;
    }
      ∷ rest

-- `a < b` on `std::string`
unfoldable pub bytes_less : Bytes → Bytes → Bool
bytes_less [] [] = false
bytes_less [] (y ∷ ys) = true
bytes_less (x ∷ xs) [] = false
bytes_less (x ∷ xs) (y ∷ ys) = ltb x y || (x == y && bytes_less xs ys)

-- the comparison of the last sort
unfoldable pub before : DiscoveredWord → DiscoveredWord → Bool
unfolding bytes_less
before a b =
    if not (a.frequency == b.frequency)
    then ltb b.frequency a.frequency
    else bytes_less a.text b.text

-- `Discover`
unfoldable pub discover : DiscoveryConfig → List HistoryEntry → List DiscoveredWord
unfolding words count_all before sort
discover cfg entries = sort before (words cfg (count_all cfg entries))
