-- ===== src/UserDict.antt =====
-- src/daemon/user_dict.cc: the learned words as YAML and as a RIME dictionary. The time stamp that the clock
-- gives is an argument.
pub mod Yaml
pub mod Rime
use dafeng_wubi.Prelude.{
  ℕ, zero, suc, ◌+◌, ◌/◌, ◌%◌, Bool, ◌||◌, List, [], ◌∷◌, ◌++◌, ltb, ◌==◌, if◌then◌else◌, length,
  is_empty, Bytes, codes,
}
use dafeng_wubi.Disk.{Disk, Faults, save_file}
use dafeng_wubi.NewWord.{DiscoveredWord}

-- a digit of `std::hex`
unfoldable pub hex_digit : ℕ → ℕ
hex_digit n = if ltb n 10 then b'0' + n else 87 + n

-- one round of the loop of `EscapeYamlString`
unfoldable pub escape_char : ℕ → Bytes
unfolding hex_digit
escape_char c =
    if c == 0x5C || c == 0x22
    then 0x5C ∷ c ∷ []
    else if c == 0x0A
    then 0x5C ∷ b'n' ∷ []
    else if c == 0x0D
    then 0x5C ∷ b'r' ∷ []
    else if c == 0x09
    then 0x5C ∷ b't' ∷ []
    else if ltb c 0x20
    then 0x5C ∷ b'x' ∷ hex_digit (c / 16) ∷ hex_digit (c % 16) ∷ []
    else c ∷ []

unfoldable pub escape_bytes : Bytes → Bytes
unfolding escape_char
escape_bytes [] = []
escape_bytes (c ∷ s) = escape_char c ++ escape_bytes s

-- `EscapeYamlString`
unfoldable pub escape_yaml_string : Bytes → Bytes
unfolding escape_bytes
escape_yaml_string s = 0x22 ∷ (escape_bytes s ++ 0x22 ∷ [])

-- `<<` of a number, at most 20 digits in 64 bits
unfoldable pub decimal_fuel : ℕ → ℕ → Bytes
decimal_fuel zero n = []
decimal_fuel (suc fuel) n =
    let front = decimal_fuel fuel (n / 10) in
    if ltb n 10 then (b'0' + n) ∷ [] else front ++ (b'0' + n % 10) ∷ []

unfoldable pub decimal : ℕ → Bytes
unfolding decimal_fuel
decimal n = decimal_fuel 20 n

-- a line of a file
abbrev pub line : Bytes → Bytes
line s = s ++ b'\n' ∷ []

unfoldable pub yaml_word : DiscoveredWord → Bytes
unfolding escape_yaml_string decimal
yaml_word w =
    line (codes "  - text: " ++ escape_yaml_string w.text)
    ++ (if is_empty w.code then [] else line (codes "    code: " ++ escape_yaml_string w.code))
    ++ line (codes "    frequency: " ++ decimal w.frequency)
    ++ line (codes "    first_seen_us: " ++ decimal w.first_seen_us)
    ++ line (codes "    last_seen_us: " ++ decimal w.last_seen_us)

unfoldable pub yaml_words : List DiscoveredWord → Bytes
unfolding yaml_word
yaml_words [] = []
yaml_words (w ∷ words) = yaml_word w ++ yaml_words words

-- what `Generate` writes
unfoldable pub yaml_content : Bytes → List DiscoveredWord → Bytes
unfolding yaml_words
yaml_content now words =
    line (codes "# Dafeng learned words.")
    ++ line (codes "# Generated at: " ++ now)
    ++ line (codes "# Total entries: " ++ decimal (length words))
    ++ line (codes "# DO NOT EDIT BY HAND. Regenerated each learning round.")
    ++ line (codes "---")
    ++ line (codes "schema:")
    ++ line (codes "  schema_id: dafeng_learned")
    ++ line (codes "  version: \"1\"")
    ++ line []
    ++ line (codes "words:")
    ++ yaml_words words

-- `Generate`
unfoldable pub generate : Faults → Bytes → List DiscoveredWord → Bytes → Disk → Bool × Disk
unfolding yaml_content save_file
generate f now words out_path disk = save_file f out_path (yaml_content now words) disk

-- a row of the dictionary, without its newline
unfoldable pub rime_row : DiscoveredWord → Bytes
unfolding decimal
rime_row w = w.text ++ b'\t' ∷ (w.code ++ b'\t' ∷ decimal w.frequency)

unfoldable pub rime_rows : List DiscoveredWord → Bytes
unfolding rime_row
rime_rows [] = []
rime_rows (w ∷ words) =
    let rest = rime_rows words in if is_empty w.code then rest else line (rime_row w) ++ rest

-- what `WriteRimeDictYaml` writes; `version` is the second time stamp. The dash of the first line is U+2014.
unfoldable pub rime_content : (now version dict_name : Bytes) → List DiscoveredWord → Bytes
unfolding rime_rows
rime_content now version dict_name words =
    line (codes "# Rime dictionary " ++ 0xE2 ∷ 0x80 ∷ 0x94 ∷ codes " generated by dafeng-daemon")
    ++ line (codes "# Generated at: " ++ now)
    ++ line (codes "---")
    ++ line (codes "name: " ++ dict_name)
    ++ line (codes "version: \"" ++ version ++ codes "\"")
    ++ line (codes "sort: by_weight")
    ++ line (codes "use_preset_vocabulary: false")
    ++ line (codes "columns:")
    ++ line (codes "  - text")
    ++ line (codes "  - code")
    ++ line (codes "  - weight")
    ++ line (codes "...")
    ++ rime_rows words

-- `WriteRimeDictYaml`
unfoldable pub write_rime_dict_yaml :
    Faults
    → (now version : Bytes) → List DiscoveredWord
    → (out_path dict_name : Bytes) → Disk
    → Bool × Disk
unfolding rime_content save_file
write_rime_dict_yaml f now version words out_path dict_name disk =
    save_file f out_path (rime_content now version dict_name words) disk
