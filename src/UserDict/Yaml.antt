-- ===== src/UserDict/Yaml.antt =====
-- `EscapeYamlString` of src/daemon/user_dict.cc against a reader of YAML's double-quoted scalars.
use dafeng_wubi.Prelude.{
  ℕ, ◌+◌, ◌-◌, ◌*◌, ◌/◌, ◌%◌, ◌≤◌, ◌<◌, ◌&&◌, ◌||◌, [], ◌∷◌, ◌++◌, Option, none, some, ◌≡◌, refl,
  arith, leb, ◌==◌, if◌then◌else◌, is_empty, All, All-append, Bytes,
}
use mathlib.Core.List.{append_assoc}
use dafeng_wubi.UserDict.{hex_digit, escape_char, escape_bytes, escape_yaml_string}

-- where the reader stands: in the text, behind a backslash, behind \x, behind its first digit
pub data Mode : Type 0 where
  plain escaped hex : Mode
  hex_second : ℕ → Mode

unfoldable pub digit_of : ℕ → Option ℕ
digit_of c =
    if leb b'0' c && leb c b'9'
    then some (c - b'0')
    else if leb b'a' c && leb c b'f'
    then some (c - 87)
    else none

abbrev pub put : ℕ → Option Bytes → Option Bytes
put c none = none
put c (some s) = some (c ∷ s)

-- the escapes of one letter
abbrev pub letter_of : ℕ → Option ℕ
letter_of c =
    if c == 0x5C || c == 0x22
    then some c
    else if c == b'n'
    then some 0x0A
    else if c == b'r'
    then some 0x0D
    else if c == b't'
    then some 0x09
    else none

abbrev pub put_maybe : Option ℕ → Option Bytes → Option Bytes
put_maybe none s = none
put_maybe (some c) s = put c s

-- the code point of `\xNN`, in UTF-8
abbrev pub put_code_point : ℕ → Option Bytes → Option Bytes
put_code_point n s = if leb n 0x7F then put n s else put (0xC0 + n / 64) (put (0x80 + n % 64) s)

-- A double-quoted scalar of a text in UTF-8, whose bytes it passes on without a look at their coding, behind its opening quote; `none` where it is malformed or more stands behind it.
unfoldable pub read_scalar : Mode → Bytes → Option Bytes
unfolding digit_of
read_scalar mode [] = none
read_scalar plain (c ∷ s) =
    let after_escape = read_scalar escaped s in
    let after_plain = put c (read_scalar plain s) in
    if c == 0x22
    then (if is_empty s then some [] else none)
    else if c == 0x5C
    then after_escape
    else after_plain
read_scalar escaped (c ∷ s) =
    let after_hex = read_scalar hex s in
    let after_letter = put_maybe (letter_of c) (read_scalar plain s) in
    if c == b'x' then after_hex else after_letter
read_scalar hex (c ∷ s) = elim (digit_of c) [ none ↦ none | some d ↦ read_scalar (hex_second d) s ]
read_scalar (hex_second d) (c ∷ s) = elim (digit_of c) [
  | none ↦ none
  | some e ↦ put_code_point (d * 16 + e) (read_scalar plain s)
]

unfoldable pub unquote : Bytes → Option Bytes
unfolding read_scalar
unquote [] = none
unquote (c ∷ s) = let inner = read_scalar plain s in if c == 0x22 then inner else none

digit_of-hex_digit : (n : ℕ) → n < 16 → digit_of (hex_digit n) ≡ some n
unfolding digit_of hex_digit
digit_of-hex_digit n h = ground arith

read_scalar-escape_char :
    (c : ℕ) (rest : Bytes)
    → read_scalar plain (escape_char c ++ rest) ≡ put c (read_scalar plain rest)
unfolding read_scalar escape_char
read_scalar-escape_char c rest =
    ground (arith, digit_of-hex_digit (c / 16), digit_of-hex_digit (c % 16))

read_scalar-quote : read_scalar plain (0x22 ∷ []) ≡ some []
unfolding read_scalar
read_scalar-quote = refl

read_scalar-escape_bytes : (s : Bytes) → read_scalar plain (escape_bytes s ++ 0x22 ∷ []) ≡ some s
unfolding escape_bytes
read_scalar-escape_bytes [] = read_scalar-quote
read_scalar-escape_bytes (c ∷ s) =
    rw
      (
        append_assoc (escape_char c) (escape_bytes s),
        read_scalar-escape_char,
        read_scalar-escape_bytes s,
      )
      refl

escape_char-printable : (c : ℕ) → All (λ b. 0x20 ≤ b) (escape_char c)
unfolding escape_char hex_digit
escape_char-printable c = ground arith

escape_bytes-printable : (s : Bytes) → All (λ b. 0x20 ≤ b) (escape_bytes s)
unfolding escape_bytes
escape_bytes-printable [] = tt
escape_bytes-printable (c ∷ s) =
    All-append (λ b. 0x20 ≤ b) (escape_char c) (escape_bytes s) (escape_char-printable c)
      (escape_bytes-printable s)

-- For every text the quoted form reads back as this text, where an escape \xNN stands for the code point NN, and it holds no byte below
-- 0x20, so that it stays on its line.
pub unquote-escape_yaml_string :
    (s : Bytes)
    → (unquote (escape_yaml_string s) ≡ some s) × All (λ b. 0x20 ≤ b) (escape_yaml_string s)
unfolding unquote escape_yaml_string
unquote-escape_yaml_string s = (
  read_scalar-escape_bytes s,
  (
    omega arith,
    All-append (λ b. 0x20 ≤ b) (escape_bytes s) (0x22 ∷ []) (escape_bytes-printable s)
        (omega arith, tt),
  ),
)
