-- ===== src/Utf8/Literal.antt =====
-- The UTF-8 bytes of a literal of the source.
use Prim.Native.Char.{code}
use Prim.Native.String.{String}
use dafeng_wubi.Prelude.{ℕ, ◌+◌, ◌/◌, ◌%◌, ◌++◌, [], ◌∷◌, ltb, if◌then◌else◌, Bytes}

abbrev pub utf8_char : ℕ → Bytes
utf8_char c =
    if ltb c 0x80
    then c ∷ []
    else if ltb c 0x800
    then (0xC0 + c / 64) ∷ (0x80 + c % 64) ∷ []
    else if ltb c 0x10000
    then (0xE0 + c / 4096) ∷ (0x80 + c / 64 % 64) ∷ (0x80 + c % 64) ∷ []
    else (0xF0 + c / 262144) ∷ (0x80 + c / 4096 % 64) ∷ (0x80 + c / 64 % 64) ∷ (0x80 + c % 64) ∷ []

abbrev pub utf8 : String → Bytes
utf8 String.[] = []
utf8 (String.◌∷◌ c s) = utf8_char (code c) ++ utf8 s
