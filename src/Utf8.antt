-- ===== src/Utf8.antt =====
-- The UTF-8 scanners of src/daemon/ngram.cc, src/daemon/new_word.cc and src/daemon/wubi_codec.cc. A scanner
-- takes a string and a position that only moves forward; here it takes the string from that position on.
pub mod Chars
pub mod Literal
use Prim.Native.Nat.{bit_and}
use dafeng_wubi.Prelude.{
  ℕ, suc, ◌-◌, ◌≤◌, ◌<◌, Bool, true, ◌&&◌, [], ◌∷◌, arith, ltb, ◌==◌, if◌then◌else◌, length, take,
  Bytes, length-take, ◌≡◌, refl,
}

-- the `need` that the first byte of a character asks for; 0 where the code returns 0
unfoldable pub utf8_need : ℕ → ℕ
utf8_need c =
    if bit_and c 0x80 == 0
    then 1
    else if bit_and c 0xE0 == 0xC0
    then 2
    else if bit_and c 0xF0 == 0xE0
    then 3
    else if bit_and c 0xF8 == 0xF0
    then 4
    else 0

-- the loop over the bytes behind the first
unfoldable pub all_continuation : Bytes → Bool
all_continuation [] = true
all_continuation (c ∷ cs) = bit_and c 0xC0 == 0x80 && all_continuation cs

-- `Utf8Len` of ngram.cc and new_word.cc
unfoldable pub utf8_len : Bytes → ℕ
unfolding utf8_need all_continuation
utf8_len [] = 0
utf8_len (c ∷ cs) =
    let need = utf8_need c in
    if need == 0
    then 0
    else if ltb (length (c ∷ cs)) need
    then 0
    else if all_continuation (take (need - 1) cs)
    then need
    else 0

-- `Utf8Len` of wubi_codec.cc, which does not look at the bytes behind the first
unfoldable pub utf8_lead_len : Bytes → ℕ
unfolding utf8_need
utf8_lead_len [] = 0
utf8_lead_len (c ∷ cs) =
    let need = utf8_need c in
    if need == 0 then 0 else if ltb (length (c ∷ cs)) need then 0 else need

-- A character is at most four bytes, and does not reach past the end of the string.
pub utf8_len_bounds : (s : Bytes) → (utf8_len s ≤ 4) × (utf8_len s ≤ length s)
unfolding utf8_len
utf8_len_bounds [] = omega arith
utf8_len_bounds (c ∷ cs) = ground arith

pub utf8_lead_len_bounds : (s : Bytes) → (utf8_lead_len s ≤ 4) × (utf8_lead_len s ≤ length s)
unfolding utf8_lead_len
utf8_lead_len_bounds [] = omega arith
utf8_lead_len_bounds (c ∷ cs) = ground arith
