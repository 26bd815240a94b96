-- ===== src/Protocol/Frame.antt =====
-- The framing of src/common/protocol.cc: four big-endian bytes of length before the body.
-- A pointer with its size is an optional byte string; `none` is `nullptr`.
use dafeng_wubi.Prelude.{
  ℕ, ◌+◌, ◌*◌, ◌/◌, ◌%◌, ◌≤◌, ◌<◌, ◌||◌, [], ◌∷◌, ◌++◌, Option, none, some, ◌≡◌, refl, arith, ltb,
  ◌==◌, if◌then◌else◌, length, take, drop, All, Bytes,
}

abbrev pub frame_header_bytes : ℕ
frame_header_bytes = 4

-- 1 MiB
abbrev pub max_frame_body_bytes : ℕ
max_frame_body_bytes = 0x100000

-- `length >> k & 0xFF` for k = 24, 16, 8, 0
unfoldable pub write_frame_length : ℕ → Bytes
write_frame_length n =
    (n / 0x1000000 % 256) ∷ (n / 0x10000 % 256) ∷ (n / 0x100 % 256) ∷ (n % 256) ∷ []

-- The four bytes are below 256, so that `|` of the shifted bytes is their sum.
unfoldable pub read_frame_length : Option Bytes → Option ℕ
read_frame_length none = none
read_frame_length (some (a ∷ b ∷ c ∷ d ∷ _)) =
    let n = a * 0x1000000 + b * 0x10000 + c * 0x100 + d in
    if n == 0 || ltb max_frame_body_bytes n then none else some n
read_frame_length (some _) = none

-- `static_cast<uint32_t>(body.size())`
unfoldable pub encode_frame : Bytes → Bytes
encode_frame body = write_frame_length (length body % 0x100000000) ++ body

-- A frame that was written is read back, whatever stands behind it: for every body of 1 byte to 1 MiB
-- the header gives the body's length, and the bytes behind the header begin with the body.
pub read_frame_length-encode_frame :
    (body rest : Bytes)
    → 0 < length body
    → length body ≤ max_frame_body_bytes
    → (read_frame_length (some (encode_frame body ++ rest)) ≡ some (length body))
      × (drop frame_header_bytes (encode_frame body ++ rest) ≡ body ++ rest)
unfolding read_frame_length encode_frame write_frame_length
read_frame_length-encode_frame body rest lo hi = (ground arith, refl)

-- A length that is accepted lies between 1 and 1 MiB, and the four header bytes are the only bytes that
-- `write_frame_length` gives for it.
pub read_frame_length-write_frame_length :
    (header : Bytes) {n : ℕ}
    → All (λ b. b < 256) header
    → read_frame_length (some header) ≡ some n
    → (0 < n) × (n ≤ max_frame_body_bytes) × (write_frame_length n ≡ take frame_header_bytes header)
unfolding read_frame_length write_frame_length
read_frame_length-write_frame_length [] h e = cc
read_frame_length-write_frame_length (a ∷ []) h e = cc
read_frame_length-write_frame_length (a ∷ b ∷ []) h e = cc
read_frame_length-write_frame_length (a ∷ b ∷ c ∷ []) h e = cc
read_frame_length-write_frame_length (a ∷ b ∷ c ∷ d ∷ r) (ha, (hb, (hc, (hd, _)))) e = ground arith
