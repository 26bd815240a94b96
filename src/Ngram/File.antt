-- ===== src/Ngram/File.antt =====
-- `Save` and `Load` of src/daemon/ngram.cc: the format of personal_ngram.bin.
use dafeng_wubi.Prelude.{
  ℕ, zero, suc, ◌+◌, ◌*◌, ◌/◌, ◌%◌, Bool, true, false, ◌||◌, [], ◌∷◌, ◌++◌, Option, none, some, ltb,
  ◌==◌, if◌then◌else◌, length, take, drop, Bytes, bytes_eq, codes,
}
use dafeng_wubi.Prelude.Maybe.{◌>>=◌}
use dafeng_wubi.Disk.{Disk, Faults, save_file}
use dafeng_wubi.Ngram.{Inner, Table, u32_mod, put, size}

abbrev pub magic : Bytes
magic = codes "DAFNGRAM"

abbrev pub version : ℕ
version = 1

abbrev pub u16_max : ℕ
u16_max = 0xFFFF

-- `Write32`, `Write16`: little-endian
unfoldable pub write32 : ℕ → Bytes
write32 v = (v % 256) ∷ (v / 0x100 % 256) ∷ (v / 0x10000 % 256) ∷ (v / 0x1000000 % 256) ∷ []

unfoldable pub write16 : ℕ → Bytes
write16 v = (v % 256) ∷ (v / 0x100 % 256) ∷ []

-- `is.read(buffer, n)`: the bytes and what is left of the stream
unfoldable pub read_bytes : ℕ → Bytes → Option (Bytes × Bytes)
read_bytes n s = if ltb (length s) n then none else some (take n s, drop n s)

-- `Read32`, `Read16`; the bytes are below 256, so that `|` of the shifted bytes is their sum
unfoldable pub read32 : Bytes → Option (ℕ × Bytes)
read32 (a ∷ b ∷ c ∷ d ∷ s) = some (a + b * 0x100 + c * 0x10000 + d * 0x1000000, s)
read32 _ = none

unfoldable pub read16 : Bytes → Option (ℕ × Bytes)
read16 (a ∷ b ∷ s) = some (a + b * 0x100, s)
read16 _ = none

-- one round of the inner loop of `Save`, behind its guard
unfoldable pub record_bytes : Bytes → Bytes → ℕ → Bytes
record_bytes a b n = write16 (length a) ++ (a ++ (write16 (length b) ++ (b ++ write32 n)))

abbrev pub is_skipped : Bytes → Bytes → Bool
is_skipped a b = ltb u16_max (length a) || ltb u16_max (length b)

unfoldable pub inner_bytes : Bytes → Inner → Bytes
inner_bytes a [] = []
inner_bytes a ((b, n) ∷ inner) =
    if is_skipped a b then inner_bytes a inner else record_bytes a b n ++ inner_bytes a inner

unfoldable pub table_bytes : Table → Bytes
unfolding inner_bytes
table_bytes [] = []
table_bytes ((a, inner) ∷ t) = inner_bytes a inner ++ table_bytes t

-- `pair_count` counts the pairs that the loop skips, too.
unfoldable pub file_content : Table → Bytes
unfolding table_bytes size
file_content t = magic ++ (write32 version ++ (write32 (size t % u32_mod) ++ table_bytes t))

unfoldable pub save : Faults → Bytes → Table → Disk → Bool × Disk
save f path t disk = save_file f path (file_content t) disk

-- one round of the loop of `Load`, without the assignment
unfoldable pub read_record : Bytes → Option ((Bytes × Bytes × ℕ) × Bytes)
read_record s = do
  (alen, s) ← read16 s
  (a, s) ← read_bytes alen s
  (blen, s) ← read16 s
  (b, s) ← read_bytes blen s
  (n, s) ← read32 s
  some ((a, b, n), s)

-- the loop of `Load`: what was read stays in the table when a later record fails
unfoldable pub load_pairs : ℕ → Bytes → Table → Table × Bool
load_pairs zero s t = (t, true)
load_pairs (suc k) s t = elim (read_record s) [
  | none ↦ (t, false)
  | some ((a, b, n), rest) ↦ load_pairs k rest (put a b n t)
]

-- the magic, the version and the number of pairs
unfoldable pub read_header : Bytes → Option (ℕ × Bytes)
read_header s = do
  (m, s) ← read_bytes (length magic) s
  (v, s) ← if bytes_eq m magic then read32 s else none
  if v == version then read32 s else none

-- `Load`: `none` is a file that cannot be opened. The table is cleared first.
unfoldable pub load : Option Bytes → Table × Bool
load none = ([], false)
load (some file) = elim (read_header file) [
  | none ↦ ([], false)
  | some (count, s) ↦ load_pairs count s []
]
