-- ===== src/Ngram/Reading.antt =====
-- The readers of `Load` on what the writers of `Save` wrote.
use dafeng_wubi.Prelude.{
  ℕ, zero, suc, ◌≤◌, ◌<◌, [], ◌++◌, some, ◌≡◌, refl, ◌==◌, arith, length, Bytes, take-append_length,
  drop-append_length, length-append, ge→ltb,
}
use mathlib.Core.List.{append_assoc}
use native.Mathlib.Nat.{mod-eq_of_lt}
use dafeng_wubi.Ngram.{Table, u32_mod, put, size}
use dafeng_wubi.Ngram.File.{
  write32, write16, read32, read16, read_bytes, record_bytes, read_record, table_bytes, u16_max,
  file_content, load_pairs, read_header, load, magic, version,
}

pub read32-write32 :
    (n : ℕ) (rest : Bytes) → n < u32_mod → read32 (write32 n ++ rest) ≡ some (n, rest)
unfolding read32 write32
read32-write32 n rest h = ground arith

pub read16-write16 :
    (n : ℕ) (rest : Bytes) → n ≤ u16_max → read16 (write16 n ++ rest) ≡ some (n, rest)
unfolding read16 write16
read16-write16 n rest h = ground arith

pub read_bytes-append : (a rest : Bytes) → read_bytes (length a) (a ++ rest) ≡ some (a, rest)
unfolding read_bytes
read_bytes-append a rest = rw (
  ge→ltb (length (a ++ rest)) (length a) (omega (arith, length-append a rest)),
  take-append_length a rest,
  drop-append_length a rest,
)

-- A record is read back, whatever follows it.
pub read_record-record_bytes :
    (a b : Bytes) (n : ℕ) (rest : Bytes)
    → length a ≤ u16_max
    → length b ≤ u16_max
    → n < u32_mod
    → read_record (record_bytes a b n ++ rest) ≡ some ((a, b, n), rest)
unfolding read_record record_bytes
read_record-record_bytes a b n rest ha hb hn = simp append_assoc (
    rw (read16-write16 (length a) _ ha) (
      rw (read_bytes-append a) (
        rw (read16-write16 (length b) _ hb)
          (rw (read_bytes-append b) (rw (read32-write32 n rest hn))))))

pub load_pairs-suc :
    (k : ℕ) (s rest a b : Bytes) (n : ℕ) (t : Table)
    → read_record s ≡ some ((a, b, n), rest)
    → load_pairs (suc k) s t ≡ load_pairs k rest (put a b n t)
unfolding load_pairs
load_pairs-suc k s rest a b n t h = ground arith

pub read_header-magic :
    (n : ℕ) (rest : Bytes)
    → n < u32_mod
    → read_header (magic ++ (write32 version ++ (write32 n ++ rest))) ≡ some (n, rest)
unfolding read_header
read_header-magic n rest h =
    rw (read_bytes-append magic (write32 version ++ (write32 n ++ rest)))
      (rw (read32-write32 version (write32 n ++ rest) (omega arith)) (read32-write32 n rest h))

pub load-read_header :
    (file s : Bytes) (k : ℕ) → read_header file ≡ some (k, s) → load (some file) ≡ load_pairs k s []
unfolding load
load-read_header file s k h = ground arith

pub load-file_content :
    (t : Table)
    → size t < u32_mod
    → load (some (file_content t)) ≡ load_pairs (size t) (table_bytes t) []
unfolding file_content
load-file_content t h =
    load-read_header _ (table_bytes t) (size t)
      (rw (mod-eq_of_lt h) (read_header-magic (size t) (table_bytes t) h))

pub load_pairs-nil : (k : ℕ) (t : Table) → load_pairs k [] t ≡ (t, k == 0)
unfolding load_pairs read_record read16
load_pairs-nil zero t = refl
load_pairs-nil (suc k) t = ground arith
