-- ===== src/Tests/PlainPack.antt =====
-- A serialiser that meets `Protocol.Msgpack.Laws`: every value is a tag, its sizes and its contents.
-- It stands in for msgpack in the tests.
use dafeng_wubi.Prelude.{
  ℕ, zero, suc, true, false, List, [], ◌∷◌, ◌++◌, Option, none, some, arith, ◌≡◌, refl, map, ap,
  ◌∙◌, length, take, drop, Bytes, take-append_length, drop-append_length, sym, ltb, lt→ltb, ◌^◌,
  if◌then◌else◌,
}
use mathlib.Core.List.{append-nil, append_assoc}
use dafeng_wubi.Prelude.Int.{ℤ, pos, negsuc}
use dafeng_wubi.Protocol.Msgpack.{
  Msgpack, Value, uint, int32, str, strs, int32s, floats, Laws, Convert, pack_pairs,
}

abbrev Val : Type 0
Val = Value ℕ

pub data Object : Type 0 where
  key : Bytes → Object
  value : Val → Object
  pairs : List (Bytes × Val) → Object

write_int : ℤ → Bytes → Bytes
write_int (pos n) r = 0 ∷ n ∷ r
write_int (negsuc n) r = 1 ∷ n ∷ r

write_ints : List ℤ → Bytes → Bytes
unfolding write_int
write_ints [] r = r
write_ints (z ∷ l) r = write_int z (write_ints l r)

write_strs : List Bytes → Bytes → Bytes
write_strs [] r = r
write_strs (b ∷ l) r = length b ∷ (b ++ write_strs l r)

unfoldable pub write : Val → Bytes → Bytes
unfolding write_ints write_strs
write (uint w n) r = 0 ∷ w ∷ n ∷ r
write (int32 z) r = 1 ∷ write_int z r
write (str b) r = 2 ∷ length b ∷ (b ++ r)
write (strs l) r = 3 ∷ length l ∷ write_strs l r
write (int32s l) r = 4 ∷ length l ∷ write_ints l r
write (floats l) r = 5 ∷ length l ∷ (l ++ r)

abbrev Reads : Type 0 → Type 0
Reads A = Option (A × Bytes)

read_int : Bytes → Reads ℤ
read_int (zero ∷ n ∷ r) = some (pos n, r)
read_int (suc _ ∷ n ∷ r) = some (negsuc n, r)
read_int _ = none

read_ints : ℕ → Bytes → Reads (List ℤ)
unfolding read_int
read_ints zero r = some ([], r)
read_ints (suc n) r = elim (read_int r) [
  | none ↦ none
  | some (z, r') ↦ elim (read_ints n r') [ none ↦ none | some (l, t) ↦ some (z ∷ l, t) ]
]

read_str : Bytes → Reads Bytes
read_str [] = none
read_str (n ∷ r) = some (take n r, drop n r)

read_strs : ℕ → Bytes → Reads (List Bytes)
unfolding read_str
read_strs zero r = some ([], r)
read_strs (suc n) r = elim (read_str r) [
  | none ↦ none
  | some (b, r') ↦ elim (read_strs n r') [ none ↦ none | some (l, t) ↦ some (b ∷ l, t) ]
]

abbrev wrap : {A : Type 0} → (A → Val) → Reads A → Reads Val
wrap f none = none
wrap f (some (a, r)) = some (f a, r)

read : Bytes → Reads Val
unfolding read_ints read_strs
read (zero ∷ w ∷ n ∷ r) = some (uint w n, r)
read (suc zero ∷ r) = wrap int32 (read_int r)
read (suc (suc zero) ∷ r) = wrap str (read_str r)
read (suc (suc (suc zero)) ∷ n ∷ r) = wrap strs (read_strs n r)
read (suc (suc (suc (suc zero))) ∷ n ∷ r) = wrap int32s (read_ints n r)
read (suc (suc (suc (suc (suc _)))) ∷ r) = wrap floats (read_str r)
read _ = none

read_pairs : ℕ → Bytes → Option (List (Bytes × Val))
unfolding read
read_pairs zero r = some []
read_pairs (suc n) r = elim (read_str r) [
  | none ↦ none
  | some (k, r') ↦ elim (read r') [
    | none ↦ none
    | some (v, r'') ↦ elim (read_pairs n r'') [ none ↦ none | some l ↦ some ((k, v) ∷ l) ]
  ]
]

unfoldable pub unpack_plain : Bytes → Option Object
unfolding read_pairs
unpack_plain [] = none
unpack_plain (n ∷ r) = elim (read_pairs n r) [ none ↦ none | some l ↦ some (pairs l) ]

read_int-write_int : (z : ℤ) (r : Bytes) → read_int (write_int z r) ≡ some (z, r)
unfolding read_int write_int
read_int-write_int (pos n) r = refl
read_int-write_int (negsuc n) r = refl

read_ints-write_ints :
    (l : List ℤ) (r : Bytes) → read_ints (length l) (write_ints l r) ≡ some (l, r)
unfolding read_ints write_ints
read_ints-write_ints [] r = refl
read_ints-write_ints (z ∷ l) r =
    ground (arith, read_int-write_int z (write_ints l r), read_ints-write_ints l r)

read_str-append : (b r : Bytes) → read_str (length b ∷ (b ++ r)) ≡ some (b, r)
unfolding read_str
read_str-append b r = rw (take-append_length b r, drop-append_length b r)

read_strs-write_strs :
    (l : List Bytes) (r : Bytes) → read_strs (length l) (write_strs l r) ≡ some (l, r)
unfolding read_strs write_strs
read_strs-write_strs [] r = refl
read_strs-write_strs (b ∷ l) r =
    ground (arith, read_str-append b (write_strs l r), read_strs-write_strs l r)

read-write : (v : Val) (r : Bytes) → read (write v r) ≡ some (v, r)
unfolding read write
read-write (uint w n) r = refl
read-write (int32 z) r = ground (arith, read_int-write_int z r)
read-write (str b) r = ground (arith, read_str-append b r)
read-write (strs l) r = ground (arith, read_strs-write_strs l r)
read-write (int32s l) r = ground (arith, read_ints-write_ints l r)
read-write (floats l) r = ground (arith, read_str-append l r)

write_ints-append : (l : List ℤ) (r : Bytes) → write_ints l r ≡ write_ints l [] ++ r
unfolding write_ints
write_ints-append [] r = refl
write_ints-append (pos n ∷ l) r = ap (λ t. 0 ∷ n ∷ t) (write_ints-append l r)
write_ints-append (negsuc n ∷ l) r = ap (λ t. 1 ∷ n ∷ t) (write_ints-append l r)

write_strs-append : (l : List Bytes) (r : Bytes) → write_strs l r ≡ write_strs l [] ++ r
unfolding write_strs
write_strs-append [] r = refl
write_strs-append (b ∷ l) r =
    ap (λ t. length b ∷ t)
      (ap (◌++◌ b) (write_strs-append l r) ∙ sym (append_assoc b (write_strs l []) r))

write-append : (v : Val) (r : Bytes) → write v r ≡ write v [] ++ r
unfolding write
write-append (uint w n) r = refl
write-append (int32 (pos n)) r = refl
write-append (int32 (negsuc n)) r = refl
write-append (str b) r = rw append-nil
write-append (strs l) r = ap (λ t. 3 ∷ length l ∷ t) (write_strs-append l r)
write-append (int32s l) r = ap (λ t. 4 ∷ length l ∷ t) (write_ints-append l r)
write-append (floats l) r = rw append-nil

abbrev to_uint : ℕ → Convert Object ℕ
to_uint w (value (uint w' n)) out = if ltb n (2 ^ w) then (true, n) else (false, out)
to_uint w o out = (false, out)

abbrev to_int32 : Convert Object ℤ
to_int32 (value (int32 z)) out = (true, z)
to_int32 o out = (false, out)

abbrev to_str : Convert Object Bytes
to_str (value (str b)) out = (true, b)
to_str (key b) out = (true, b)
to_str o out = (false, out)

abbrev to_strs : Convert Object (List Bytes)
to_strs (value (strs l)) out = (true, l)
to_strs o out = (false, out)

abbrev to_int32s : Convert Object (List ℤ)
to_int32s (value (int32s l)) out = (true, l)
to_int32s o out = (false, out)

abbrev to_floats : Convert Object (List ℕ)
to_floats (value (floats l)) out = (true, l)
to_floats o out = (false, out)

abbrev entries : Object → Option (List (Object × Object))
entries (pairs l) = some (map (λ f. (key f.0, value f.1)) l)
entries o = none

abbrev key_bytes : Object → Option Bytes
key_bytes (key b) = some b
key_bytes (value (str b)) = some b
key_bytes o = none

abbrev pub plain_pack : Msgpack
plain_pack = record {
  Object = Object;
  Float = ℕ;
  pack_map = λ n. n ∷ [];
  pack_str = λ n. n ∷ [];
  pack_str_body = λ b. b;
  pack = λ v. write v [];
  unpack = unpack_plain;
  map_entries = entries;
  str_bytes = key_bytes;
  to_uint = to_uint;
  to_int32 = to_int32;
  to_str = to_str;
  to_strs = to_strs;
  to_int32s = to_int32s;
  to_floats = to_floats;
}

read_pairs-pack_pairs :
    (l : List (Bytes × Val)) → read_pairs (length l) (pack_pairs plain_pack l) ≡ some l
unfolding read_pairs
read_pairs-pack_pairs [] = refl
read_pairs-pack_pairs ((k, v) ∷ l) = ground (
  arith,
  read_str-append k (write v [] ++ pack_pairs plain_pack l),
  write-append v (pack_pairs plain_pack l),
  read-write v (pack_pairs plain_pack l),
  read_pairs-pack_pairs l,
)

pub plain_pack_laws : Laws plain_pack
unfolding unpack_plain
plain_pack_laws = record {
  of_key = key;
  of_value = value;
  pack_map-ne_nil = λ n e. cc;
  unpack-pack = λ l _ _. (pairs l, ground (arith, read_pairs-pack_pairs l), refl);
  str_bytes-of_key = λ k. refl;
  to_uint-of_value = λ w n out h. rw (lt→ltb n (2 ^ w) h);
  to_int32-of_value = λ z out h. refl;
  to_str-of_value = λ b out. refl;
  to_strs-of_value = λ l out. refl;
  to_int32s-of_value = λ l out h. refl;
  to_floats-of_value = λ l out. refl;
}
