-- ===== src/Protocol/Msgpack.antt =====
-- What src/common/protocol.cc uses of msgpack-c, which is not part of the repository: the packer's calls,
-- `msgpack::unpack`, the tests on an object's type, and `convert`.
use dafeng_wubi.Prelude.{
  ℕ, ◌^◌, ◌<◌, Bool, true, List, [], ◌∷◌, ◌++◌, Option, some, ◌≡◌, ◌≢◌, map, length, All, Bytes,
}
use dafeng_wubi.Prelude.Int.{ℤ, IsInt32}

-- A call of `pk.pack`, by the type of its argument; `uint` carries the width of the integer type.
pub data Value (Float : Type 0) : Type 0 where
  uint : ℕ → ℕ → Value Float
  int32 : ℤ → Value Float
  str : Bytes → Value Float
  strs : List Bytes → Value Float
  int32s : List ℤ → Value Float
  floats : List Float → Value Float

-- `convert(out)`: whether it returned without throwing, and what `out` holds then. A conversion that
-- throws may have written to `out`.
abbrev pub Convert : Type 0 → Type 0 → Type 0
Convert Object T = Object → T → Bool × T

pub record Msgpack : Type 1 where
  pub Object : Type 0
  pub Float : Type 0
  -- the bytes that each call of the packer appends
  pub pack_map : ℕ → Bytes
  pub pack_str : ℕ → Bytes
  pub pack_str_body : Bytes → Bytes
  pub pack : Value Float → Bytes
  -- `none` where `unpack` throws
  pub unpack : Bytes → Option Object
  -- `none` where the object is no map
  pub map_entries : Object → Option (List (Object × Object))
  -- `none` where the object is no string
  pub str_bytes : Object → Option Bytes
  pub to_uint : ℕ → Convert Object ℕ
  pub to_int32 : Convert Object ℤ
  pub to_str : Convert Object Bytes
  pub to_strs : Convert Object (List Bytes)
  pub to_int32s : Convert Object (List ℤ)
  pub to_floats : Convert Object (List Float)

-- A call of the packer is within its argument's type, and a length fits the format's 32 bits.
abbrev pub IsPackable : {Float : Type 0} → Value Float → Type 0
IsPackable (uint w n) = n < 2 ^ w
IsPackable (int32 z) = IsInt32 z
IsPackable (str b) = length b < 0x100000000
IsPackable (strs l) = (length l < 0x100000000) × All (λ b. length b < 0x100000000) l
IsPackable (int32s l) = (length l < 0x100000000) × All IsInt32 l
IsPackable (floats l) = length l < 0x100000000

-- What the packer has appended for a key and a value, one pair after the other.
abbrev pub pack_pairs : (m : Msgpack) → List (Bytes × Value m.Float) → Bytes
pack_pairs m [] = []
pack_pairs m ((k, v) ∷ fields) =
    m.pack_str (length k) ++ (m.pack_str_body k ++ (m.pack v ++ pack_pairs m fields))

abbrev pub IsPackableField : {Float : Type 0} → Bytes × Value Float → Type 0
IsPackableField (k, v) = (length k < 0x100000000) × IsPackable v

-- The documented behaviour that the code relies on: a map is unpacked as it was packed, pair by pair,
-- and a packed value converts back to the type that it was packed from.
pub record Laws (m : Msgpack) : Type 1 where
  pub of_key : Bytes → m.Object
  pub of_value : Value m.Float → m.Object
  pub pack_map-ne_nil : (n : ℕ) → m.pack_map n ≢ []
  pub unpack-pack :
      (fields : List (Bytes × Value m.Float))
      → length fields < 0x100000000
      → All IsPackableField fields
      → (o : m.Object) × (m.unpack (m.pack_map (length fields) ++ pack_pairs m fields) ≡ some o)
        × (m.map_entries o ≡ some (map (λ f. (of_key f.0, of_value f.1)) fields))
  pub str_bytes-of_key : (k : Bytes) → m.str_bytes (of_key k) ≡ some k
  pub to_uint-of_value :
      (w n out : ℕ) → n < 2 ^ w → m.to_uint w (of_value (uint w n)) out ≡ (true, n)
  pub to_int32-of_value : (z out : ℤ) → IsInt32 z → m.to_int32 (of_value (int32 z)) out ≡ (true, z)
  pub to_str-of_value : (b out : Bytes) → m.to_str (of_value (str b)) out ≡ (true, b)
  pub to_strs-of_value : (l out : List Bytes) → m.to_strs (of_value (strs l)) out ≡ (true, l)
  pub to_int32s-of_value :
      (l out : List ℤ) → All IsInt32 l → m.to_int32s (of_value (int32s l)) out ≡ (true, l)
  pub to_floats-of_value :
      (l out : List m.Float) → m.to_floats (of_value (floats l)) out ≡ (true, l)
