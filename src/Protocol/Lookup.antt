-- ===== src/Protocol/Lookup.antt =====
-- `MapGet` of src/common/protocol.cc on the object of a packed map: a search among the packed fields.
use dafeng_wubi.Prelude.{
  Bool, false, List, [], ◌∷◌, some, arith, ◌≡◌, refl, map, if◌then◌else◌, Bytes, bytes_eq,
}
use dafeng_wubi.Protocol.Msgpack.{Msgpack, Convert, Value, Laws}
use dafeng_wubi.Protocol.Body.{entries_get, map_get}

module _ (m : Msgpack) (laws : Laws m) where
  open m use {Object, Float}
  open laws use {of_key, of_value}

  -- the search among the fields themselves
  abbrev pub fields_get :
      {T : Type 0} → Convert Object T → List (Bytes × Value Float) → Bytes → T → Bool × T
  fields_get conv [] key out = (false, out)
  fields_get conv ((k, v) ∷ fields) key out =
      if bytes_eq k key then conv (of_value v) out else fields_get conv fields key out

  abbrev pub entries_of : List (Bytes × Value Float) → List (Object × Object)
  entries_of fields = map (λ f. (of_key f.0, of_value f.1)) fields

  entries_get-entries_of :
      {T : Type 0} (conv : Convert Object T) (fields : List (Bytes × Value Float)) (key : Bytes)
      (out : T)
      → entries_get m conv (entries_of fields) key out ≡ fields_get conv fields key out
  unfolding entries_get
  entries_get-entries_of conv [] key out = refl
  entries_get-entries_of conv ((k, v) ∷ fields) key out =
      ground (arith, laws.str_bytes-of_key k, entries_get-entries_of conv fields key out)

  pub map_get-fields_get :
      {T : Type 0} (conv : Convert Object T) (fields : List (Bytes × Value Float)) (o : Object)
      (key : Bytes) (out : T)
      → m.map_entries o ≡ some (entries_of fields)
      → map_get m conv o key out ≡ fields_get conv fields key out
  unfolding map_get
  map_get-fields_get conv fields o key out e =
      ground (arith, entries_get-entries_of conv fields key out)
