-- ===== src/Prelude/UnorderedMap.antt =====
-- `std::unordered_map<std::string, V>` as an association list. Its order is the map's order of
-- iteration, which the program may not rely on; the operations look only at the keys.
use mathlib.Core.Path.{◌≡◌, refl, subst}
use mathlib.Core.Logic.{inl, inr}
use mathlib.Core.List.{List, [], ◌∷◌}
use mathlib.Core.Option.{Option, none, some}
use native.Mathlib.Omega.{arith}
use dafeng_wubi.Prelude.Tests.{if◌then◌else◌, Bool-cases}
use dafeng_wubi.Prelude.Lists.{Bytes, bytes_eq, bytes_eq_iff}

module _ {ℓ} {V : Type ℓ} where
  -- `m.find(k)`
  unfoldable pub find : Bytes → List (Bytes × V) → Option V
  find k [] = none
  find k ((j, v) ∷ m) = if bytes_eq j k then some v else find k m

  -- `m[k] = v`
  unfoldable pub assign : Bytes → V → List (Bytes × V) → List (Bytes × V)
  assign k v [] = (k, v) ∷ []
  assign k v ((j, w) ∷ m) = if bytes_eq j k then (j, v) ∷ m else (j, w) ∷ assign k v m

  -- `m[k]`, which makes a default entry for a missing key
  abbrev pub or_default : V → Option V → V
  or_default d none = d
  or_default d (some v) = v

  pub find-assign :
      (k j : Bytes) (v : V) (m : List (Bytes × V))
      → find j (assign k v m) ≡ (if bytes_eq k j then some v else find j m)
  unfolding find assign
  find-assign k j v [] = refl
  find-assign k j v ((i, w) ∷ m) =
      ground (arith, bytes_eq_iff k j, bytes_eq_iff i k, bytes_eq_iff i j, find-assign k j v m)

  -- `m.erase(k)`
  unfoldable pub erase : Bytes → List (Bytes × V) → List (Bytes × V)
  erase k [] = []
  erase k ((j, v) ∷ m) = let rest = erase k m in if bytes_eq j k then rest else (j, v) ∷ rest

  pub find-erase :
      (k j : Bytes) (m : List (Bytes × V))
      → find j (erase k m) ≡ (if bytes_eq k j then none else find j m)
  unfolding find erase
  find-erase k j [] = ground arith
  find-erase k j ((i, w) ∷ m) =
      ground (arith, bytes_eq_iff k j, bytes_eq_iff i k, bytes_eq_iff i j, find-erase k j m)

  -- No key stands twice.
  abbrev pub IsMap : List (Bytes × V) → Type ℓ
  IsMap [] = Unit
  IsMap ((k, v) ∷ m) = (find k m ≡ none) × IsMap m

  -- The values all satisfy a predicate.
  abbrev pub AllValues {κ} : (V → Type κ) → List (Bytes × V) → Type κ
  AllValues P [] = Unit
  AllValues P ((k, v) ∷ m) = P v × AllValues P m

  pub assign-IsMap : (k : Bytes) (v : V) (m : List (Bytes × V)) → IsMap m → IsMap (assign k v m)
  unfolding assign find
  assign-IsMap k v [] h = (refl, tt)
  assign-IsMap k v ((j, w) ∷ m) (fresh, h) = elim (Bool-cases (bytes_eq j k)) [
    | inl e ↦ rw e (fresh, h)
    | inr e ↦ rw e (
      ground (arith, bytes_eq_iff j k, bytes_eq_iff k j, find-assign k j v m),
      assign-IsMap k v m h,
    )
  ]

  pub assign-AllValues {κ} :
      (P : V → Type κ) (k : Bytes) (v : V) (m : List (Bytes × V))
      → P v
      → AllValues P m
      → AllValues P (assign k v m)
  unfolding assign
  assign-AllValues P k v [] p h = (p, tt)
  assign-AllValues P k v ((j, w) ∷ m) p h = elim (Bool-cases (bytes_eq j k)) [
    | inl e ↦ rw e (p, h.1)
    | inr e ↦ rw e (h.0, assign-AllValues P k v m p h.1)
  ]

  pub find-AllValues {κ} :
      (P : V → Type κ) (k : Bytes) (m : List (Bytes × V)) {v : V}
      → AllValues P m
      → find k m ≡ some v
      → P v
  unfolding find
  find-AllValues P k [] h e = absurd (ground arith)
  find-AllValues P k ((j, w) ∷ m) {v} h e = elim (Bool-cases (bytes_eq j k)) [
    | inl same ↦ let found : w ≡ v = ground arith in subst P found h.0
    | inr other ↦ find-AllValues P k m h.1 (rw other at e)
  ]
