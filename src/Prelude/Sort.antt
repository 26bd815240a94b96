-- ===== src/Prelude/Sort.antt =====
-- `std::stable_sort` by a comparison, as insertion from the right. `std::sort` may order equal items in any
-- way; it is this sort in the model, and the theorems about its callers do not use the order of equals.
use Prim.Native.Nat.{suc}
use mathlib.Core.Path.{◌≡◌, refl}
use mathlib.Core.Bool.{Bool, true, false}
use mathlib.Core.List.{List, [], ◌∷◌, Perm}
use mathlib.Core.List.Perm
use native.Mathlib.Omega.{arith}
use dafeng_wubi.Prelude.Tests.{if◌then◌else◌, Bool-cases}
use dafeng_wubi.Prelude.Lists.{All, length}
use mathlib.Core.Logic.{inl, inr}

module _ {ℓ} {A : Type ℓ} (less : A → A → Bool) where
  unfoldable pub insert_sorted : A → List A → List A
  insert_sorted x [] = x ∷ []
  insert_sorted x (y ∷ ys) = if less y x then y ∷ insert_sorted x ys else x ∷ y ∷ ys

  unfoldable pub sort : List A → List A
  unfolding insert_sorted
  sort [] = []
  sort (x ∷ xs) = insert_sorted x (sort xs)

  -- no later item is less than an earlier one
  abbrev pub IsOrdered : List A → Type 0
  IsOrdered [] = Unit
  IsOrdered (x ∷ xs) = All (λ y. less y x ≡ false) xs × IsOrdered xs

  -- what `std::sort` asks of its comparison
  pub record IsStrictWeak : Type ℓ where
    pub irrefl : (x : A) → less x x ≡ false
    pub asym : (x y : A) → less x y ≡ true → less y x ≡ false
    pub neg_trans : (x y z : A) → less x y ≡ false → less y z ≡ false → less x z ≡ false

  insert_sorted-perm : (x : A) (l : List A) → Perm (insert_sorted x l) (x ∷ l)
  unfolding insert_sorted
  insert_sorted-perm x [] = Perm.rfl
  insert_sorted-perm x (y ∷ ys) = elim (Bool-cases (less y x)) [
    | inl e ↦ rw e (Perm.trans (Perm.cons y (insert_sorted-perm x ys)) (Perm.swap x y ys))
    | inr e ↦ rw e Perm.rfl
  ]

  -- The sort keeps every item.
  pub sort-perm : (l : List A) → Perm (sort l) l
  unfolding sort
  sort-perm [] = Perm.rfl
  sort-perm (x ∷ xs) = Perm.trans (insert_sorted-perm x (sort xs)) (Perm.cons x (sort-perm xs))

  length-insert_sorted : (x : A) (l : List A) → length (insert_sorted x l) ≡ suc (length l)
  unfolding insert_sorted
  length-insert_sorted x [] = refl
  length-insert_sorted x (y ∷ ys) = ground (arith, length-insert_sorted x ys)

  pub length-sort : (l : List A) → length (sort l) ≡ length l
  unfolding sort
  length-sort [] = refl
  length-sort (x ∷ xs) = omega (arith, length-insert_sorted x (sort xs), length-sort xs)

  insert_sorted-All {κ} :
      (P : A → Type κ) (x : A) (l : List A) → P x → All P l → All P (insert_sorted x l)
  unfolding insert_sorted
  insert_sorted-All P x [] h hs = (h, tt)
  insert_sorted-All P x (y ∷ ys) h hs = elim (Bool-cases (less y x)) [
    | inl e ↦ rw e (hs.0, insert_sorted-All P x ys h hs.1)
    | inr e ↦ rw e (h, hs)
  ]

  pub sort-All {κ} : (P : A → Type κ) (l : List A) → All P l → All P (sort l)
  unfolding sort
  sort-All P [] h = tt
  sort-All P (x ∷ xs) h = insert_sorted-All P x (sort xs) h.0 (sort-All P xs h.1)

  module _ (w : IsStrictWeak) where
    below_all :
        (x y : A) (l : List A)
        → less y x ≡ false
        → All (λ z. less z y ≡ false) l
        → All (λ z. less z x ≡ false) l
    below_all x y [] h hs = tt
    below_all x y (z ∷ l) h hs = (w.neg_trans z y x hs.0 h, below_all x y l h hs.1)

    insert_sorted-IsOrdered : (x : A) (l : List A) → IsOrdered l → IsOrdered (insert_sorted x l)
    unfolding insert_sorted
    insert_sorted-IsOrdered x [] h = (tt, tt)
    insert_sorted-IsOrdered x (y ∷ ys) (h, hs) = elim (Bool-cases (less y x)) [
      | inl e ↦ rw e (
        insert_sorted-All (λ z. less z y ≡ false) x ys (w.asym y x e) h,
        insert_sorted-IsOrdered x ys hs,
      )
      | inr e ↦ rw e ((e, below_all x y ys e h), (h, hs))
    ]

    -- The result is ordered.
    pub sort-IsOrdered : (l : List A) → IsOrdered (sort l)
    unfolding sort
    sort-IsOrdered [] = tt
    sort-IsOrdered (x ∷ xs) = insert_sorted-IsOrdered x (sort xs) (sort-IsOrdered xs)

  -- the items that pass a test, in order
  abbrev pub keep : (A → Bool) → List A → List A
  keep p [] = []
  keep p (x ∷ xs) = if p x then x ∷ keep p xs else keep p xs

  -- a class of items of which none is less than another
  abbrev pub IsTied : (A → Bool) → Type ℓ
  IsTied p = (x y : A) → p x ≡ true → p y ≡ true → less x y ≡ false

  insert_sorted-keep :
      (p : A → Bool) → IsTied p → (x : A) (l : List A) → keep p (insert_sorted x l) ≡ keep p (x ∷ l)
  unfolding insert_sorted
  insert_sorted-keep p tied x [] = refl
  insert_sorted-keep p tied x (y ∷ ys) = ground (arith, insert_sorted-keep p tied x ys, tied y x)

  -- Items of one class stay in their order.
  pub sort-keep : (p : A → Bool) → IsTied p → (l : List A) → keep p (sort l) ≡ keep p l
  unfolding sort
  sort-keep p tied [] = refl
  sort-keep p tied (x ∷ xs) =
      ground (arith, insert_sorted-keep p tied x (sort xs), sort-keep p tied xs)
