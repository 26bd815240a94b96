-- ===== src/Endpoint/Loop.antt =====
-- A `while` loop whose body calls the system: its rounds, how it ends and what it keeps. The loops of
-- src/common/endpoint_unix.cc are written with it.
use dafeng_wubi.Prelude.{
  ℕ, zero, suc, ◌≤◌, ◌<◌, Option, none, some, ◌≡◌, refl, subst, ap, ◌∙◌, arith,
}

-- what a round of a loop leaves: it ends with a result, or goes on with what it has
pub data Progress (A B : Type 0) : Type 0 where
  ends : B → Progress A B
  goes_on : A → Progress A B

pub none-ne_some : {R : Type 0} (r : R) → none ≡ some r → ⊥
none-ne_some r e = ground arith

-- the result of a loop that ends
unfoldable pub ended : {R : Type 0} → (o : Option R) → (r : R) × (o ≡ some r) → R
ended none (r, e) = absurd (none-ne_some r e)
ended (some result) h = result

pub ended_lem : {R : Type 0} (o : Option R) (h : (r : R) × (o ≡ some r)) → ended o h ≡ h.0
unfolding ended
ended_lem none (r, e) = absurd (none-ne_some r e)
ended_lem (some result) (r, e) = ground arith

pub ended-some :
    {R : Type 0} (o : Option R) (h : (r : R) × (o ≡ some r)) (r : R) → o ≡ some r → ended o h ≡ r
unfolding ended
ended-some none h r e = absurd (none-ne_some r e)
ended-some (some result) h r e = ground arith

module _ {World : Type 0} where
  -- A loop of so many rounds; `none` where they do not end it.
  unfoldable pub loop :
      {A B : Type 0}
      → (A → World → Progress A B × World)
      → ℕ
      → Progress A B × World
      → Option (B × World)
  loop round fuel (Progress.ends b, w) = some (b, w)
  loop round zero (Progress.goes_on a, w) = none
  loop round (suc fuel) (Progress.goes_on a, w) = loop round fuel (round a w)

  -- A round that goes on has brought the measure down.
  abbrev pub Falls : {A B : Type 0} → (A → World → ℕ) → ℕ → Progress A B × World → Type 0
  Falls measure n (Progress.ends b, w) = Unit {0}
  Falls measure n (Progress.goes_on a, w) = measure a w < n

  pub Falls-weaken :
      {A B : Type 0} (measure : A → World → ℕ) (p : Progress A B × World) {n m : ℕ}
      → n ≤ m
      → Falls measure n p
      → Falls measure m p
  Falls-weaken measure (Progress.ends b, w) h k = k
  Falls-weaken measure (Progress.goes_on a, w) h k = omega arith

  pub loop-ends :
      {A B : Type 0} (round : A → World → Progress A B × World) (measure : A → World → ℕ)
      (falls : (a : A) (w : World) → Falls measure (measure a w) (round a w)) (fuel : ℕ)
      (p : Progress A B × World)
      → Falls measure fuel p
      → (r : B × World) × (loop round fuel p ≡ some r)
  unfolding loop
  loop-ends round measure falls fuel (Progress.ends b, w) h = ((b, w), refl)
  loop-ends round measure falls zero (Progress.goes_on a, w) h = absurd (omega arith)
  loop-ends round measure falls (suc fuel) (Progress.goes_on a, w) h =
      loop-ends round measure falls fuel (round a w)
        (Falls-weaken measure (round a w) (omega arith) (falls a w))

  pub loop-keeps :
      {A B : Type 0} (round : A → World → Progress A B × World) (P : Progress A B × World → Type 0)
      (keeps : (a : A) (w : World) → P (Progress.goes_on a, w) → P (round a w)) (fuel : ℕ)
      (p : Progress A B × World) {r : B × World}
      → P p
      → loop round fuel p ≡ some r
      → P (Progress.ends r.0, r.1)
  unfolding loop
  loop-keeps round P keeps fuel (Progress.ends b, w) {r = r} h e =
      let same : (b, w) ≡ r = cc in subst (λ r. P (Progress.ends r.0, r.1)) same h
  loop-keeps round P keeps zero (Progress.goes_on a, w) h e = absurd (ground arith)
  loop-keeps round P keeps (suc fuel) (Progress.goes_on a, w) h e =
      loop-keeps round P keeps fuel (round a w) (keeps a w h) e

  -- a loop whose first two rounds end it
  pub loop-two :
      {A B : Type 0} (round : A → World → Progress A B × World) (fuel k : ℕ) (a a' : A)
      (w w' : World) (r : B × World)
      → fuel ≡ suc (suc k)
      → round a w ≡ (Progress.goes_on a', w')
      → round a' w' ≡ (Progress.ends r.0, r.1)
      → loop round fuel (Progress.goes_on a, w) ≡ some r
  unfolding loop
  loop-two round fuel k a a' w w' r e f g =
      ap (λ n. loop round n (Progress.goes_on a, w)) e
      ∙ ap (loop round (suc k)) f
      ∙ ap (loop round k) g

  -- a loop whose first round ends it
  pub loop-one :
      {A B : Type 0} (round : A → World → Progress A B × World) (fuel k : ℕ) (a : A) (w : World)
      (r : B × World)
      → fuel ≡ suc k
      → round a w ≡ (Progress.ends r.0, r.1)
      → loop round fuel (Progress.goes_on a, w) ≡ some r
  unfolding loop
  loop-one round fuel k a w r e f =
      ap (λ n. loop round n (Progress.goes_on a, w)) e ∙ ap (loop round k) f
