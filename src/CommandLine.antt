-- ===== src/CommandLine.antt =====
-- What the command lines of src/daemon/main.cc and src/cli/main.cc share: the loop over `argv`, and `std::atoi`.
use dafeng_wubi.Prelude.{
  ℕ, zero, suc, ◌+◌, ◌-◌, ◌*◌, ◌≤◌, ◌==◌, Bool, true, false, ◌||◌, ◌&&◌, List, [], ◌∷◌, Option,
  none, some, ◌≡◌, refl, arith, if◌then◌else◌, leb, length, Bytes,
}
use dafeng_wubi.Prelude.Int.{ℤ, pos, negsuc}

-- what a round of the loop does: the program exits with a status, or the loop goes on with the options and the arguments that are left
pub data Step (A : Type 0) : Type 0 where
  exits : (status : ℕ) → Step A
  goes_on : A → (rest : List Bytes) → Step A

-- what the loop does: the program exits, or all arguments are read
pub data Parsed (A : Type 0) : Type 0 where
  exited : (status : ℕ) → Parsed A
  parsed : A → Parsed A

-- the loop for so many rounds; `none` where they do not end it
unfoldable pub parse_fuel :
    {A : Type 0} → (Bytes → List Bytes → A → Step A) → ℕ → List Bytes → A → Option (Parsed A)
parse_fuel step fuel [] o = some (Parsed.parsed o)
parse_fuel step zero (a ∷ rest) o = none
parse_fuel step (suc fuel) (a ∷ rest) o = elim (step a rest o) [
  | exits n ↦ some (Parsed.exited n)
  | goes_on o' rest' ↦ parse_fuel step fuel rest' o'
]

-- A round that goes on leaves no more than so many arguments.
pub data Shortens {A : Type 0} (n : ℕ) : Step A → Type 0 where
  at_exit : {n' : ℕ} → Shortens n (Step.exits n')
  at_rest : {o : A} {rest : List Bytes} → length rest ≤ n → Shortens n (Step.goes_on o rest)

pub if-Shortens :
    {A : Type 0} (b : Bool) (n : ℕ) (s t : Step A)
    → Shortens n s
    → Shortens n t
    → Shortens n (if b then s else t)
if-Shortens true n s t h k = h
if-Shortens false n s t h k = k

-- A round for each argument is enough.
pub parse_fuel-ends :
    {A : Type 0} (step : Bytes → List Bytes → A → Step A)
    (shortens : (a : Bytes) (rest : List Bytes) (o : A) → Shortens (length rest) (step a rest o))
    (fuel : ℕ) (args : List Bytes) (o : A)
    → length args ≤ fuel
    → (p : Parsed A) × (parse_fuel step fuel args o ≡ some p)
unfolding parse_fuel
parse_fuel-ends step shortens fuel [] o h = (Parsed.parsed o, refl)
parse_fuel-ends step shortens zero (a ∷ rest) o h = absurd (omega arith)
parse_fuel-ends {A = A} step shortens (suc fuel) (a ∷ rest) o h =
    after (step a rest o) (shortens a rest o)
      (λ o' rest' k. parse_fuel-ends step shortens fuel rest' o' (omega arith))
  where
    after :
        (s : Step A)
        → Shortens (length rest) s
        → ((o' : A) (rest' : List Bytes)
            → length rest' ≤ length rest
            → (p : Parsed A) × (parse_fuel step fuel rest' o' ≡ some p))
        → (p : Parsed A) × ((elim s as (λ s. Option (Parsed A)) [
          | exits n ↦ some (Parsed.exited n)
          | goes_on o' rest' ↦ parse_fuel step fuel rest' o'
        ])
            ≡ some p)
    after (Step.exits n) k f = (Parsed.exited n, refl)
    after (Step.goes_on o' rest') (at_rest k) f = f o' rest' k

abbrev pub is_white : ℕ → Bool
is_white c = c == 0x20 || (leb 0x09 c && leb c 0x0D)

abbrev pub is_digit : ℕ → Bool
is_digit c = leb b'0' c && leb c b'9'

-- the digits from here on, behind those with the value `n`
unfoldable pub digits_value : (n : ℕ) → Bytes → ℕ
digits_value n [] = n
digits_value n (c ∷ s) =
    let rest = digits_value (n * 10 + (c - b'0')) s in if is_digit c then rest else n

abbrev pub negative : ℕ → ℤ
negative zero = pos 0
negative (suc n) = negsuc n

abbrev pub signed_value : Bytes → ℤ
signed_value [] = pos 0
signed_value (c ∷ s) =
    if c == b'-'
    then negative (digits_value 0 s)
    else if c == b'+'
    then pos (digits_value 0 s)
    else pos (digits_value 0 (c ∷ s))

unfoldable pub skip_spaces : Bytes → Bytes
skip_spaces [] = []
skip_spaces (c ∷ s) = let rest = skip_spaces s in if is_white c then rest else c ∷ s

-- `std::atoi`, where the value fits
unfoldable pub atoi : Bytes → ℤ
unfolding digits_value skip_spaces
atoi s = signed_value (skip_spaces s)
