-- ===== src/Utf8/Chars.antt =====
-- The loops that walk a string character by character: `while (i < s.size())` with the step of a scanner,
-- stopping at the first byte where the scanner gives 0.
use dafeng_wubi.Prelude.{
  ℕ, zero, suc, ◌≤◌, ◌<◌, List, [], ◌∷◌, ◌++◌, ◌≡◌, refl, ap, ◌∙◌, arith, ◌==◌, Bool-cases,
  if◌then◌else◌, length, take, drop, Bytes, All, is_empty, ◌⊎◌, inl, inr, take-append-drop,
  length-drop, length-take,
}
use mathlib.Core.List.{append_assoc, flatten}

module _ (len : Bytes → ℕ) where
  -- the characters, on fuel; the length of the string is enough
  unfoldable pub chars_fuel : ℕ → Bytes → List Bytes
  chars_fuel zero s = []
  chars_fuel (suc fuel) s =
      let n = len s in
      let rest = take n s ∷ chars_fuel fuel (drop n s) in
      if is_empty s then [] else if n == 0 then [] else rest

  unfoldable pub chars : Bytes → List Bytes
  unfolding chars_fuel
  chars s = chars_fuel (length s) s

  -- What the loop leaves: nothing, or a tail at which the scanner fails.
  pub record Splits (s : Bytes) (cs : List Bytes) : Type 0 where
    pub tail : Bytes
    pub whole : flatten cs ++ tail ≡ s
    pub stopped : (tail ≡ []) ⊎ (len tail ≡ 0)
    pub pieces : All (λ c. 0 < length c) cs

  -- The scanner gives at most four bytes and stays inside the string.
  abbrev pub IsScanner : Type 0
  IsScanner = (s : Bytes) → (len s ≤ 4) × (len s ≤ length s)

  module _ (scans : IsScanner) where
    chars_fuel-Splits : (fuel : ℕ) (s : Bytes) → length s ≤ fuel → Splits s (chars_fuel fuel s)
    unfolding chars_fuel flatten
    chars_fuel-Splits zero [] h = record {
      tail = [];
      whole = refl;
      stopped = inl refl;
      pieces = tt;
    }
    chars_fuel-Splits zero (c ∷ cs) h = absurd (omega arith)
    chars_fuel-Splits (suc fuel) [] h = record {
      tail = [];
      whole = refl;
      stopped = inl refl;
      pieces = tt;
    }
    chars_fuel-Splits (suc fuel) (c ∷ cs) h = elim (Bool-cases (len (c ∷ cs) == 0)) [
      | inl e ↦
          rw e (record { tail = c ∷ cs; whole = refl; stopped = inr (ground arith); pieces = tt })
      | inr e ↦
          let n = len (c ∷ cs) in
          let s = c ∷ cs in
          let ih = chars_fuel-Splits fuel (drop n s) (grind (arith, length-drop, scans)) in
          rw e (record {
            tail = ih.tail;
            whole =
                append_assoc (take n s) (flatten (chars_fuel fuel (drop n s))) ih.tail
                ∙ ap (◌++◌ (take n s)) ih.whole
                ∙ take-append-drop n s;
            stopped = ih.stopped;
            pieces = (ground (arith, length-take n s, scans s), ih.pieces);
          })
    ]

    -- The loop cuts the string into non-empty pieces, in order, and stops only at the end of the string or
    -- at a place where the scanner fails.
    pub chars-Splits : (s : Bytes) → Splits s (chars s)
    unfolding chars
    chars-Splits s = chars_fuel-Splits (length s) s (omega arith)
