-- ===== src/Rerank/Floats.antt =====
-- The float operations that the rerankers use. The arithmetic is the platform's; what the theorems need is
-- that `<` is a strict weak order on the scores, which it is where no score is a NaN.
use dafeng_wubi.Prelude.{ℕ, Bool}

pub record Floats : Type 1 where
  pub Float : Type 0
  pub less : Float → Float → Bool
  pub zero : Float
  pub half : Float
  pub tenth : Float
  pub five : Float
  pub ten : Float
  pub add : Float → Float → Float
  pub sub : Float → Float → Float
  pub mul : Float → Float → Float
  pub of_int : ℕ → Float
