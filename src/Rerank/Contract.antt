-- ===== src/Rerank/Contract.antt =====
-- What include/dafeng/types.h promises of a `RerankResponse`, for every backend.
use dafeng_wubi.Prelude.{
  ℕ, zero, suc, ◌+◌, List, [], ◌∷◌, ◌++◌, map, ◌≡◌, refl, ap, ◌∙◌, ◌⊎◌, arith, length, some,
  get_elem?, All, subst, length-append,
}
use mathlib.Core.List.{Perm, append_assoc}
use dafeng_wubi.Prelude.Int.{ℤ, pos}
use dafeng_wubi.Protocol.{RerankRequest, RerankResponse}

-- i, i + 1, ..., i + n - 1
abbrev pub indices : ℕ → ℕ → List ℤ
indices i zero = []
indices i (suc n) = pos i ∷ indices (suc i) n

-- "Permutation over the request's candidate list. Must be the same length." and "same length as
-- reordered_indices or empty"; the answer carries the number of the request.
pub record Answers {Float : Type 0} (req : RerankRequest) (resp : RerankResponse Float)
    : Type 0 where
  pub same_id : resp.request_id ≡ req.request_id
  pub permutes : Perm resp.reordered_indices (indices 0 (length req.candidates))
  pub scores_fit : (resp.scores ≡ []) ⊎ (length resp.scores ≡ length resp.reordered_indices)

pub indices-suc : (i n : ℕ) → indices i (suc n) ≡ indices i n ++ pos (i + n) ∷ []
indices-suc i zero = ap (λ k. pos k ∷ []) (omega arith)
indices-suc i (suc n) =
    ap (◌∷◌ (pos i))
      (indices-suc (suc i) n ∙ ap (λ k. indices (suc i) n ++ pos k ∷ []) (omega arith))

-- as many scores as indices
pub length-maps :
    {A B C : Type 0} (f : A → B) (g : A → C) (l : List A) → length (map f l) ≡ length (map g l)
length-maps f g [] = refl
length-maps f g (x ∷ l) = ap suc (length-maps f g l)

-- each candidate's score, with its index from `i` on
unfoldable pub numbered : {A F : Type 0} → (A → F) → ℕ → List A → List (F × ℕ)
numbered score i [] = []
numbered score i (c ∷ cands) = (score c, i) ∷ numbered score (suc i) cands

get_elem?-map_append :
    {A F : Type 0} (score : A → F) (before cands : List A) (c : A)
    → get_elem? (map score (before ++ c ∷ cands)) (length before) ≡ some (score c)
get_elem?-map_append score [] cands c = refl
get_elem?-map_append score (b ∷ before) cands c = get_elem?-map_append score before cands c

-- Each index stands with the score of its candidate.
pub numbered-scores :
    {A F : Type 0} (score : A → F) (before cands : List A)
    → All
        (λ p. get_elem? (map score (before ++ cands)) p.1 ≡ some p.0)
        (numbered score (length before) cands)
unfolding numbered
numbered-scores score before [] = tt
numbered-scores {A = A} {F = F} score before (c ∷ cands) =
    let HasScore : F × ℕ → Type 0 =
      λ p. get_elem? (map score (before ++ c ∷ cands)) p.1 ≡ some p.0 in
    let longer : length (before ++ c ∷ []) ≡ suc (length before) =
      omega (arith, length-append before (c ∷ [])) in
    (
      get_elem?-map_append score before cands c,
      subst (λ k. All HasScore (numbered score k cands)) longer
          (subst
            (λ l.
              All (λ p. get_elem? (map score l) p.1 ≡ some p.0)
                (numbered score (length (before ++ c ∷ [])) cands))
            (append_assoc before (c ∷ []) cands) (numbered-scores score (before ++ c ∷ []) cands)),
    )
