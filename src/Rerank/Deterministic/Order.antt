-- ===== src/Rerank/Deterministic/Order.antt =====
-- The order that `DeterministicReranker::Rerank` gives.
use dafeng_wubi.Prelude.{
  ℕ, suc, Bool, true, not, ◌&&◌, List, [], ◌∷◌, ◌++◌, map, ◌≡◌, refl, ap, inl, inr, arith, length,
  length-append, Bytes, All, is_empty, Bool-cases, subst, get_elem?, some,
}
use mathlib.Core.List.{Perm, append_assoc}
use mathlib.Core.List.Perm
use dafeng_wubi.Prelude.Int.{pos}
use dafeng_wubi.Prelude.Sort.{
  sort, IsOrdered, IsStrictWeak, IsTied, keep, sort-perm, sort-IsOrdered, sort-keep, sort-All,
}
use dafeng_wubi.Protocol.{RerankRequest, RerankResponse}
use dafeng_wubi.Rerank.Contract.{indices, Answers, length-maps}
use dafeng_wubi.Rerank.Floats.{Floats}
use dafeng_wubi.Rerank.Deterministic.{score_all, score_in, ranked, higher, rerank}

module _ (fl : Floats) where
  open fl use {Float, less}

  score_all-indices :
      (score : Bytes → Float) (i : ℕ) (cands : List Bytes)
      → map (λ p. pos p.1) (score_all fl score i cands) ≡ indices i (length cands)
  unfolding score_all
  score_all-indices score i [] = refl
  score_all-indices score i (c ∷ cands) = ap (◌∷◌ (pos i)) (score_all-indices score (suc i) cands)

  ranked_of_empty : (req : RerankRequest) → is_empty req.candidates ≡ true → ranked fl req ≡ []
  unfolding ranked
  ranked_of_empty req h =
      ap (λ cands. sort (higher fl) (score_all fl (score_in fl req) 0 cands)) (nil req.candidates h)
    where
      nil : (cands : List Bytes) → is_empty cands ≡ true → cands ≡ []
      nil [] h = refl
      nil (c ∷ cands) h = cc

  ranked-perm :
      (req : RerankRequest) → Perm (ranked fl req) (score_all fl (score_in fl req) 0 req.candidates)
  unfolding ranked
  ranked-perm req = sort-perm (higher fl) (score_all fl (score_in fl req) 0 req.candidates)

  -- Both branches of `Rerank` give the sorted pairs.
  rerank-ranked :
      (elapsed : ℕ) (req : RerankRequest)
      → let resp = rerank fl elapsed req in
        (resp.request_id ≡ req.request_id)
        × (resp.reordered_indices ≡ map (λ p. pos p.1) (ranked fl req))
        × (resp.scores ≡ map (λ p. p.0) (ranked fl req))
  unfolding rerank
  rerank-ranked elapsed req = elim (Bool-cases (is_empty req.candidates)) [
    | inl e ↦ rw (e, ranked_of_empty req e) (refl, refl, refl)
    | inr e ↦ rw e (refl, refl, refl)
  ]

  -- The deterministic backend answers every request with a permutation of its candidates and a score for
  -- each, whatever the float arithmetic gives.
  pub rerank-Answers : (elapsed : ℕ) (req : RerankRequest) → Answers req (rerank fl elapsed req)
  rerank-Answers elapsed req =
      let (id, order, scores) = rerank-ranked elapsed req in
      record {
        same_id = id;
        permutes =
            rw (order, ← score_all-indices (score_in fl req) 0 req.candidates)
              (Perm.map (λ p. pos p.1) (ranked-perm req));
        scores_fit =
            inr (rw (order, scores) (length-maps (λ p. p.0) (λ p. pos p.1) (ranked fl req)));
      }

  get_elem?-map_append :
      (score : Bytes → Float) (before cands : List Bytes) (c : Bytes)
      → get_elem? (map score (before ++ c ∷ cands)) (length before) ≡ some (score c)
  get_elem?-map_append score [] cands c = refl
  get_elem?-map_append score (b ∷ before) cands c = get_elem?-map_append score before cands c

  score_all-scores :
      (score : Bytes → Float) (before cands : List Bytes)
      → All
          (λ p. get_elem? (map score (before ++ cands)) p.1 ≡ some p.0)
          (score_all fl score (length before) cands)
  unfolding score_all
  score_all-scores score before [] = tt
  score_all-scores score before (c ∷ cands) =
      let HasScore : Float × ℕ → Type 0 =
        λ p. get_elem? (map score (before ++ c ∷ cands)) p.1 ≡ some p.0 in
      let longer : length (before ++ c ∷ []) ≡ suc (length before) =
        omega (arith, length-append before (c ∷ [])) in
      (
        get_elem?-map_append score before cands c,
        subst (λ k. All HasScore (score_all fl score k cands)) longer
            (subst
              (λ l.
                All (λ p. get_elem? (map score l) p.1 ≡ some p.0)
                  (score_all fl score (length (before ++ c ∷ [])) cands))
              (append_assoc before (c ∷ []) cands)
              (score_all-scores score (before ++ c ∷ []) cands)),
      )

  higher_order : IsStrictWeak less → IsStrictWeak (higher fl)
  higher_order w = record {
    irrefl = λ x. w.irrefl x.0;
    asym = λ x y h. w.asym y.0 x.0 h;
    neg_trans = λ x y z h k. w.neg_trans z.0 y.0 x.0 k h;
  }

  -- the pairs whose score is neither above nor below `x`
  abbrev pub tied : Float → Float × ℕ → Bool
  tied x p = not (less x p.0) && not (less p.0 x)

  -- the order that is wanted: the higher score first
  abbrev pub above : Float × ℕ → Float × ℕ → Bool
  above a b = less b.0 a.0

  -- The answer lists pairs of a score and an index: each index comes with the score of its candidate, the
  -- scores fall, and of the candidates that tie with a score the first stays first.
  pub record Ranks (req : RerankRequest) (resp : RerankResponse Float) : Type 0 where
    pub pairs : List (Float × ℕ)
    pub indices_are : resp.reordered_indices ≡ map (λ p. pos p.1) pairs
    pub scores_are : resp.scores ≡ map (λ p. p.0) pairs
    pub scored : All (λ p. get_elem? (map (score_in fl req) req.candidates) p.1 ≡ some p.0) pairs
    pub falling : IsOrdered above pairs
    pub stable :
        (x : Float)
        → keep above (tied x) pairs
          ≡ keep above (tied x) (score_all fl (score_in fl req) 0 req.candidates)

  tied-IsTied : IsStrictWeak less → (x : Float) → IsTied (higher fl) (tied x)
  tied-IsTied w x p q hp hq = w.neg_trans q.0 x p.0 (ground arith) (ground arith)

  -- Where `<` is a strict weak order on the scores, the deterministic backend lists the candidates by
  -- falling score, each index with its candidate's score, and keeps the order of candidates that tie.
  pub rerank-Ranks :
      (elapsed : ℕ) (req : RerankRequest) → IsStrictWeak less → Ranks req (rerank fl elapsed req)
  unfolding ranked
  rerank-Ranks elapsed req w =
      let (id, order, scores) = rerank-ranked elapsed req in
      let all = score_all fl (score_in fl req) 0 req.candidates in
      record {
        pairs = sort (higher fl) all;
        indices_are = order;
        scores_are = scores;
        scored = sort-All (higher fl) _ all (score_all-scores (score_in fl req) [] req.candidates);
        falling = sort-IsOrdered (higher fl) (higher_order w) all;
        stable = λ x. sort-keep (higher fl) (tied x) (tied-IsTied w x) all;
      }
