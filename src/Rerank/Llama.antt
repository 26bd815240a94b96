-- ===== src/Rerank/Llama.antt =====
-- src/daemon/reranker_llamacpp.cc: the candidates by the logit of their first token. llama.cpp is the
-- parameter `Model`; the members that hold it are never null after `Initialize`.
pub mod Order
use dafeng_wubi.Prelude.{
  ℕ, suc, ◌-◌, ◌%◌, Bool, true, false, List, [], ◌∷◌, Option, none, some, map, ◌≡◌, refl, ap, subst,
  inl, inr, ◌⊎◌, arith, ltb, leb, if◌then◌else◌, length, drop, is_empty, Bytes, Bool-cases,
}
use mathlib.Core.List.{Perm}
use mathlib.Core.List.Perm
use dafeng_wubi.Prelude.Int.{ℤ, pos, negsuc}
use dafeng_wubi.Prelude.Sort.{sort, sort-perm}
use dafeng_wubi.Protocol.{RerankRequest, RerankResponse}
use dafeng_wubi.Rerank.Contract.{indices, Answers, length-maps}

-- The calls of llama.cpp. `token_count` is the result of `llama_tokenize` without a buffer; `tokens` are those
-- that it writes to a buffer of the given size, `none` where it gives an error; `logits` after a prompt is
-- `none` where `llama_decode` fails or `llama_get_logits_ith` gives null.
pub record Model : Type 1 where
  pub Float : Type 0
  pub less : Float → Float → Bool
  pub lowest : Float
  pub token_count : Bytes → (add_bos : Bool) → ℤ
  pub tokens : Bytes → (add_bos : Bool) → (size : ℕ) → Option (List ℤ)
  pub bos : Option ℤ
  pub vocab_size : ℕ
  pub logits : List ℤ → Option (ℕ → Float)

module _ (model : Model) where
  open model use {Float, lowest}

  -- `Tokenize` from `needed`, the negated count, on
  unfoldable pub tokenize_sized : Bytes → Bool → ℤ → List ℤ
  tokenize_sized s add_bos (pos count) = []
  tokenize_sized s add_bos (negsuc n) = elim (model.tokens s add_bos (suc n)) [
    | none ↦ []
    | some out ↦ out
  ]

  -- `Tokenize`
  unfoldable pub tokenize : Bytes → Bool → List ℤ
  unfolding tokenize_sized
  tokenize s add_bos =
      if is_empty s then [] else tokenize_sized s add_bos (model.token_count s add_bos)

  -- the fallback to one BOS
  unfoldable pub or_bos : List ℤ → List ℤ
  or_bos [] = elim model.bos [ none ↦ [] | some bos ↦ bos ∷ [] ]
  or_bos (t ∷ prompt) = t ∷ prompt

  -- the erasure of all but the last 256 tokens
  unfoldable pub trim : List ℤ → List ℤ
  trim prompt = if ltb 256 (length prompt) then drop (length prompt - 256) prompt else prompt

  -- the body of the loop over the candidates
  unfoldable pub score_tokens : (ℕ → Float) → List ℤ → Float
  score_tokens logits [] = lowest
  score_tokens logits (negsuc n ∷ _) = lowest
  score_tokens logits (pos first ∷ _) = if leb model.vocab_size first then lowest else logits first

  -- the loop over the candidates, from index `i`
  unfoldable pub score_from : (ℕ → Float) → ℕ → List Bytes → List (Float × ℕ)
  unfolding tokenize score_tokens
  score_from logits i [] = []
  score_from logits i (cand ∷ cands) =
      (score_tokens logits (tokenize cand false), i) ∷ score_from logits (suc i) cands

  unfoldable pub score_prompt : List ℤ → List Bytes → List (Float × ℕ)
  unfolding trim score_from
  score_prompt [] cands = []
  score_prompt (t ∷ prompt) cands = elim (model.logits (trim (t ∷ prompt))) [
    | none ↦ []
    | some logits ↦ score_from logits 0 cands
  ]

  -- `ScoreCandidates`
  unfoldable pub score_candidates : RerankRequest → List (Float × ℕ)
  unfolding tokenize or_bos score_prompt
  score_candidates req = score_prompt (or_bos (tokenize req.context_before true)) req.candidates

  -- `a.first > b.first`
  abbrev pub higher : Float × ℕ → Float × ℕ → Bool
  higher a b = model.less b.0 a.0

  -- what `Rerank` makes of `scored`
  unfoldable pub answer : ℕ → RerankRequest → List (Float × ℕ) → RerankResponse Float
  unfolding sort
  answer elapsed req [] = record {
    request_id = req.request_id;
    reordered_indices = indices 0 (length req.candidates);
    scores = [];
    latency_us = elapsed % 0x100000000;
    model_version = 3;
  }
  answer elapsed req (p ∷ scored) = record {
    request_id = req.request_id;
    reordered_indices = map (λ q. pos q.1) (sort higher (p ∷ scored));
    scores = map (λ q. q.0) (sort higher (p ∷ scored));
    latency_us = elapsed % 0x100000000;
    model_version = 3;
  }

  -- `Rerank`; `elapsed` is what the clock gives, in microseconds
  unfoldable pub llama_rerank : ℕ → RerankRequest → RerankResponse Float
  unfolding score_candidates answer
  llama_rerank elapsed req =
      if is_empty req.candidates
      then record {
        request_id = req.request_id;
        reordered_indices = [];
        scores = [];
        latency_us = 0;
        model_version = 3;
      }
      else answer elapsed req (score_candidates req)

  score_from-indices :
      (logits : ℕ → Float) (i : ℕ) (cands : List Bytes)
      → map (λ q. pos q.1) (score_from logits i cands) ≡ indices i (length cands)
  unfolding score_from
  score_from-indices logits i [] = refl
  score_from-indices logits i (c ∷ cands) =
      ap (◌∷◌ (pos i)) (score_from-indices logits (suc i) cands)

  score_prompt-indices :
      (prompt : List ℤ) (cands : List Bytes)
      → (score_prompt prompt cands ≡ [])
        ⊎ (map (λ q. pos q.1) (score_prompt prompt cands) ≡ indices 0 (length cands))
  unfolding score_prompt
  score_prompt-indices [] cands = inl refl
  score_prompt-indices (t ∷ prompt) cands =
      elim (model.logits (trim (t ∷ prompt)))
        as (λ o.
          (elim o [ none ↦ [] | some logits ↦ score_from logits 0 cands ] ≡ [])
          ⊎ (map (λ q. pos q.1) (elim o [ none ↦ [] | some logits ↦ score_from logits 0 cands ])
              ≡ indices 0 (length cands))) [
                | none ↦ inl refl
                | some logits ↦ inr (score_from-indices logits 0 cands)
              ]

  -- `ScoreCandidates` fails, or scores every candidate.
  score_candidates-indices :
      (req : RerankRequest)
      → (score_candidates req ≡ [])
        ⊎ (map (λ q. pos q.1) (score_candidates req) ≡ indices 0 (length req.candidates))
  unfolding score_candidates
  score_candidates-indices req =
      score_prompt-indices (or_bos (tokenize req.context_before true)) req.candidates

  answer-Answers :
      (elapsed : ℕ) (req : RerankRequest) (scored : List (Float × ℕ))
      → (scored ≡ []) ⊎ (map (λ q. pos q.1) scored ≡ indices 0 (length req.candidates))
      → Answers req (answer elapsed req scored)
  unfolding answer
  answer-Answers elapsed req [] h = record {
    same_id = refl;
    permutes = Perm.rfl;
    scores_fit = inl refl;
  }
  answer-Answers elapsed req (p ∷ scored) (inl h) = absurd (ground arith)
  answer-Answers elapsed req (p ∷ scored) (inr h) = record {
    same_id = refl;
    permutes = subst (Perm _) h (Perm.map (λ q. pos q.1) (sort-perm higher (p ∷ scored)));
    scores_fit = inr (length-maps (λ q. q.0) (λ q. pos q.1) (sort higher (p ∷ scored)));
  }

  no_candidates : (cands : List Bytes) → is_empty cands ≡ true → [] ≡ indices 0 (length cands)
  no_candidates [] h = refl
  no_candidates (c ∷ cands) h = cc

  -- Whatever the model answers, and where it fails, the backend gives a permutation of the candidates: their
  -- own order and no scores, or an order with a score for each.
  pub llama_rerank-Answers :
      (elapsed : ℕ) (req : RerankRequest) → Answers req (llama_rerank elapsed req)
  unfolding llama_rerank
  llama_rerank-Answers elapsed req = elim (Bool-cases (is_empty req.candidates)) [
    | inl e ↦ rw e (record {
      same_id = refl;
      permutes = subst (Perm []) (no_candidates req.candidates e) Perm.rfl;
      scores_fit = inl refl;
    })
    | inr e ↦
        rw e (answer-Answers elapsed req (score_candidates req) (score_candidates-indices req))
  ]
