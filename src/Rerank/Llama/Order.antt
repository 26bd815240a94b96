-- ===== src/Rerank/Llama/Order.antt =====
-- The answer of the llama.cpp backend, where the model gives logits and where it gives none.
use dafeng_wubi.Prelude.{
  ℕ, ◌-◌, drop, ltb, if◌then◌else◌, Bool, true, false, not, ◌&&◌, List, [], ◌∷◌, Option, none, some,
  map, ◌≡◌, length, Bytes, All, get_elem?,
}
use dafeng_wubi.Prelude.Int.{ℤ, pos, negsuc}
use dafeng_wubi.Prelude.Sort.{IsOrdered, keep}
use dafeng_wubi.Protocol.{RerankRequest, RerankResponse}
use dafeng_wubi.Rerank.Contract.{indices, numbered}
use dafeng_wubi.Rerank.Llama.{Model, tokenize, or_bos, score_from}

module _ (model : Model) where
  open model use {Float, less, lowest}

  -- the logits behind the last 256 tokens of a prompt; `none` where it has no token or llama.cpp fails
  abbrev pub logits_of : (prompt : List ℤ) → Option (ℕ → Float)
  logits_of [] = none
  logits_of (t ∷ prompt) = model.logits (drop (length (t ∷ prompt) - 256) (t ∷ prompt))

  -- the prompt of a request
  abbrev pub prompt_of : RerankRequest → List ℤ
  prompt_of req = or_bos model (tokenize model req.context_before true)

  -- what a first token scores: its logit, or the lowest score where it is none of the vocabulary
  abbrev pub token_score : (ℕ → Float) → List ℤ → Float
  token_score logits [] = lowest
  token_score logits (negsuc n ∷ tokens) = lowest
  token_score logits (pos t ∷ tokens) = if ltb t model.vocab_size then logits t else lowest

  -- what a candidate's first token scores
  abbrev pub score_of : (ℕ → Float) → Bytes → Float
  score_of logits cand = token_score logits (tokenize model cand false)

  -- the pairs whose score is neither above nor below `x`
  abbrev pub tied : Float → Float × ℕ → Bool
  tied x p = not (less x p.0) && not (less p.0 x)

  -- the order that is wanted: the higher score first
  abbrev pub above : Float × ℕ → Float × ℕ → Bool
  above a b = less b.0 a.0

  -- The answer lists pairs of a score and an index: each index comes with the score of its candidate, the scores fall, and of the candidates
  -- that tie with a score the first stays first.
  pub record Ranked (logits : ℕ → Float) (req : RerankRequest) (resp : RerankResponse Float)
      : Type 0 where
    pub pairs : List (Float × ℕ)
    pub indices_are : resp.reordered_indices ≡ map (λ p. pos p.1) pairs
    pub scores_are : resp.scores ≡ map (λ p. p.0) pairs
    pub scored : All (λ p. get_elem? (map (score_of logits) req.candidates) p.1 ≡ some p.0) pairs
    pub falling : IsOrdered above pairs
    pub stable :
        (x : Float)
        → keep above (tied x) pairs
          ≡ keep above (tied x) (numbered (score_of logits) 0 req.candidates)

  -- the answer where the model gives these logits, or none
  unfoldable pub AnswersBy : Option (ℕ → Float) → RerankRequest → RerankResponse Float → Type 0
  AnswersBy none req resp =
      (resp.reordered_indices ≡ indices 0 (length req.candidates)) × (resp.scores ≡ [])
  AnswersBy (some logits) req resp = Ranked logits req resp

  -- what `ScoreCandidates` gives for the logits
  abbrev scored_by : Option (ℕ → Float) → List Bytes → List (Float × ℕ)
  scored_by o cands = elim o [ none ↦ [] | some logits ↦ score_from model logits 0 cands ]
