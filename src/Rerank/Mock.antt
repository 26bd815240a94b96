-- ===== src/Rerank/Mock.antt =====
-- src/daemon/mock_reranker.cc: the reranker that reverses the candidates.
use dafeng_wubi.Prelude.{ℕ, zero, suc, ◌%◌, List, [], ◌∷◌, ◌++◌, ◌≡◌, refl, inl, length}
use mathlib.Core.List.{Perm, perm_middle, append-nil}
use mathlib.Core.List.Perm
use native.Mathlib.Nat.{zero-add}
use dafeng_wubi.Prelude.Int.{ℤ, pos}
use dafeng_wubi.Protocol.{RerankRequest, RerankResponse}
use dafeng_wubi.Rerank.Contract.{indices, Answers, indices-suc}

-- `for (int i = n - 1; i >= 0; --i)`
unfoldable pub count_down : ℕ → List ℤ
count_down zero = []
count_down (suc i) = pos i ∷ count_down i

-- `MockReverseReranker::Rerank`; `elapsed` is what the clock gives
unfoldable pub mock_rerank : {Float : Type 0} → ℕ → RerankRequest → RerankResponse Float
unfolding count_down
mock_rerank elapsed req = record {
  request_id = req.request_id;
  reordered_indices = count_down (length req.candidates);
  scores = [];
  latency_us = elapsed % 0x100000000;
  model_version = 0;
}

swapped : {m n : ℕ} (l : List ℤ) → m ≡ n → Perm (l ++ pos m ∷ []) (pos n ∷ l)
swapped {m} {n} l e = rw e (rw append-nil at (perm_middle {a = pos n} l []))

count_down-perm : (n : ℕ) → Perm (count_down n) (indices 0 n)
unfolding count_down
count_down-perm zero = Perm.rfl
count_down-perm (suc n) = rw indices-suc (
    Perm.trans (Perm.cons (pos n) (count_down-perm n))
      (Perm.symm (swapped (indices 0 n) (zero-add n))))

-- The mock answers every request with a permutation of its candidates and no scores.
pub mock_rerank-Answers :
    {Float : Type 0} (elapsed : ℕ) (req : RerankRequest)
    → Answers {Float = Float} req (mock_rerank elapsed req)
unfolding mock_rerank
mock_rerank-Answers elapsed req = record {
  same_id = refl;
  permutes = count_down-perm (length req.candidates);
  scores_fit = inl refl;
}
