-- ===== src/Tests/RerankTests.antt =====
-- The rerankers of src/daemon at concrete inputs, with scores in tenths.
use dafeng_wubi.Prelude.{ℕ, ◌+◌, ◌-◌, ◌*◌, ◌/◌, [], ◌∷◌, some, ◌≡◌, refl, arith, ltb, codes}
use dafeng_wubi.Prelude.Int.{pos, negsuc}
use dafeng_wubi.Prelude.Sort.{IsStrictWeak}
use dafeng_wubi.Protocol.{RerankRequest}
use dafeng_wubi.Utf8.Literal.{utf8}
use dafeng_wubi.Rerank.Floats.{Floats}
use dafeng_wubi.Rerank.Mock.{mock_rerank}
use dafeng_wubi.Rerank.Deterministic.{rerank}
use dafeng_wubi.Rerank.Deterministic.Order.{rerank-Ranks, Ranks}
use dafeng_wubi.Rerank.Llama.{Model}

abbrev tenths : Floats
tenths = record {
  Float = ℕ;
  less = ltb;
  zero = 0;
  half = 5;
  tenth = 1;
  five = 50;
  ten = 100;
  add = λ x y. x + y;
  sub = λ x y. x - y;
  mul = λ x y. x * y / 10;
  of_int = λ n. n * 10;
}

tenths-IsStrictWeak : IsStrictWeak tenths.less
tenths-IsStrictWeak = record {
  irrefl = λ x. ground arith;
  asym = λ x y h. ground arith;
  neg_trans = λ x y z h k. ground arith;
}

abbrev request : RerankRequest
request = record {
  request_id = 7;
  code = codes "gd";
  context_before = utf8 "今";
  candidates = utf8 "空" ∷ utf8 "天" ∷ utf8 "气" ∷ [];
  app_id = [];
}

mock_order : (mock_rerank {Float = ℕ} 12 request).reordered_indices ≡ pos 2 ∷ pos 1 ∷ pos 0 ∷ []
unfolding mock_rerank
mock_order = refl

rerank-Ranks_example : Ranks tenths request (rerank tenths 12 request)
rerank-Ranks_example = rerank-Ranks tenths 12 request tenths-IsStrictWeak

-- A model with one token for every text.
abbrev one_token : Model
one_token = record {
  Float = ℕ;
  less = ltb;
  lowest = 0;
  token_count = λ s bos. negsuc 0;
  tokens = λ s bos size. some (pos 3 ∷ []);
  bos = some (pos 1);
  vocab_size = 100;
  logits = λ prompt. some (λ t. t + 1);
}
