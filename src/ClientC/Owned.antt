-- ===== src/ClientC/Owned.antt =====
-- src/client/client_c.cc: what `dafeng_client_rerank` hands to its caller, and who owns it.
use dafeng_wubi.Prelude.{
  ℕ, ◌<◌, Bool, true, false, List, [], ◌∷◌, Option, none, some, ◌≡◌, refl, arith, ◌⊎◌, inl, inr,
  length,
}
use dafeng_wubi.Prelude.Int.{ℤ}
use dafeng_wubi.Endpoint.{Connection}
use dafeng_wubi.Protocol.{RerankRequest, RerankResponse}
use dafeng_wubi.Protocol.Msgpack.{Msgpack}
use dafeng_wubi.Client.{Clock, Dialer, Client, rerank}
use dafeng_wubi.ClientC.{
  RerankResult, empty_result, Caller, not_negative, hand_over, after_rerank, rerank_for,
  dafeng_client_rerank, dafeng_rerank_result_free,
}

-- the numbers that the caller finds at `indices`
abbrev pub numbers : RerankResult → List ℤ
numbers r = elim r.indices [ none ↦ [] | some is ↦ is ]

-- The result hands over the response.
abbrev pub Holds : {Float : Type 0} → RerankResponse Float → RerankResult → Type 0
Holds resp r =
    (numbers r ≡ resp.reordered_indices)
    × (r.count ≡ length (numbers r))
    × (r.latency_us ≡ resp.latency_us)
    × (r.model_version ≡ resp.model_version)

-- The result of a call, for the outcome of `malloc` and the answer of the C++ client: it fails where there is no answer, and where the answer has
-- indices and there is no buffer for them.
unfoldable pub Handed :
    {C Float : Type 0} → (allocated : Bool) → Option (RerankResponse Float) → ℕ × Caller C → Type 0
Handed {Float = Float} allocated answer (status, c) =
    ((resp : RerankResponse Float) × (r : RerankResult) × (answer ≡ some resp)
      × ((allocated ≡ true) ⊎ (resp.reordered_indices ≡ []))
      × (status ≡ 1)
      × (c.out_result ≡ some r)
      × Holds resp r)
    ⊎ (((answer ≡ none)
          ⊎ ((resp : RerankResponse Float) × (answer ≡ some resp)
              × (allocated ≡ false)
              × (0 < length resp.reordered_indices)))
        × (status ≡ 0)
        × (c.out_result ≡ some empty_result))

hand_over-Handed :
    {C Float : Type 0} (allocated : Bool) (request_id : ℕ) (indices : List ℤ) (scores : List Float)
    (latency_us model_version live : ℕ) (client : C)
    → let resp : RerankResponse Float = record {
      request_id = request_id;
      reordered_indices = indices;
      scores = scores;
      latency_us = latency_us;
      model_version = model_version;
    } in
      Handed allocated (some resp) (hand_over allocated resp live client)
      × ((dafeng_rerank_result_free (hand_over allocated resp live client).1).live ≡ live)
unfolding Handed hand_over dafeng_rerank_result_free
hand_over-Handed allocated id [] scores latency version live client =
    (inl (_, _, refl, inr refl, refl, refl, (refl, refl, refl, refl)), omega arith)
hand_over-Handed true id (i ∷ is) scores latency version live client =
    (inl (_, _, refl, inl refl, refl, refl, (refl, refl, refl, refl)), omega arith)
hand_over-Handed false id (i ∷ is) scores latency version live client =
    (inr (inr (_, refl, refl, omega arith), refl, refl), refl)

after_rerank-Handed :
    {C Float : Type 0} (allocated : Bool) (answer : Option (RerankResponse Float)) (live : ℕ)
    (client : C)
    → Handed allocated answer (after_rerank allocated answer live client)
      × ((dafeng_rerank_result_free (after_rerank allocated answer live client).1).live ≡ live)
unfolding Handed after_rerank hand_over dafeng_rerank_result_free
after_rerank-Handed allocated none live client = (inr (inl refl, refl, refl), refl)
after_rerank-Handed allocated (some resp) live client =
    hand_over-Handed allocated resp.request_id resp.reordered_indices resp.scores resp.latency_us
      resp.model_version live client

module _ (m : Msgpack) {conn : Connection} (dialer : Dialer conn) where
  -- A call with a client and a place for the result returns 1 exactly where the C++ client has an answer, for the timeout or 0 where it is
  -- negative, and either `malloc` gives a buffer or the answer has no indices; the place then holds the answer, with the number of its indices.
  -- Otherwise it returns 0 and the place is empty. When the caller has freed the result, the buffers in use are those from before the
  -- call.
  pub dafeng_client_rerank-Handed :
      (allocated : Bool) (req : RerankRequest) (timeout_ms : ℤ) (clock : Clock) (live : ℕ)
      (client : Client dialer) (old : RerankResult)
      → let c : Caller (Client dialer) = record {
        live = live;
        client = some client;
        out_result = some old;
      } in
        let done = dafeng_client_rerank m dialer allocated req timeout_ms clock c in
        Handed allocated (rerank m dialer req (not_negative timeout_ms) clock client).0 done
        × ((dafeng_rerank_result_free done.1).live ≡ live)
  unfolding dafeng_client_rerank rerank_for
  dafeng_client_rerank-Handed allocated req timeout_ms clock live client old =
      let answer = rerank m dialer req (not_negative timeout_ms) clock client in
      after_rerank-Handed allocated answer.0 live answer.1
