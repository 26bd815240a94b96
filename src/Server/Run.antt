-- ===== src/Server/Run.antt =====
-- What the server of src/daemon/server.cc owes its clients: the replies and the counters after a list of
-- messages, whatever the connection they came on.
use dafeng_wubi.Prelude.{
  ℕ, ◌+◌, ◌^◌, ◌≤◌, ◌<◌, max, Bool, true, false, List, [], ◌∷◌, Option, none, some, ◌≡◌, refl,
  arith, if◌then◌else◌, map, All,
}
use dafeng_wubi.Protocol.{Message, MessageType, RerankRequest}
use dafeng_wubi.Protocol.Msgpack.{Msgpack}
use dafeng_wubi.Server.{Services, Server, fetch_add, raise_max, handle_message}

-- However often other threads come first, the loop on `compare_exchange_weak` leaves a value that is at least
-- the latency, and at least any bound that the values which stood there before keep.
pub raise_max_lem :
    (latency_us prev_max bound : ℕ) (failures : List ℕ)
    → bound ≤ prev_max
    → All (λ seen. bound ≤ seen) failures
    → (latency_us ≤ raise_max latency_us prev_max failures)
      × (bound ≤ raise_max latency_us prev_max failures)
unfolding raise_max
raise_max_lem latency_us prev_max bound [] h hs = (ground arith, ground arith)
raise_max_lem latency_us prev_max bound (seen ∷ failures) h (hs, hss) =
    let rest = raise_max_lem latency_us seen bound failures hs hss in (ground arith, ground arith)

raise_max-max :
    (latency_us prev_max : ℕ) → raise_max latency_us prev_max [] ≡ max prev_max latency_us
unfolding raise_max
raise_max-max latency_us prev_max = ground arith

-- a reply before other replies
abbrev pub reply_first {ℓ} : {A : Type ℓ} → Option A → List A → List A
reply_first none l = l
reply_first (some x) l = x ∷ l

abbrev pub one_if : Bool → ℕ
one_if b = if b then 1 else 0

abbrev pub sum : List ℕ → ℕ
sum [] = 0
sum (n ∷ l) = n + sum l

abbrev pub maximum : ℕ → List ℕ → ℕ
maximum n [] = n
maximum n (x ∷ l) = maximum (max n x) l

module _ {Float : Type 0} where
  abbrev pub is_rerank_request : Message Float → Bool
  is_rerank_request (Message.rerank_request req) = true
  is_rerank_request _ = false

  abbrev pub is_ping : Message Float → Bool
  is_ping (Message.ping msg) = true
  is_ping _ = false

  abbrev pub is_commit_event : Message Float → Bool
  is_commit_event (Message.commit_event ev) = true
  is_commit_event _ = false

  -- the messages that only the server may send
  abbrev pub is_client_bound : Message Float → Bool
  is_client_bound (Message.rerank_response msg) = true
  is_client_bound (Message.pong msg) = true
  is_client_bound (Message.error msg) = true
  is_client_bound (Message.stats_response msg) = true
  is_client_bound _ = false

  abbrev pub count : (Message Float → Bool) → List (Message Float) → ℕ
  count p [] = 0
  count p (msg ∷ msgs) = one_if (p msg) + count p msgs

  -- The latencies that the rerank answers among the replies carry.
  abbrev pub latencies : List (Message Float) → List ℕ
  latencies [] = []
  latencies (Message.rerank_response resp ∷ msgs) = resp.latency_us ∷ latencies msgs
  latencies (_ ∷ msgs) = latencies msgs

  -- The type and number that the reply to a message must have.
  abbrev pub awaited : Message Float → Option (MessageType × ℕ)
  awaited (Message.rerank_request req) = some (MessageType.rerank_response, req.request_id)
  awaited (Message.ping ping) = some (MessageType.pong, ping.request_id)
  awaited (Message.stats_request sreq) = some (MessageType.stats_response, sreq.request_id)
  awaited _ = none

  abbrev pub all_awaited : List (Message Float) → List (MessageType × ℕ)
  all_awaited [] = []
  all_awaited (msg ∷ msgs) = reply_first (awaited msg) (all_awaited msgs)

  -- the type and number of a message; a commit event has no number
  abbrev pub tag_of : Message Float → MessageType × ℕ
  tag_of (Message.rerank_request msg) = (MessageType.rerank_request, msg.request_id)
  tag_of (Message.rerank_response msg) = (MessageType.rerank_response, msg.request_id)
  tag_of (Message.commit_event msg) = (MessageType.commit_event, 0)
  tag_of (Message.ping msg) = (MessageType.ping, msg.request_id)
  tag_of (Message.pong msg) = (MessageType.pong, msg.request_id)
  tag_of (Message.error msg) = (MessageType.error, msg.request_id)
  tag_of (Message.stats_request msg) = (MessageType.stats_request, msg.request_id)
  tag_of (Message.stats_response msg) = (MessageType.stats_response, msg.request_id)

module _ (m : Msgpack) (svc : Services m.Float) where
  open m use {Float}
  open svc use {Env}

  -- The messages one after the other: the replies, and the server afterwards.
  unfoldable pub run : List (Message Float) → Server Env → List (Message Float) × Server Env
  run [] s = ([], s)
  run (msg ∷ msgs) s =
      let (reply, s1) = handle_message m svc msg s in
      let (replies, s2) = run msgs s1 in (reply_first reply replies, s2)

  tags-reply_first :
      (reply : Option (Message Float)) (t : Option (MessageType × ℕ)) (l : List (Message Float))
      (ts : List (MessageType × ℕ))
      → map tag_of (reply_first reply []) ≡ reply_first t []
      → map tag_of l ≡ ts
      → map tag_of (reply_first reply l) ≡ reply_first t ts
  tags-reply_first none none l ts e f = f
  tags-reply_first none (some t) l ts e f = cc
  tags-reply_first (some r) none l ts e f = cc
  tags-reply_first (some r) (some t) l ts e f = ground arith

  module _
      (keeps_id : (req : RerankRequest) (env : Env)
        → (svc.rerank req env).0.request_id ≡ req.request_id) where
    handle_message_tag :
        (msg : Message Float) (s : Server Env)
        → map tag_of (reply_first (handle_message m svc msg s).0 []) ≡ reply_first (awaited msg) []
    unfolding handle_message
    handle_message_tag (Message.rerank_request req) s = ground (arith, keeps_id req s.env)
    handle_message_tag (Message.rerank_response req) s = refl
    handle_message_tag _ s = refl

    -- The replies are, in the order of the messages, one for each rerank request, ping and stats request,
    -- of the type that belongs to it and with its number, and nothing else; the reranker keeps the number.
    pub run-tags :
        (msgs : List (Message Float)) (s : Server Env)
        → map tag_of (run msgs s).0 ≡ all_awaited msgs
    unfolding run
    run-tags [] s = refl
    run-tags (msg ∷ msgs) s =
        let (reply, s1) = handle_message m svc msg s in
        tags-reply_first reply (awaited msg) (run msgs s1).0 (all_awaited msgs)
          (handle_message_tag msg s) (run-tags msgs s1)

  -- Every counter is below 2^64, as its type has it.
  abbrev pub IsCounting : Server Env → Type 0
  IsCounting s =
      (s.rerank_count < 2 ^ 64)
      × (s.ping_count < 2 ^ 64)
      × (s.commit_count < 2 ^ 64)
      × (s.error_count < 2 ^ 64)
      × (s.rerank_latency_sum_us < 2 ^ 64)

  -- How the counters stand after messages `msgs` to which the replies were `replies`.
  abbrev pub Counted :
      List (Message Float) → List (Message Float) → Server Env → Server Env → Type 0
  Counted msgs replies s s' =
      (s'.rerank_count ≡ fetch_add s.rerank_count (count is_rerank_request msgs))
      × (s'.ping_count ≡ fetch_add s.ping_count (count is_ping msgs))
      × (s'.commit_count ≡ fetch_add s.commit_count (count is_commit_event msgs))
      × (s'.error_count ≡ fetch_add s.error_count (count is_client_bound msgs))
      × (s'.rerank_latency_sum_us ≡ fetch_add s.rerank_latency_sum_us (sum (latencies replies)))
      × (s'.rerank_latency_max_us ≡ maximum s.rerank_latency_max_us (latencies replies))

  fetch_add-0 : (c : ℕ) → c < 2 ^ 64 → c ≡ fetch_add c 0
  fetch_add-0 c h = omega arith

  fetch_add-fetch_add : (c a b : ℕ) → fetch_add (fetch_add c a) b ≡ fetch_add c (a + b)
  fetch_add-fetch_add c a b = omega arith

  handle_message-Counted :
      (msg : Message Float) (s : Server Env)
      → IsCounting s
      → let (reply, s') = handle_message m svc msg s in
        Counted (msg ∷ []) (reply_first reply []) s s' × IsCounting s'
  unfolding handle_message
  handle_message-Counted (Message.rerank_request req) s h =
      let resp = (svc.rerank req s.env).0 in
      ground (arith, raise_max-max resp.latency_us s.rerank_latency_max_us)
  handle_message-Counted (Message.rerank_response resp) s h = ground arith
  handle_message-Counted (Message.ping req) s h = ground arith
  handle_message-Counted (Message.commit_event req) s h = ground arith
  handle_message-Counted (Message.pong req) s h = ground arith
  handle_message-Counted (Message.error req) s h = ground arith
  handle_message-Counted (Message.stats_request req) s h = ground arith
  handle_message-Counted (Message.stats_response req) s h = ground arith

  latencies-reply_first :
      (reply : Option (Message Float)) (l : List (Message Float)) (n : ℕ)
      → (sum (latencies (reply_first reply l))
          ≡ sum (latencies (reply_first reply [])) + sum (latencies l))
        × (maximum n (latencies (reply_first reply l))
            ≡ maximum (maximum n (latencies (reply_first reply []))) (latencies l))
  latencies-reply_first none l n = (omega arith, refl)
  latencies-reply_first (some (Message.rerank_response resp)) l n = (omega arith, refl)
  latencies-reply_first (some _) l n = (omega arith, refl)

  Counted-cons :
      (msg : Message Float) (msgs : List (Message Float)) (reply : Option (Message Float))
      (replies : List (Message Float)) (s s1 s2 : Server Env)
      → Counted (msg ∷ []) (reply_first reply []) s s1
      → Counted msgs replies s1 s2
      → Counted (msg ∷ msgs) (reply_first reply replies) s s2
  Counted-cons msg msgs reply replies s s1 s2 h k =
      ground (arith, latencies-reply_first reply replies s.rerank_latency_max_us)

  -- From counters below 2^64, after any messages each counter has grown, modulo 2^64, by the number of messages of its kind, the sum
  -- of the latencies by those in the replies, and the maximum is the largest of them and its old value.
  pub run-Counted :
      (msgs : List (Message Float)) (s : Server Env)
      → IsCounting s
      → Counted msgs (run msgs s).0 s (run msgs s).1
  unfolding run
  run-Counted [] s h = ground arith
  run-Counted (msg ∷ msgs) s h =
      let (reply, s1) = handle_message m svc msg s in
      let (one, h1) = handle_message-Counted msg s h in
      Counted-cons msg msgs reply (run msgs s1).0 s s1 (run msgs s1).1 one (run-Counted msgs s1 h1)
