-- ===== src/Server.antt =====
-- src/daemon/server.cc and server.h: the counters, the handling of one message, and the loop over a
-- connection. The reranker, the logger and the clock are the interface `Services`; an atomic operation is
-- one step of the state.
pub mod Run
pub mod Stream
pub mod Serving
pub mod Frames
use dafeng_wubi.Prelude.{
  ℕ, zero, suc, ◌+◌, ◌%◌, ◌^◌, Bool, true, false, List, [], ◌∷◌, Option, none, some, if◌then◌else◌,
  ltb, Bytes,
}
use dafeng_wubi.Endpoint.{Connection}
use dafeng_wubi.Protocol.{RerankRequest, RerankResponse, CommitEvent, StatsResponse, Message}
use dafeng_wubi.Protocol.Frame.{frame_header_bytes, read_frame_length, encode_frame}
use dafeng_wubi.Protocol.Msgpack.{Msgpack}
use dafeng_wubi.Protocol.Body.{encode_body, decode_body}

-- `IRerankService` and `ICommitLogger` of services.h, and the clock: what they read and change is `Env`.
pub record Services (Float : Type 0) : Type 1 where
  pub Env : Type 0
  pub rerank : RerankRequest → Env → RerankResponse Float × Env
  pub record_commit : CommitEvent → Env → Env
  pub uptime_sec : Env → ℕ

-- the members of `Server`
pub record Server (Env : Type 0) : Type 0 where
  pub rerank_count : ℕ
  pub ping_count : ℕ
  pub commit_count : ℕ
  pub error_count : ℕ
  pub rerank_latency_sum_us : ℕ
  pub rerank_latency_max_us : ℕ
  pub rerank_model_version : ℕ
  pub env : Env

-- the initialisers of the members
abbrev pub initial : {Env : Type 0} → Env → Server Env
initial env = record {
  rerank_count = 0;
  ping_count = 0;
  commit_count = 0;
  error_count = 0;
  rerank_latency_sum_us = 0;
  rerank_latency_max_us = 0;
  rerank_model_version = 0;
  env = env;
}

-- `fetch_add` on `std::atomic<uint64_t>`
abbrev pub fetch_add : ℕ → ℕ → ℕ
fetch_add counter n = (counter + n) % 2 ^ 64

-- the loop on `compare_exchange_weak`; an item of the list is the value that another thread has stored when
-- an exchange fails, which then stands in `prev_max`
unfoldable pub raise_max : ℕ → ℕ → List ℕ → ℕ
raise_max latency_us prev_max [] = if ltb prev_max latency_us then latency_us else prev_max
raise_max latency_us prev_max (seen ∷ failures) =
    let again = raise_max latency_us seen failures in
    if ltb prev_max latency_us then again else prev_max

module _ (m : Msgpack) (svc : Services m.Float) where
  open m use {Float}
  open svc use {Env}

  -- `GetStats`, whose `request_id` is 0
  unfoldable pub get_stats : Server Env → StatsResponse
  get_stats s = record {
    request_id = 0;
    rerank_count = s.rerank_count;
    ping_count = s.ping_count;
    commit_count = s.commit_count;
    error_count = s.error_count;
    rerank_latency_sum_us = s.rerank_latency_sum_us;
    rerank_latency_max_us = s.rerank_latency_max_us;
    rerank_model_version = s.rerank_model_version;
    uptime_sec = svc.uptime_sec s.env;
  }

  -- the branch of `HandleConnection` for a `RerankRequest`, where no exchange fails
  unfoldable pub handle_rerank : RerankRequest → Server Env → Option (Message Float) × Server Env
  unfolding raise_max
  handle_rerank req s =
      let (resp, env') = svc.rerank req s.env in
      (
        some (Message.rerank_response resp),
        record s {
          rerank_count = fetch_add s.rerank_count 1;
          rerank_latency_sum_us = fetch_add s.rerank_latency_sum_us resp.latency_us;
          rerank_latency_max_us = raise_max resp.latency_us s.rerank_latency_max_us [];
          rerank_model_version = resp.model_version;
          env = env';
        },
      )

  -- the chain of `std::get_if` of `HandleConnection`: the reply and the state
  unfoldable pub handle_message : Message Float → Server Env → Option (Message Float) × Server Env
  unfolding handle_rerank get_stats
  handle_message (Message.rerank_request req) s = handle_rerank req s
  handle_message (Message.ping ping) s = (
    some (Message.pong (record { request_id = ping.request_id })),
    record s { ping_count = fetch_add s.ping_count 1 },
  )
  handle_message (Message.commit_event ev) s = (
    none,
    record s { env = svc.record_commit ev s.env; commit_count = fetch_add s.commit_count 1 },
  )
  handle_message (Message.stats_request sreq) s =
      (some (Message.stats_response (record (get_stats s) { request_id = sreq.request_id })), s)
  handle_message _ s = (none, record s { error_count = fetch_add s.error_count 1 })

  module _ (conn : Connection) where
    -- whether the loop goes on, and the state
    abbrev pub Round : Type 0
    Round = Bool × Server Env × conn.State

    -- from `if (reply)` to the end of the loop's body
    unfoldable pub send_reply : Option (Message Float) → Server Env → conn.State → Round
    send_reply none s c = (true, s, c)
    send_reply (some reply) s c =
        let (ok, c') = conn.write_all (encode_frame (encode_body m reply)) 5000 c in (ok, s, c')

    -- from the test of `msg_opt`
    unfoldable pub serve_message : Option (Message Float) → Server Env → conn.State → Round
    serve_message none s c = (false, s, c)
    serve_message (some msg) s c = let (reply, s') = handle_message msg s in send_reply reply s' c

    -- from the test of the second `ReadFull`
    unfoldable pub serve_body : Option Bytes → Server Env → conn.State → Round
    serve_body none s c = (false, s, c)
    serve_body (some body) s c = serve_message (decode_body m (some body)) s c

    -- from the test of `len_opt`
    unfoldable pub serve_length : Option ℕ → Server Env → conn.State → Round
    serve_length none s c = (false, s, c)
    serve_length (some len) s c = let (body, c') = conn.read_full len 5000 c in serve_body body s c'

    -- from the test of the first `ReadFull`
    unfoldable pub serve_header : Option Bytes → Server Env → conn.State → Round
    serve_header none s c = (false, s, c)
    serve_header (some header) s c = serve_length (read_frame_length (some header)) s c

    -- one round of `HandleConnection`
    unfoldable pub serve_round : Server Env → conn.State → Round
    serve_round s c =
        if conn.is_connected c
        then (let (header, c') = conn.read_full frame_header_bytes 60_000 c in
            serve_header header s c')
        else (false, s, c)

    -- `HandleConnection` for so many rounds; `none` where they do not end it
    unfoldable pub handle_connection :
        ℕ → Server Env → conn.State → Option (Server Env × conn.State)
    unfolding serve_round
    handle_connection zero s c = none
    handle_connection (suc n) s c =
        let (goes_on, s', c') = serve_round s c in
        let rest = handle_connection n s' c' in if goes_on then rest else some (s', c')
