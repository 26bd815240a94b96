-- ===== src/Client.antt =====
-- src/client/client.cc: the client of the daemon. Time is an argument: what the clock shows at each of its
-- readings, in milliseconds. The lock makes each method one step.
pub mod Failures
pub mod Exchange
use dafeng_wubi.Prelude.{
  ℕ, ◌+◌, ◌-◌, ◌%◌, Bool, true, false, Option, none, some, if◌then◌else◌, ◌==◌, Bytes,
}
use dafeng_wubi.Endpoint.{Connection}
use dafeng_wubi.Protocol.{RerankRequest, RerankResponse, CommitEvent, StatsResponse, Message}
use dafeng_wubi.Protocol.Frame.{frame_header_bytes, read_frame_length, encode_frame}
use dafeng_wubi.Protocol.Msgpack.{Msgpack}
use dafeng_wubi.Protocol.Body.{encode_body, decode_body}

-- The clock at the start of a method and at its three calls of `Remaining`.
pub record Clock : Type 0 where
  pub start : ℕ
  pub at_write : ℕ
  pub at_header : ℕ
  pub at_body : ℕ

-- `Remaining`, which is 0 past the deadline
unfoldable pub remaining : (deadline now : ℕ) → ℕ
remaining deadline now = deadline - now

-- `ConnectEndpoint`, and the destructor of a connection: `Net` is what they read and change.
pub record Dialer (conn : Connection) : Type 1 where
  pub Net : Type 0
  pub connect_endpoint : Net → Option conn.State × Net
  pub destroy : conn.State → Net → Net

-- the members of `Impl`; the address is the dialer's
pub record Client {conn : Connection} (dialer : Dialer conn) : Type 0 where
  pub conn_ : Option conn.State
  pub next_request_id : ℕ
  pub net : dialer.Net

module _ (m : Msgpack) {conn : Connection} (dialer : Dialer conn) where
  open m use {Float}

  -- `ResetLocked` with the connection `c`
  unfoldable pub reset : conn.State → Client dialer → Client dialer
  reset c client = record client { conn_ = none; net = dialer.destroy (conn.close c) client.net }

  unfoldable pub destroy_old : Option conn.State → dialer.Net → dialer.Net
  destroy_old none net = net
  destroy_old (some c) net = dialer.destroy c net

  -- `conn_ = ConnectEndpoint(address_)`
  unfoldable pub reconnect : Client dialer → Option conn.State × Client dialer
  unfolding destroy_old
  reconnect client =
      let (c, net') = dialer.connect_endpoint client.net in
      (c, record client { conn_ = c; net = destroy_old client.conn_ net' })

  unfoldable pub connected_or :
      Option conn.State → Client dialer → Option conn.State × Client dialer
  unfolding reconnect
  connected_or none client = reconnect client
  connected_or (some c) client = if conn.is_connected c then (some c, client) else reconnect client

  -- `EnsureConnectedLocked`, and the connection it leaves
  unfoldable pub ensure_connected : Client dialer → Option conn.State × Client dialer
  unfolding connected_or
  ensure_connected client = connected_or client.conn_ client

  -- from the test of `body_len`: the message, and the connection
  unfoldable pub read_body : Option ℕ → ℕ → conn.State → Option (Message Float) × conn.State
  read_body none timeout c = (none, c)
  read_body (some body_len) timeout c =
      let (body, c') = conn.read_full body_len timeout c in
      (elim body [ none ↦ none | some b ↦ decode_body m (some b) ], c')

  -- from the first `ReadFull` to the test of `msg`
  unfoldable pub read_header : Option Bytes → ℕ → conn.State → Option (Message Float) × conn.State
  unfolding read_body
  read_header none timeout c = (none, c)
  read_header (some header) timeout c = read_body (read_frame_length (some header)) timeout c

  -- the write and the two reads of a method
  unfoldable pub exchange :
      Message Float → ℕ → Clock → conn.State → Option (Message Float) × conn.State
  unfolding read_header remaining
  exchange msg deadline clock c =
      let (written, c1) =
        conn.write_all (encode_frame (encode_body m msg)) (remaining deadline clock.at_write) c in
      let (header, c2) =
        conn.read_full frame_header_bytes (remaining deadline clock.at_header) c1 in
      if written then read_header header (remaining deadline clock.at_body) c2 else (none, c1)

  -- the end of a method: a reply that is missing or not accepted resets the connection
  unfoldable pub conclude :
      {A : Type 0} → Option A → conn.State → Client dialer → Option A × Client dialer
  unfolding reset
  conclude none c client = (none, reset c client)
  conclude (some a) c client = (some a, record client { conn_ = some c })

  abbrev pub accepted :
      {A : Type 0} → (Message Float → Option A) → Option (Message Float) → Option A
  accepted accept none = none
  accepted accept (some msg) = accept msg

  -- What `Rerank`, `GetStats` and `Ping` do alike: `request` makes the message of its number, `accept` is the
  -- test of the reply.
  unfoldable pub call_on :
      {A : Type 0}
      → (ℕ → Message Float)
      → (ℕ → Message Float → Option A)
      → ℕ
      → Clock
      → Option conn.State
      → Client dialer
      → Option A × Client dialer
  unfolding exchange conclude
  call_on request accept timeout clock none client = (none, client)
  call_on request accept timeout clock (some c) client =
      let id = client.next_request_id in
      let (msg, c') = exchange (request id) (clock.start + timeout) clock c in
      conclude (accepted (accept id) msg) c'
        (record client { next_request_id = (id + 1) % 0x100000000 })

  unfoldable pub call :
      {A : Type 0}
      → (ℕ → Message Float)
      → (ℕ → Message Float → Option A)
      → ℕ
      → Clock
      → Client dialer
      → Option A × Client dialer
  unfolding call_on ensure_connected
  call request accept timeout clock client =
      let (c, client') = ensure_connected client in call_on request accept timeout clock c client'

  -- `std::get_if<RerankResponse>`, whatever the number
  unfoldable pub accept_rerank : ℕ → Message Float → Option (RerankResponse Float)
  accept_rerank id (Message.rerank_response resp) = some resp
  accept_rerank id _ = none

  unfoldable pub accept_stats : ℕ → Message Float → Option StatsResponse
  accept_stats id (Message.stats_response resp) = if resp.request_id == id then some resp else none
  accept_stats id _ = none

  unfoldable pub accept_pong : ℕ → Message Float → Option Bool
  accept_pong id (Message.pong pong) = if pong.request_id == id then some true else none
  accept_pong id _ = none

  abbrev pub rerank_message : RerankRequest → ℕ → Message Float
  rerank_message req id = Message.rerank_request (record req { request_id = id })

  -- `Rerank`
  unfoldable pub rerank :
      RerankRequest → ℕ → Clock → Client dialer → Option (RerankResponse Float) × Client dialer
  unfolding call accept_rerank
  rerank req = call (rerank_message req) accept_rerank

  -- `GetStats`
  unfoldable pub get_stats : ℕ → Clock → Client dialer → Option StatsResponse × Client dialer
  unfolding call accept_stats
  get_stats = call (λ id. Message.stats_request (record { request_id = id })) accept_stats

  -- `Ping`, whose `true` is `some true`
  unfoldable pub ping : ℕ → Clock → Client dialer → Option Bool × Client dialer
  unfolding call accept_pong
  ping = call (λ id. Message.ping (record { request_id = id })) accept_pong

  unfoldable pub record_on : CommitEvent → Option conn.State → Client dialer → Client dialer
  unfolding reset
  record_on ev none client = client
  record_on ev (some c) client =
      let (ok, c') = conn.write_all (encode_frame (encode_body m (Message.commit_event ev))) 50 c in
      if ok then record client { conn_ = some c' } else reset c' client

  -- `RecordCommit`
  unfoldable pub record_commit : CommitEvent → Client dialer → Client dialer
  unfolding record_on ensure_connected
  record_commit ev client = let (c, client') = ensure_connected client in record_on ev c client'

  -- `ResetConnection`
  unfoldable pub reset_connection : Client dialer → Client dialer
  unfolding reset
  reset_connection client = elim client.conn_ [ none ↦ client | some c ↦ reset c client ]
