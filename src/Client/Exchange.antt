-- ===== src/Client/Exchange.antt =====
-- The methods of src/client/client.cc against the server of src/daemon/server.cc.
use dafeng_wubi.Prelude.{
  ℕ, ◌+◌, ◌%◌, ◌<◌, ◌≤◌, true, [], ◌++◌, Option, none, some, ◌≡◌, refl, ap, ◌∙◌, arith, length,
  take, drop, Bytes, length-append, take-append_length, drop-append_length,
}
use dafeng_wubi.Endpoint.{Connection}
use dafeng_wubi.Protocol.{RerankRequest, Message}
use dafeng_wubi.Protocol.Frame.{frame_header_bytes, read_frame_length-encode_frame}
use dafeng_wubi.Protocol.Msgpack.{Msgpack, Laws}
use dafeng_wubi.Protocol.Body.{encode_body}
use dafeng_wubi.Protocol.RoundTrip.{decode_body-encode_body, encode_body_pos}
use dafeng_wubi.Server.{Services, Server, handle_message, handle_rerank}
use dafeng_wubi.Server.Run.{reply_first}
use dafeng_wubi.Server.Stream.{frame, frames}
use dafeng_wubi.Server.Frames.{IsSendable, frame_header_fits, read_frame_length-take}
use dafeng_wubi.Client.{
  Clock, Dialer, Client, connected_or, ensure_connected, read_body, read_header, exchange, conclude,
  accepted, call_on, call, rerank, ping, accept_rerank, accept_pong, rerank_message, remaining,
}

-- A connection to the server: an open state stands for the bytes that the client has still to read and for the server. Where time is
-- left, reads give these bytes in order, and the server handles a message that is written and sends its reply.
pub record Answering (m : Msgpack) (laws : Laws m) (svc : Services m.Float) (conn : Connection)
    : Type 1 where
  pub IsOpen : conn.State → Type 0
  pub incoming : conn.State → Bytes
  pub server : conn.State → Server svc.Env
  pub is_connected-true : (c : conn.State) → IsOpen c → conn.is_connected c ≡ true
  pub read_full-some :
      (n t : ℕ) (c : conn.State)
      → IsOpen c
      → 0 < t
      → n ≤ length (incoming c)
      → ((conn.read_full n t c).0 ≡ some (take n (incoming c)))
        × (incoming (conn.read_full n t c).1 ≡ drop n (incoming c))
        × (server (conn.read_full n t c).1 ≡ server c)
        × IsOpen (conn.read_full n t c).1
  pub write_all-handled :
      (msg : Message m.Float) (t : ℕ) (c : conn.State)
      → IsOpen c
      → 0 < t
      → IsSendable m laws msg
      → let (written, c') = conn.write_all (frame m msg) t c in
        let (reply, after) = handle_message m svc msg (server c) in
        (written ≡ true)
        × (incoming c' ≡ incoming c ++ frames m (reply_first reply []))
        × (server c' ≡ after)
        × IsOpen c'

-- every reading of the clock is before the deadline
abbrev pub InTime : ℕ → Clock → Type 0
InTime deadline clock =
    (clock.at_write < deadline) × (clock.at_header < deadline) × (clock.at_body < deadline)

remaining-pos : (deadline now : ℕ) → now < deadline → 0 < remaining deadline now
unfolding remaining
remaining-pos deadline now h = omega arith

module _ (m : Msgpack) (laws : Laws m) {conn : Connection} (dialer : Dialer conn)
    (svc : Services m.Float) (peer : Answering m laws svc conn) where
  open m use {Float}
  open peer use {IsOpen, incoming, server}

  read_body_lem :
      (reply : Message Float) (after : Server svc.Env) (timeout : ℕ) (c : conn.State)
      → IsOpen c
      → 0 < timeout
      → IsSendable m laws reply
      → incoming c ≡ encode_body m reply ++ []
      → server c ≡ after
      → let (msg, c') = read_body m dialer (some (length (encode_body m reply))) timeout c in
        (msg ≡ some reply) × (incoming c' ≡ []) × (server c' ≡ after) × IsOpen c'
  unfolding read_body
  read_body_lem reply after timeout c op left (ranged, fits) hi hs =
      let body = encode_body m reply in
      let (got, rest, kept, still) =
        peer.read_full-some (length body) timeout c op left
          (rw hi (omega (arith, length-append body []))) in
      (
        rw (got, hi, take-append_length body [])
            (decode_body-encode_body m laws reply ranged fits).0,
        rest ∙ ap (drop (length body)) hi ∙ drop-append_length body [],
        kept ∙ hs,
        still,
      )

  -- what a method leaves behind: the server has handled the message, and nothing is left to read
  abbrev pub Handled : Message Float → (before after : conn.State) → Type 0
  Handled msg before after =
      (server after ≡ (handle_message m svc msg (server before)).1)
      × (incoming after ≡ [])
      × IsOpen after

  -- The exchange gives the server's reply to the message.
  exchange_lem :
      (msg reply : Message Float) (deadline : ℕ) (clock : Clock) (c : conn.State)
      → IsOpen c
      → incoming c ≡ []
      → InTime deadline clock
      → IsSendable m laws msg
      → (handle_message m svc msg (server c)).0 ≡ some reply
      → IsSendable m laws reply
      → let (got, c') = exchange m dialer msg deadline clock c in
        (got ≡ some reply) × Handled msg c c'
  unfolding exchange read_header
  exchange_lem msg reply deadline clock c op empty (h1, h2, h3) sendable replies back =
      let body = encode_body m reply in
      let (sent, arrived, after, op1) =
        peer.write_all-handled msg (remaining deadline clock.at_write) c op
          (remaining-pos deadline clock.at_write h1) sendable in
      let c1 = (conn.write_all (frame m msg) (remaining deadline clock.at_write) c).1 in
      let here : incoming c1 ≡ frame m reply ++ [] =
        arrived
        ∙ ap (λ b. b ++ frames m (reply_first (handle_message m svc msg (server c)).0 [])) empty
        ∙ ap (λ r. frames m (reply_first r [])) replies in
      let (len, behind) =
        read_frame_length-encode_frame body [] (encode_body_pos m laws reply) back.1 in
      let (header, left, kept, op2) =
        peer.read_full-some frame_header_bytes (remaining deadline clock.at_header) c1 op1
          (remaining-pos deadline clock.at_header h2)
          (rw here (ground (arith, frame_header_fits m laws body []))) in
      let (got, nothing, same, op3) =
        read_body_lem reply _ (remaining deadline clock.at_body) _ op2
          (remaining-pos deadline clock.at_body h3) back
          (left ∙ ap (drop frame_header_bytes) here ∙ behind) (kept ∙ after) in
      rw (sent, header, here, read_frame_length-take m laws body [], len)
        (got, (same, nothing, op3))

  -- what a method gives and leaves
  abbrev pub Called :
      {A : Type 0}
      → Option A
      → Message Float
      → (before : conn.State) → (id : ℕ) → Option A × Client dialer
      → Type 0
  Called expected msg before id (result, client) =
      (result ≡ expected)
      × (client.next_request_id ≡ (id + 1) % 0x100000000)
      × ((c : conn.State) × (client.conn_ ≡ some c) × Handled msg before c)

  module _ {A : Type 0} (request : ℕ → Message Float) (accept : ℕ → Message Float → Option A)
      (timeout : ℕ) (clock : Clock) where
    conclude-Called :
        (msg : Message Float) (before c : conn.State) (id : ℕ) (o : Option A) (a : A)
        (client : Client dialer)
        → o ≡ some a
        → client.next_request_id ≡ (id + 1) % 0x100000000
        → Handled msg before c
        → Called (some a) msg before id (conclude m dialer o c client)
    unfolding conclude
    conclude-Called msg before c id none a client e n h = absurd (ground arith)
    conclude-Called msg before c id (some b) a client e n h = (e, n, (c, refl, h))

    -- A method on a connected client gives what its test makes of the server's reply to its message.
    call-Called :
        (client : Client dialer) (c : conn.State) (reply : Message Float) (a : A)
        → client.conn_ ≡ some c
        → IsOpen c
        → incoming c ≡ []
        → InTime (clock.start + timeout) clock
        → IsSendable m laws (request client.next_request_id)
        → (handle_message m svc (request client.next_request_id) (server c)).0 ≡ some reply
        → IsSendable m laws reply
        → accept client.next_request_id reply ≡ some a
        → Called
            (some a)
            (request client.next_request_id)
            c
            client.next_request_id
            (call m dialer request accept timeout clock client)
    unfolding call ensure_connected connected_or call_on
    call-Called client c reply a up op empty in_time sendable replies back accepts =
        let id = client.next_request_id in
        let (got, handled) =
          exchange_lem (request id) reply (clock.start + timeout) clock c op empty in_time sendable
            replies back in
        rw (up, peer.is_connected-true c op)
          (conclude-Called (request id) c _ id _ a _
            (ap (accepted m dialer (accept id)) got ∙ accepts) refl handled)

  -- A connected client whose request goes to the server gets the reranker's answer to this request, under the number that the client gave
  -- to it; the server has then handled this request and nothing else, and the client is ready for the next call. The request and the
  -- answer can be sent, and the clock is before the deadline.
  pub rerank-Answered :
      (req : RerankRequest) (timeout : ℕ) (clock : Clock) (client : Client dialer) (c : conn.State)
      → client.conn_ ≡ some c
      → IsOpen c
      → incoming c ≡ []
      → InTime (clock.start + timeout) clock
      → let id = client.next_request_id in
        let answer = (svc.rerank (record req { request_id = id }) (server c).env).0 in
        IsSendable m laws (rerank_message m dialer req id)
        → IsSendable m laws (Message.rerank_response answer)
        → Called
            (some answer)
            (rerank_message m dialer req id)
            c
            id
            (rerank m dialer req timeout clock client)
  unfolding rerank accept_rerank handle_message handle_rerank
  rerank-Answered req timeout clock client c up op empty in_time sendable back =
      call-Called (rerank_message m dialer req) (accept_rerank m dialer) timeout clock client c _ _
        up op empty in_time sendable refl back refl

  -- A connected client whose ping goes to the server gets `true`.
  pub ping-Answered :
      (timeout : ℕ) (clock : Clock) (client : Client dialer) (c : conn.State)
      → client.conn_ ≡ some c
      → IsOpen c
      → incoming c ≡ []
      → InTime (clock.start + timeout) clock
      → let msg : ℕ → Message Float = λ id. Message.ping (record { request_id = id }) in
        let id = client.next_request_id in
        IsSendable m laws (msg id)
        → IsSendable m laws (Message.pong (record { request_id = id }))
        → Called (some true) (msg id) c id (ping m dialer timeout clock client)
  unfolding ping accept_pong handle_message
  ping-Answered timeout clock client c up op empty in_time sendable back =
      call-Called (λ id. Message.ping (record { request_id = id })) (accept_pong m dialer) timeout
        clock client c _ _ up op empty in_time sendable refl back (ground arith)
