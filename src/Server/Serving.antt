-- ===== src/Server/Serving.antt =====
-- `Server::HandleConnection` of src/daemon/server.cc on a connection that loses nothing, against the messages
-- of the stream.
use dafeng_wubi.Prelude.{
  ℕ, zero, suc, ◌<◌, Bool, true, false, List, [], ◌∷◌, ◌++◌, Option, none, some, ◌≡◌, refl, sym, ap,
  ◌∙◌, subst, inl, inr, arith, if◌then◌else◌, leb, length, take, drop, Bytes, Bool-cases,
  Option-cases,
}
use mathlib.Core.List.{append_assoc, append-nil}
use dafeng_wubi.Endpoint.{Connection, Reliable}
use dafeng_wubi.Protocol.{Message}
use dafeng_wubi.Protocol.Frame.{frame_header_bytes, read_frame_length}
use dafeng_wubi.Protocol.Msgpack.{Msgpack}
use dafeng_wubi.Protocol.Body.{decode_body}
use dafeng_wubi.Server.{
  Services, Server, handle_message, send_reply, serve_message, serve_body, serve_length,
  serve_header, serve_round, handle_connection,
}
use dafeng_wubi.Server.Run.{run, reply_first}
use dafeng_wubi.Server.Stream.{
  body_of, with_rest, message_of, next_message, messages, messages-none, messages-some,
  next_message-shorter, frame, frames,
}

module _ (m : Msgpack) (svc : Services m.Float) (conn : Connection) (rel : Reliable conn) where
  open rel use {IsOpen, incoming, outgoing}

  -- what a round does where the stream begins with `next` and `out` was sent before
  abbrev RoundOf :
      Option (Message m.Float × Bytes)
      → Server svc.Env
      → Bytes
      → Bool × Server svc.Env × conn.State
      → Type 0
  RoundOf none s out (goes_on, s', c') = (goes_on ≡ false) × (s' ≡ s) × (outgoing c' ≡ out)
  RoundOf (some (msg, rest)) s out (goes_on, s', c') =
      let (reply, after) = handle_message m svc msg s in
      (goes_on ≡ true)
      × (s' ≡ after)
      × (incoming c' ≡ rest)
      × (outgoing c' ≡ out ++ frames m (reply_first reply []))
      × IsOpen c'

  send_reply_lem :
      (reply : Option (Message m.Float)) (s : Server svc.Env) (c : conn.State)
      → IsOpen c
      → let (goes_on, s', c') = send_reply m svc conn reply s c in
        (goes_on ≡ true)
        × (s' ≡ s)
        × (incoming c' ≡ incoming c)
        × (outgoing c' ≡ outgoing c ++ frames m (reply_first reply []))
        × IsOpen c'
  unfolding send_reply
  send_reply_lem none s c o = (refl, refl, refl, sym (append-nil (outgoing c)), o)
  send_reply_lem (some reply) s c o =
      let bytes = frame m reply in
      let (sent, same, arrived, still) = rel.write_all-true bytes 5000 c o (omega arith) in
      (sent, refl, same, arrived ∙ ap (◌++◌ (outgoing c)) (sym (append-nil bytes)), still)

  serve_message_lem :
      (msg : Message m.Float) (rest out : Bytes) (s : Server svc.Env) (c : conn.State)
      → IsOpen c
      → incoming c ≡ rest
      → outgoing c ≡ out
      → RoundOf (some (msg, rest)) s out (serve_message m svc conn (some msg) s c)
  unfolding serve_message
  serve_message_lem msg rest out s c op hi ho =
      let (reply, after) = handle_message m svc msg s in
      let (on, same, kept, sent, still) = send_reply_lem reply after c op in
      (on, same, kept ∙ hi, sent ∙ ap (λ o. o ++ frames m (reply_first reply [])) ho, still)

  with_rest_lem :
      (msg : Option (Message m.Float)) (rest out : Bytes) (s : Server svc.Env) (c : conn.State)
      → IsOpen c
      → incoming c ≡ rest
      → outgoing c ≡ out
      → RoundOf (with_rest m msg rest) s out (serve_message m svc conn msg s c)
  unfolding serve_message
  with_rest_lem none rest out s c op hi ho = (refl, refl, ho)
  with_rest_lem (some msg) rest out s c op hi ho = serve_message_lem msg rest out s c op hi ho

  serve_body_lem :
      (body rest out : Bytes) (s : Server svc.Env) (c : conn.State)
      → IsOpen c
      → incoming c ≡ rest
      → outgoing c ≡ out
      → RoundOf (message_of m (some (body, rest))) s out (serve_body m svc conn (some body) s c)
  unfolding serve_body
  serve_body_lem body rest out s c op hi ho =
      with_rest_lem (decode_body m (some body)) rest out s c op hi ho

  serve_length_lem :
      (len : Option ℕ) (bytes out : Bytes) (s : Server svc.Env) (c : conn.State)
      → IsOpen c
      → incoming c ≡ bytes
      → outgoing c ≡ out
      → RoundOf (message_of m (body_of m len bytes)) s out (serve_length m svc conn len s c)
  unfolding serve_length serve_body
  serve_length_lem none bytes out s c op hi ho = (refl, refl, ho)
  serve_length_lem (some len) bytes out s c op hi ho = elim (Bool-cases (leb len (length bytes))) [
    | inl fits ↦
        let (got, left, kept, still) =
          rel.read_full-some len 5000 c op (omega arith) (rw hi (ground arith)) in
        rw (fits, got, hi)
          (serve_body_lem (take len bytes) (drop len bytes) out s _ still (left ∙ ap (drop len) hi)
            (kept ∙ ho))
    | inr short ↦
        let (got, kept) = rel.read_full-none len 5000 c op (omega arith) (rw hi (ground arith)) in
        rw (short, got) (refl, refl, kept ∙ ho)
  ]

  serve_round_lem :
      (s : Server svc.Env) (c : conn.State)
      → IsOpen c
      → RoundOf (next_message m (incoming c)) s (outgoing c) (serve_round m svc conn s c)
  unfolding serve_round serve_header next_message
  serve_round_lem s c op = elim (Bool-cases (leb frame_header_bytes (length (incoming c)))) [
    | inl fits ↦
        let (got, left, kept, still) =
          rel.read_full-some frame_header_bytes 60_000 c op (omega arith) (ground arith) in
        rw (fits, rel.is_connected-true c op, got)
          (serve_length_lem (read_frame_length (some (take frame_header_bytes (incoming c))))
            (drop frame_header_bytes (incoming c)) (outgoing c) s _ still left kept)
    | inr short ↦
        let (got, kept) =
          rel.read_full-none frame_header_bytes 60_000 c op (omega arith) (ground arith) in
        rw (short, rel.is_connected-true c op, got) (refl, refl, kept)
  ]

  handle_connection-suc :
      (n : ℕ) (s : Server svc.Env) (c : conn.State)
      → let (goes_on, s', c') = serve_round m svc conn s c in
        handle_connection m svc conn (suc n) s c
        ≡ (if goes_on then handle_connection m svc conn n s' c' else some (s', c'))
  unfolding handle_connection
  handle_connection-suc n s c = refl

  frames-reply_first :
      (reply : Option (Message m.Float)) (l : List (Message m.Float))
      → frames m (reply_first reply l) ≡ frames m (reply_first reply []) ++ frames m l
  frames-reply_first none l = refl
  frames-reply_first (some r) l = ap (λ b. b ++ frames m l) (sym (append-nil (frame m r)))

  -- what serving a stream comes to
  abbrev pub Serves : ℕ → Server svc.Env → conn.State → List (Message m.Float) → Type 0
  Serves n s c msgs =
      let (replies, after) = run m svc msgs s in
      (c' : conn.State) × (handle_connection m svc conn n s c ≡ some (after, c'))
      × (outgoing c' ≡ outgoing c ++ frames m replies)

  Serves-stop :
      (n : ℕ) (s : Server svc.Env) (c : conn.State)
      → RoundOf none s (outgoing c) (serve_round m svc conn s c)
      → Serves (suc n) s c []
  unfolding run
  Serves-stop n s c (stop, same, sent) = (
    (serve_round m svc conn s c).2,
    rw (handle_connection-suc, stop, same) refl,
    sent ∙ sym (append-nil (outgoing c)),
  )

  Serves-again :
      (n : ℕ) (s : Server svc.Env) (c : conn.State) (msg : Message m.Float) (rest : Bytes)
      (msgs : List (Message m.Float))
      → RoundOf (some (msg, rest)) s (outgoing c) (serve_round m svc conn s c)
      → Serves n (serve_round m svc conn s c).1 (serve_round m svc conn s c).2 msgs
      → Serves (suc n) s c (msg ∷ msgs)
  unfolding run
  Serves-again n s c msg rest msgs (on, same, left, sent, still) (c', runs, all) =
      let (reply, after) = handle_message m svc msg s in
      (
        c',
        rw (handle_connection-suc, on) (runs ∙ ap (λ t. some ((run m svc msgs t).1, c')) same),
        rw (all, sent, same)
            (append_assoc (outgoing c) _ _
              ∙ ap (◌++◌ (outgoing c)) (sym (frames-reply_first reply (run m svc msgs after).0))),
      )

  -- On an open connection that loses nothing the loop ends, within one round more than the stream has bytes. It
  -- has then handled the messages of the stream in order, up to the first length or body that is refused
  -- or the stream's end, and has sent the replies to them in order and nothing else.
  pub handle_connection_lem :
      (n : ℕ) (s : Server svc.Env) (c : conn.State)
      → IsOpen c
      → length (incoming c) < n
      → Serves n s c (messages m n (incoming c))
  unfolding messages
  handle_connection_lem zero s c op h = absurd (omega arith)
  handle_connection_lem (suc n) s c op h =
      let round = serve_round_lem s c op in
      elim (Option-cases (next_message m (incoming c))) [
        | inl e ↦ rw (messages-none m (suc n) (incoming c) e) (Serves-stop n s c (rw e at round))
        | inr ((msg, rest), e) ↦
            let step : RoundOf (some (msg, rest)) s (outgoing c) (serve_round m svc conn s c) =
              rw e at round in
            let shorter = next_message-shorter m (incoming c) e in
            let (_, _, left, _, still) = step in
            let (_, s1, c1) = serve_round m svc conn s c in
            rw (messages-some m n (incoming c) e) (
              Serves-again n s c msg rest (messages m n rest) step (
                subst (λ b. Serves n s1 c1 (messages m n b)) left
                  (handle_connection_lem n s1 c1 still (rw left (omega arith)))))
      ]
