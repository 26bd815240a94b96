-- ===== src/Server/Frames.antt =====
-- `Server::HandleConnection` of src/daemon/server.cc on a stream of encoded messages.
use dafeng_wubi.Prelude.{
  ℕ, zero, suc, ◌≤◌, ◌<◌, true, List, [], ◌∷◌, ◌++◌, none, some, ◌≡◌, refl, ap, ◌∙◌, subst, arith,
  leb, length, take, All, Bytes, length-append, drop-append_length, take-append_length,
}
use mathlib.Core.List.{append_assoc}
use dafeng_wubi.Endpoint.{Connection, Reliable}
use dafeng_wubi.Protocol.{Message}
use dafeng_wubi.Protocol.Frame.{
  frame_header_bytes, read_frame_length, encode_frame, write_frame_length,
  read_frame_length-encode_frame,
}
use dafeng_wubi.Protocol.Msgpack.{Msgpack, Laws}
use dafeng_wubi.Protocol.Body.{encode_body}
use dafeng_wubi.Protocol.RoundTrip.{IsInRange, FitsFrame, decode_body-encode_body, encode_body_pos}
use dafeng_wubi.Server.{Services, Server}
use dafeng_wubi.Server.Stream.{
  body_of, next_message, messages, messages-none, messages-some, frame, frames,
}
use dafeng_wubi.Server.Serving.{Serves, handle_connection_lem}

module _ (m : Msgpack) (laws : Laws m) where
  open m use {Float}

  -- a message that can be sent
  abbrev pub IsSendable : Message Float → Type 0
  IsSendable msg = IsInRange m msg × FitsFrame m msg

  pub read_frame_length-take :
      (body tail : Bytes)
      → read_frame_length (some (take frame_header_bytes (encode_frame body ++ tail)))
        ≡ read_frame_length (some (encode_frame body ++ tail))
  unfolding read_frame_length encode_frame write_frame_length
  read_frame_length-take body tail = refl

  body_of-length :
      (body tail : Bytes) → body_of m (some (length body)) (body ++ tail) ≡ some (body, tail)
  body_of-length body tail =
      ground
        (arith, length-append body tail, take-append_length body tail, drop-append_length body tail)

  pub frame_header_fits :
      (body tail : Bytes) → leb frame_header_bytes (length (encode_frame body ++ tail)) ≡ true
  unfolding encode_frame write_frame_length
  frame_header_fits body tail = ground arith

  next_message-frame :
      (msg : Message Float) (tail : Bytes)
      → IsSendable msg
      → next_message m (frame m msg ++ tail) ≡ some (msg, tail)
  unfolding next_message
  next_message-frame msg tail (ranged, fits) =
      let body = encode_body m msg in
      let (len, behind) =
        read_frame_length-encode_frame body tail (encode_body_pos m laws msg) fits in
      rw
        (
          frame_header_fits body tail,
          read_frame_length-take body tail,
          len,
          behind,
          body_of-length body tail,
          (decode_body-encode_body m laws msg ranged fits).0,
        )
        refl

  -- A stream of encoded messages is read as these messages.
  pub messages-frames :
      (msgs : List (Message Float)) (tail : Bytes) (n : ℕ)
      → All IsSendable msgs
      → next_message m tail ≡ none
      → length msgs ≤ n
      → messages m n (frames m msgs ++ tail) ≡ msgs
  unfolding messages
  messages-frames [] tail n h e l = messages-none m n tail e
  messages-frames (msg ∷ msgs) tail zero h e l = absurd (omega arith)
  messages-frames (msg ∷ msgs) tail (suc n) (h, hs) e l =
      rw (append_assoc, messages-some m n _ (next_message-frame msg (frames m msgs ++ tail) h))
        (ap (◌∷◌ msg) (messages-frames msgs tail n hs e (omega arith)))

  frame-pos : (body rest : Bytes) → length rest < length (encode_frame body ++ rest)
  unfolding encode_frame write_frame_length
  frame-pos body rest = omega (arith, length-append body rest)

  length-frames :
      (msgs : List (Message Float)) (tail : Bytes) → length msgs ≤ length (frames m msgs ++ tail)
  length-frames [] tail = omega arith
  length-frames (msg ∷ msgs) tail = rw (append_assoc (frame m msg) (frames m msgs) tail) (
      omega (arith, length-frames msgs tail, frame-pos (encode_body m msg) (frames m msgs ++ tail)))

  -- Where an open connection that loses nothing brings encoded messages, with fields in the range of their types
  -- and bodies of at most 1 MiB, and behind them bytes that give no message, such as none, a part of a frame
  -- or a bad length, the loop ends, has handled exactly these messages and has sent exactly their replies.
  pub handle_connection-frames :
      (svc : Services Float) (conn : Connection) (rel : Reliable conn) (msgs : List (Message Float))
      (tail : Bytes) (s : Server svc.Env) (c : conn.State)
      → rel.IsOpen c
      → All IsSendable msgs
      → next_message m tail ≡ none
      → rel.incoming c ≡ frames m msgs ++ tail
      → Serves m svc conn rel (suc (length (rel.incoming c))) s c msgs
  handle_connection-frames svc conn rel msgs tail s c op h e arrives =
      let n = suc (length (rel.incoming c)) in
      let enough : length msgs ≤ n = rw arrives (omega (arith, length-frames msgs tail)) in
      subst (Serves m svc conn rel n s c)
        (ap (messages m n) arrives ∙ messages-frames msgs tail n h e enough)
        (handle_connection_lem m svc conn rel n s c op (omega arith))
