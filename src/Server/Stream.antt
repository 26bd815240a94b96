-- ===== src/Server/Stream.antt =====
-- What a stream of bytes says to src/daemon/server.cc: the messages of its frames.
use dafeng_wubi.Prelude.{
  ℕ, zero, suc, ◌≤◌, ◌<◌, List, [], ◌∷◌, ◌++◌, Option, none, some, ◌≡◌, refl, inl, inr, arith,
  if◌then◌else◌, leb, length, take, drop, Bytes, Bool-cases, length-drop,
}
use dafeng_wubi.Protocol.{Message}
use dafeng_wubi.Protocol.Frame.{frame_header_bytes, read_frame_length, encode_frame}
use dafeng_wubi.Protocol.Msgpack.{Msgpack}
use dafeng_wubi.Protocol.Body.{encode_body, decode_body}

module _ (m : Msgpack) where
  open m use {Float}

  -- the body of a length that a stream has behind the header
  abbrev pub body_of : Option ℕ → Bytes → Option (Bytes × Bytes)
  body_of none bytes = none
  body_of (some len) bytes =
      if leb len (length bytes) then some (take len bytes, drop len bytes) else none

  abbrev pub with_rest : Option (Message Float) → Bytes → Option (Message Float × Bytes)
  with_rest none rest = none
  with_rest (some msg) rest = some (msg, rest)

  abbrev pub message_of : Option (Bytes × Bytes) → Option (Message Float × Bytes)
  message_of none = none
  message_of (some (body, rest)) = with_rest (decode_body m (some body)) rest

  -- The message that a stream begins with, and the bytes behind it; `none` where the stream is too short,
  -- or its first length or its first body is refused.
  unfoldable pub next_message : Bytes → Option (Message Float × Bytes)
  next_message bytes =
      if leb frame_header_bytes (length bytes)
      then message_of (
          body_of (read_frame_length (some (take frame_header_bytes bytes)))
            (drop frame_header_bytes bytes))
      else none

  -- The messages of a stream up to the first that is refused, at most `n` of them.
  unfoldable pub messages : ℕ → Bytes → List (Message Float)
  messages zero bytes = []
  messages (suc n) bytes = elim (next_message bytes) [
    | none ↦ []
    | some (msg, rest) ↦ msg ∷ messages n rest
  ]

  pub messages-none : (n : ℕ) (bytes : Bytes) → next_message bytes ≡ none → messages n bytes ≡ []
  unfolding messages
  messages-none zero bytes e = refl
  messages-none (suc n) bytes e = ground arith

  pub messages-some :
      (n : ℕ) (bytes : Bytes) {msg : Message Float} {rest : Bytes}
      → next_message bytes ≡ some (msg, rest)
      → messages (suc n) bytes ≡ msg ∷ messages n rest
  unfolding messages
  messages-some n bytes e = ground arith

  abbrev pub frame : Message Float → Bytes
  frame msg = encode_frame (encode_body m msg)

  abbrev pub frames : List (Message Float) → Bytes
  frames [] = []
  frames (msg ∷ msgs) = frame msg ++ frames msgs

  body_of-shorter :
      (len : Option ℕ) (bytes : Bytes) {body rest : Bytes}
      → body_of len bytes ≡ some (body, rest)
      → length rest ≤ length bytes
  body_of-shorter none bytes e = absurd (ground arith)
  body_of-shorter (some len) bytes e = ground (arith, length-drop len bytes)

  message_of-rest :
      (o : Option (Bytes × Bytes)) {msg : Message Float} {rest : Bytes}
      → message_of o ≡ some (msg, rest)
      → (body : Bytes) × (o ≡ some (body, rest))
  message_of-rest none e = absurd (ground arith)
  message_of-rest (some (body, r)) e = (body, ground arith)

  -- The message that a stream begins with leaves a shorter stream.
  pub next_message-shorter :
      (bytes : Bytes) {msg : Message Float} {rest : Bytes}
      → next_message bytes ≡ some (msg, rest)
      → length rest < length bytes
  unfolding next_message
  next_message-shorter bytes e = elim (Bool-cases (leb frame_header_bytes (length bytes))) [
    | inr short ↦ absurd (ground arith)
    | inl long ↦
        let behind = drop frame_header_bytes bytes in
        let len = read_frame_length (some (take frame_header_bytes bytes)) in
        let (body, found) = message_of-rest (body_of len behind) (rw long at e) in
        ground (arith, body_of-shorter len behind found, length-drop frame_header_bytes bytes)
  ]
