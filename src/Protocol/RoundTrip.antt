-- ===== src/Protocol/RoundTrip.antt =====
-- `DecodeBody` after `EncodeBody`, for each message of include/dafeng/types.h.
use dafeng_wubi.Prelude.{
  ◌<◌, ◌≤◌, [], ◌∷◌, ◌++◌, some, arith, ◌≡◌, refl, length, Bytes, ◌∙◌, ap, All, ◌≢◌,
}
use dafeng_wubi.Prelude.Int.{pos}
use dafeng_wubi.Protocol.Types.{Message, MessageType, type_code}
use dafeng_wubi.Protocol.Frame.{max_frame_body_bytes}
use dafeng_wubi.Protocol.Msgpack.{Msgpack, Laws, IsPackableField}
use dafeng_wubi.Protocol.Body.{
  Fields, packed, encode_body, rerank_request_fields, rerank_response_fields, commit_event_fields,
  id_fields, error_fields, stats_response_fields, map_get_type, message_type, decode_object,
  unpack_body, decode_body, peek_message_type,
}
use dafeng_wubi.Protocol.Body.Key
use dafeng_wubi.Protocol.Lookup.{entries_of, map_get-fields_get}

-- the message's type, and what `EncodeBody` packs for it
abbrev pub type_of : {Float : Type 0} → Message Float → MessageType
type_of (Message.rerank_request msg) = MessageType.rerank_request
type_of (Message.rerank_response msg) = MessageType.rerank_response
type_of (Message.commit_event msg) = MessageType.commit_event
type_of (Message.ping msg) = MessageType.ping
type_of (Message.pong msg) = MessageType.pong
type_of (Message.error msg) = MessageType.error
type_of (Message.stats_request msg) = MessageType.stats_request
type_of (Message.stats_response msg) = MessageType.stats_response

module _ (m : Msgpack) where
  abbrev pub fields_of : Message m.Float → Fields m
  fields_of (Message.rerank_request msg) = rerank_request_fields m msg
  fields_of (Message.rerank_response msg) = rerank_response_fields m msg
  fields_of (Message.commit_event msg) = commit_event_fields m msg
  fields_of (Message.ping msg) = id_fields m MessageType.ping msg.request_id
  fields_of (Message.pong msg) = id_fields m MessageType.pong msg.request_id
  fields_of (Message.error msg) = error_fields m msg
  fields_of (Message.stats_request msg) = id_fields m MessageType.stats_request msg.request_id
  fields_of (Message.stats_response msg) = stats_response_fields m msg

  -- Every field is in the range of its C++ type, and no text or list is 2^32 or longer.
  abbrev pub IsInRange : Message m.Float → Type 0
  IsInRange msg = All IsPackableField (fields_of msg)

  abbrev pub FitsFrame : Message m.Float → Type 0
  FitsFrame msg = length (encode_body m msg) ≤ max_frame_body_bytes

  encode_body-packed :
      (msg : Message m.Float)
      → encode_body m msg ≡ packed m (length (fields_of msg)) (fields_of msg)
  unfolding encode_body
  encode_body-packed (Message.rerank_request msg) = refl
  encode_body-packed _ = refl

  length-fields_of : (msg : Message m.Float) → length (fields_of msg) ≤ 11
  length-fields_of (Message.rerank_request msg) = omega arith
  length-fields_of _ = omega arith

  unpack_body-unpack :
      (body : Bytes)
      → 0 < length body
      → length body ≤ max_frame_body_bytes
      → unpack_body m (some body) ≡ m.unpack body
  unfolding unpack_body
  unpack_body-unpack body lo hi = ground arith

length_pos : (xs ys : Bytes) → xs ≢ [] → 0 < length (xs ++ ys)
length_pos [] ys h = absurd (h refl)
length_pos (x ∷ xs) ys h = omega arith

module _ (m : Msgpack) (laws : Laws m) where
  open laws use {of_key, of_value}

  pub encode_body_pos : (msg : Message m.Float) → 0 < length (encode_body m msg)
  encode_body_pos msg =
      rw encode_body-packed (length_pos _ _ (laws.pack_map-ne_nil (length (fields_of m msg))))

  -- The packed body gives an object that is searched like the fields.
  unpacks :
      (msg : Message m.Float)
      → IsInRange m msg
      → FitsFrame m msg
      → (o : m.Object) × (unpack_body m (some (encode_body m msg)) ≡ some o)
        × (m.map_entries o ≡ some (entries_of m laws (fields_of m msg)))
  unpacks msg r f =
      let (o, unpacked, entries) =
        laws.unpack-pack (fields_of m msg) (omega (arith, length-fields_of m msg)) r in
      (
        o,
        unpack_body-unpack m _ (encode_body_pos msg) f
            ∙ ap m.unpack (encode_body-packed m msg)
            ∙ unpacked,
        entries,
      )

  -- The type tag is read back.
  map_get_type-entries_of :
      (msg : Message m.Float) (o : m.Object)
      → m.map_entries o ≡ some (entries_of m laws (fields_of m msg))
      → map_get_type m o ≡ some (type_of msg)
  unfolding map_get_type message_type
  map_get_type-entries_of (Message.rerank_request msg) o e = ground (
    arith,
    map_get-fields_get m laws (m.to_uint 8) (rerank_request_fields m msg) o Key.type 0 e,
    laws.to_uint-of_value 8 1 0,
  )
  map_get_type-entries_of msg o e = ground (
    arith,
    map_get-fields_get m laws (m.to_uint 8) (fields_of m msg) o Key.type 0 e,
    laws.to_uint-of_value 8 (type_code (type_of msg)) 0,
  )

  -- Each field is read back.
  decode_object-entries_of :
      (msg : Message m.Float) (o : m.Object)
      → IsInRange m msg
      → m.map_entries o ≡ some (entries_of m laws (fields_of m msg))
      → decode_object m (type_of msg) o ≡ some msg
  unfolding decode_object
  decode_object-entries_of (Message.rerank_request msg) o r e = ground (
    arith,
    map_get-fields_get m laws (m.to_uint 32) (rerank_request_fields m msg) o Key.id 0 e,
    laws.to_uint-of_value 32 msg.request_id 0,
    map_get-fields_get m laws m.to_str (rerank_request_fields m msg) o Key.code [] e,
    laws.to_str-of_value msg.code [],
    map_get-fields_get m laws m.to_str (rerank_request_fields m msg) o Key.context [] e,
    laws.to_str-of_value msg.context_before [],
    map_get-fields_get m laws m.to_strs (rerank_request_fields m msg) o Key.candidates [] e,
    laws.to_strs-of_value msg.candidates [],
    map_get-fields_get m laws m.to_str (rerank_request_fields m msg) o Key.app_id [] e,
    laws.to_str-of_value msg.app_id [],
  )
  decode_object-entries_of (Message.rerank_response msg) o r e = ground (
    arith,
    map_get-fields_get m laws (m.to_uint 32) (rerank_response_fields m msg) o Key.id 0 e,
    laws.to_uint-of_value 32 msg.request_id 0,
    map_get-fields_get m laws m.to_int32s (rerank_response_fields m msg) o Key.order [] e,
    laws.to_int32s-of_value msg.reordered_indices [],
    map_get-fields_get m laws m.to_floats (rerank_response_fields m msg) o Key.scores [] e,
    laws.to_floats-of_value msg.scores [],
    map_get-fields_get m laws (m.to_uint 32) (rerank_response_fields m msg) o Key.latency_us 0 e,
    laws.to_uint-of_value 32 msg.latency_us 0,
    map_get-fields_get m laws (m.to_uint 8) (rerank_response_fields m msg) o Key.model_version 0 e,
    laws.to_uint-of_value 8 msg.model_version 0,
  )
  decode_object-entries_of (Message.commit_event msg) o r e = ground (
    arith,
    map_get-fields_get m laws m.to_str (commit_event_fields m msg) o Key.code [] e,
    laws.to_str-of_value msg.code [],
    map_get-fields_get m laws m.to_str (commit_event_fields m msg) o Key.text [] e,
    laws.to_str-of_value msg.committed_text [],
    map_get-fields_get m laws m.to_str (commit_event_fields m msg) o Key.context [] e,
    laws.to_str-of_value msg.context_before [],
  )
  decode_object-entries_of (Message.ping msg) o r e = ground (
    arith,
    map_get-fields_get m laws (m.to_uint 32) (id_fields m MessageType.ping msg.request_id) o Key.id
        0 e,
    laws.to_uint-of_value 32 msg.request_id 0,
  )
  decode_object-entries_of (Message.pong msg) o r e = ground (
    arith,
    map_get-fields_get m laws (m.to_uint 32) (id_fields m MessageType.pong msg.request_id) o Key.id
        0 e,
    laws.to_uint-of_value 32 msg.request_id 0,
  )
  decode_object-entries_of (Message.error msg) o r e = ground (
    arith,
    map_get-fields_get m laws (m.to_uint 32) (error_fields m msg) o Key.id 0 e,
    laws.to_uint-of_value 32 msg.request_id 0,
    map_get-fields_get m laws m.to_int32 (error_fields m msg) o Key.err_code (pos 0) e,
    laws.to_int32-of_value msg.code (pos 0),
    map_get-fields_get m laws m.to_str (error_fields m msg) o Key.err_msg [] e,
    laws.to_str-of_value msg.message [],
  )
  decode_object-entries_of (Message.stats_request msg) o r e = ground (
    arith,
    map_get-fields_get m laws (m.to_uint 32) (id_fields m MessageType.stats_request msg.request_id)
        o Key.id 0 e,
    laws.to_uint-of_value 32 msg.request_id 0,
  )
  decode_object-entries_of (Message.stats_response msg) o r e = ground (
    arith,
    map_get-fields_get m laws (m.to_uint 32) (stats_response_fields m msg) o Key.id 0 e,
    laws.to_uint-of_value 32 msg.request_id 0,
    map_get-fields_get m laws (m.to_uint 64) (stats_response_fields m msg) o Key.rerank_count 0 e,
    laws.to_uint-of_value 64 msg.rerank_count 0,
    map_get-fields_get m laws (m.to_uint 64) (stats_response_fields m msg) o Key.ping_count 0 e,
    laws.to_uint-of_value 64 msg.ping_count 0,
    map_get-fields_get m laws (m.to_uint 64) (stats_response_fields m msg) o Key.commit_count 0 e,
    laws.to_uint-of_value 64 msg.commit_count 0,
    map_get-fields_get m laws (m.to_uint 64) (stats_response_fields m msg) o Key.error_count 0 e,
    laws.to_uint-of_value 64 msg.error_count 0,
    map_get-fields_get m laws (m.to_uint 64) (stats_response_fields m msg) o Key.rerank_lat_sum 0 e,
    laws.to_uint-of_value 64 msg.rerank_latency_sum_us 0,
    map_get-fields_get m laws (m.to_uint 32) (stats_response_fields m msg) o Key.rerank_lat_max 0 e,
    laws.to_uint-of_value 32 msg.rerank_latency_max_us 0,
    map_get-fields_get m laws (m.to_uint 8) (stats_response_fields m msg) o Key.rerank_model_ver 0
        e,
    laws.to_uint-of_value 8 msg.rerank_model_version 0,
    map_get-fields_get m laws (m.to_uint 64) (stats_response_fields m msg) o Key.uptime_sec 0 e,
    laws.to_uint-of_value 64 msg.uptime_sec 0,
  )

  -- `DecodeBody` gives back every message that `EncodeBody` has encoded, if its fields are in the range of
  -- their types and the body is at most 1 MiB; `PeekMessageType` gives its type.
  pub decode_body-encode_body :
      (msg : Message m.Float)
      → IsInRange m msg
      → FitsFrame m msg
      → (decode_body m (some (encode_body m msg)) ≡ some msg)
        × (peek_message_type m (some (encode_body m msg)) ≡ some (type_of msg))
  unfolding decode_body peek_message_type
  decode_body-encode_body msg r f =
      let (o, unpacked, entries) = unpacks msg r f in
      let tagged = map_get_type-entries_of msg o entries in
      let decoded = decode_object-entries_of msg o r entries in (ground arith, ground arith)
