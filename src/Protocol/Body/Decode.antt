-- ===== src/Protocol/Body/Decode.antt =====
-- The decoders of src/common/protocol.cc, over msgpack as a parameter.
use dafeng_wubi.Prelude.{
  ℕ, Bool, false, ◌||◌, List, [], ◌∷◌, Option, none, some, ltb, ◌==◌, if◌then◌else◌, length, Bytes,
  bytes_eq,
}
use dafeng_wubi.Prelude.Int.{pos}
use dafeng_wubi.Protocol.Types.{MessageType, RerankRequest, RerankResponse, StatsResponse, Message}
use dafeng_wubi.Protocol.Frame.{max_frame_body_bytes}
use dafeng_wubi.Protocol.Msgpack.{Msgpack, Convert}
use dafeng_wubi.Protocol.Body.Key

-- `static_cast<MessageType>(t)` of a byte
unfoldable pub message_type : ℕ → MessageType
message_type t =
    if t == 0
    then MessageType.invalid
    else if t == 1
    then MessageType.rerank_request
    else if t == 2
    then MessageType.rerank_response
    else if t == 3
    then MessageType.commit_event
    else if t == 4
    then MessageType.ping
    else if t == 5
    then MessageType.pong
    else if t == 6
    then MessageType.error
    else if t == 7
    then MessageType.stats_request
    else if t == 8
    then MessageType.stats_response
    else MessageType.unnamed t

-- the default member initialisers of include/dafeng/types.h
abbrev pub empty_rerank_request : RerankRequest
empty_rerank_request = record {
  request_id = 0;
  code = [];
  context_before = [];
  candidates = [];
  app_id = [];
}

abbrev pub empty_rerank_response : {Float : Type 0} → RerankResponse Float
empty_rerank_response = record {
  request_id = 0;
  reordered_indices = [];
  scores = [];
  latency_us = 0;
  model_version = 0;
}

abbrev pub empty_stats_response : StatsResponse
empty_stats_response = record {
  request_id = 0;
  rerank_count = 0;
  ping_count = 0;
  commit_count = 0;
  error_count = 0;
  rerank_latency_sum_us = 0;
  rerank_latency_max_us = 0;
  rerank_model_version = 0;
  uptime_sec = 0;
}

module _ (m : Msgpack) where
  open m use {Object, Float}

  -- `KeyEquals`
  abbrev pub key_equals : Object → Bytes → Bool
  key_equals key literal = elim (m.str_bytes key) [ none ↦ false | some s ↦ bytes_eq s literal ]

  -- the loop of `MapGet`: the first entry under the key decides
  unfoldable pub entries_get :
      {T : Type 0} → Convert Object T → List (Object × Object) → Bytes → T → Bool × T
  entries_get conv [] key out = (false, out)
  entries_get conv ((k, v) ∷ entries) key out =
      if key_equals k key then conv v out else entries_get conv entries key out

  unfoldable pub map_get : {T : Type 0} → Convert Object T → Object → Bytes → T → Bool × T
  unfolding entries_get
  map_get conv obj key out = elim (m.map_entries obj) [
    | none ↦ (false, out)
    | some es ↦ entries_get conv es key out
  ]

  -- `MapGetType`: an entry that is missing or that does not convert gives `nullopt`
  unfoldable pub map_get_type : Object → Option MessageType
  unfolding map_get message_type
  map_get_type obj =
      let (found, t) = map_get (m.to_uint 8) obj Key.type 0 in
      if found then some (message_type t) else none

  -- the `switch` of `DecodeBody`; the result of each `MapGet` is ignored, its output kept
  unfoldable pub decode_object : MessageType → Object → Option (Message Float)
  unfolding map_get
  decode_object MessageType.rerank_request obj =
      let d = empty_rerank_request in
      some (
        Message.rerank_request (record {
          request_id = (map_get (m.to_uint 32) obj Key.id d.request_id).1;
          code = (map_get m.to_str obj Key.code d.code).1;
          context_before = (map_get m.to_str obj Key.context d.context_before).1;
          candidates = (map_get m.to_strs obj Key.candidates d.candidates).1;
          app_id = (map_get m.to_str obj Key.app_id d.app_id).1;
        }))
  decode_object MessageType.rerank_response obj = some (
      Message.rerank_response (record {
        request_id = (map_get (m.to_uint 32) obj Key.id 0).1;
        reordered_indices = (map_get m.to_int32s obj Key.order []).1;
        scores = (map_get m.to_floats obj Key.scores []).1;
        latency_us = (map_get (m.to_uint 32) obj Key.latency_us 0).1;
        model_version = (map_get (m.to_uint 8) obj Key.model_version 0).1;
      }))
  decode_object MessageType.commit_event obj = some (
      Message.commit_event (record {
        code = (map_get m.to_str obj Key.code []).1;
        committed_text = (map_get m.to_str obj Key.text []).1;
        context_before = (map_get m.to_str obj Key.context []).1;
      }))
  decode_object MessageType.ping obj =
      some (Message.ping (record { request_id = (map_get (m.to_uint 32) obj Key.id 0).1 }))
  decode_object MessageType.pong obj =
      some (Message.pong (record { request_id = (map_get (m.to_uint 32) obj Key.id 0).1 }))
  decode_object MessageType.error obj = some (
      Message.error (record {
        request_id = (map_get (m.to_uint 32) obj Key.id 0).1;
        code = (map_get m.to_int32 obj Key.err_code (pos 0)).1;
        message = (map_get m.to_str obj Key.err_msg []).1;
      }))
  decode_object MessageType.stats_request obj =
      some (Message.stats_request (record { request_id = (map_get (m.to_uint 32) obj Key.id 0).1 }))
  decode_object MessageType.stats_response obj = some (
      Message.stats_response (record {
        request_id = (map_get (m.to_uint 32) obj Key.id 0).1;
        rerank_count = (map_get (m.to_uint 64) obj Key.rerank_count 0).1;
        ping_count = (map_get (m.to_uint 64) obj Key.ping_count 0).1;
        commit_count = (map_get (m.to_uint 64) obj Key.commit_count 0).1;
        error_count = (map_get (m.to_uint 64) obj Key.error_count 0).1;
        rerank_latency_sum_us = (map_get (m.to_uint 64) obj Key.rerank_lat_sum 0).1;
        rerank_latency_max_us = (map_get (m.to_uint 32) obj Key.rerank_lat_max 0).1;
        rerank_model_version = (map_get (m.to_uint 8) obj Key.rerank_model_ver 0).1;
        uptime_sec = (map_get (m.to_uint 64) obj Key.uptime_sec 0).1;
      }))
  decode_object MessageType.invalid obj = none
  decode_object (MessageType.unnamed n) obj = none

  -- the guard and the `try` that `DecodeBody` and `PeekMessageType` begin with
  unfoldable pub unpack_body : Option Bytes → Option Object
  unpack_body none = none
  unpack_body (some body) =
      if length body == 0 || ltb max_frame_body_bytes (length body) then none else m.unpack body

  unfoldable pub decode_body : Option Bytes → Option (Message Float)
  decode_body body = elim (unpack_body body) [
    | none ↦ none
    | some obj ↦ elim (map_get_type obj) [ none ↦ none | some t ↦ decode_object t obj ]
  ]

  unfoldable pub peek_message_type : Option Bytes → Option MessageType
  peek_message_type body = elim (unpack_body body) [ none ↦ none | some obj ↦ map_get_type obj ]
