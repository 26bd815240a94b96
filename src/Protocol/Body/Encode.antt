-- ===== src/Protocol/Body/Encode.antt =====
-- The encoders of src/common/protocol.cc, over msgpack as a parameter.
use dafeng_wubi.Prelude.{ℕ, List, [], ◌∷◌, ◌++◌, Bytes}
use dafeng_wubi.Protocol.Types.{
  MessageType, RerankRequest, RerankResponse, CommitEvent, ErrorMessage, StatsResponse, Message,
  type_code,
}
use dafeng_wubi.Protocol.Msgpack.{
  Msgpack, Value, uint, int32, str, strs, int32s, floats, pack_pairs,
}
use dafeng_wubi.Protocol.Body.Key

-- `kProtocolVersion`
abbrev pub protocol_version : ℕ
protocol_version = 1

module _ (m : Msgpack) where
  open m use {Float}

  abbrev pub Fields : Type 0
  Fields = List (Bytes × Value Float)

  -- `PackKey`, then `pk.pack`
  abbrev pub field : Bytes → Value Float → Bytes × Value Float
  field k v = (k, v)

  -- `PackHeader` and the calls that follow it
  abbrev pub with_header : MessageType → Fields → Fields
  with_header t fields =
      field Key.version (uint 32 protocol_version) ∷ field Key.type (uint 8 (type_code t)) ∷ fields

  -- `pk.pack_map(n)` and the pairs that follow it
  abbrev pub packed : ℕ → Fields → Bytes
  packed n fields = m.pack_map n ++ pack_pairs m fields

  abbrev pub rerank_request_fields : RerankRequest → Fields
  rerank_request_fields msg = with_header MessageType.rerank_request (
      field Key.id (uint 32 msg.request_id)
      ∷ field Key.code (str msg.code)
      ∷ field Key.context (str msg.context_before)
      ∷ field Key.candidates (strs msg.candidates)
      ∷ field Key.app_id (str msg.app_id)
      ∷ [])

  abbrev pub rerank_response_fields : RerankResponse Float → Fields
  rerank_response_fields msg = with_header MessageType.rerank_response (
      field Key.id (uint 32 msg.request_id)
      ∷ field Key.order (int32s msg.reordered_indices)
      ∷ field Key.scores (floats msg.scores)
      ∷ field Key.latency_us (uint 32 msg.latency_us)
      ∷ field Key.model_version (uint 8 msg.model_version)
      ∷ [])

  abbrev pub commit_event_fields : CommitEvent → Fields
  commit_event_fields msg = with_header MessageType.commit_event (
      field Key.code (str msg.code)
      ∷ field Key.text (str msg.committed_text)
      ∷ field Key.context (str msg.context_before)
      ∷ [])

  -- a ping, a pong or a request for statistics
  abbrev pub id_fields : MessageType → ℕ → Fields
  id_fields t id = with_header t (field Key.id (uint 32 id) ∷ [])

  abbrev pub error_fields : ErrorMessage → Fields
  error_fields msg = with_header MessageType.error (
      field Key.id (uint 32 msg.request_id)
      ∷ field Key.err_code (int32 msg.code)
      ∷ field Key.err_msg (str msg.message)
      ∷ [])

  abbrev pub stats_response_fields : StatsResponse → Fields
  stats_response_fields msg = with_header MessageType.stats_response (
      field Key.id (uint 32 msg.request_id)
      ∷ field Key.rerank_count (uint 64 msg.rerank_count)
      ∷ field Key.ping_count (uint 64 msg.ping_count)
      ∷ field Key.commit_count (uint 64 msg.commit_count)
      ∷ field Key.error_count (uint 64 msg.error_count)
      ∷ field Key.rerank_lat_sum (uint 64 msg.rerank_latency_sum_us)
      ∷ field Key.rerank_lat_max (uint 32 msg.rerank_latency_max_us)
      ∷ field Key.rerank_model_ver (uint 8 msg.rerank_model_version)
      ∷ field Key.uptime_sec (uint 64 msg.uptime_sec)
      ∷ [])

  -- the overloads of `EncodeBody`, joined by `std::visit`
  unfoldable pub encode_body : Message Float → Bytes
  encode_body (Message.rerank_request msg) = packed 7 (rerank_request_fields msg)
  encode_body (Message.rerank_response msg) = packed 7 (rerank_response_fields msg)
  encode_body (Message.commit_event msg) = packed 5 (commit_event_fields msg)
  encode_body (Message.ping msg) = packed 3 (id_fields MessageType.ping msg.request_id)
  encode_body (Message.pong msg) = packed 3 (id_fields MessageType.pong msg.request_id)
  encode_body (Message.error msg) = packed 5 (error_fields msg)
  encode_body (Message.stats_request msg) =
      packed 3 (id_fields MessageType.stats_request msg.request_id)
  encode_body (Message.stats_response msg) = packed 11 (stats_response_fields msg)
