-- ===== src/Protocol/Types.antt =====
-- include/dafeng/types.h: the messages. A float is msgpack's, an abstract type here.
use dafeng_wubi.Prelude.{ℕ, List, Bytes}
use dafeng_wubi.Prelude.Int.{ℤ}

-- `enum class MessageType : uint8_t`; `unnamed` is any other value of the underlying byte.
pub data MessageType : Type 0 where
  invalid rerank_request rerank_response commit_event ping pong : MessageType
  error stats_request stats_response : MessageType
  unnamed : ℕ → MessageType

pub record RerankRequest : Type 0 where
  pub request_id : ℕ
  pub code : Bytes
  pub context_before : Bytes
  pub candidates : List Bytes
  pub app_id : Bytes

pub record RerankResponse (Float : Type 0) : Type 0 where
  pub request_id : ℕ
  pub reordered_indices : List ℤ
  pub scores : List Float
  pub latency_us : ℕ
  pub model_version : ℕ

pub record CommitEvent : Type 0 where
  pub code : Bytes
  pub committed_text : Bytes
  pub context_before : Bytes

pub record PingMessage : Type 0 where
  pub request_id : ℕ

pub record PongMessage : Type 0 where
  pub request_id : ℕ

pub record ErrorMessage : Type 0 where
  pub request_id : ℕ
  pub code : ℤ
  pub message : Bytes

pub record StatsRequest : Type 0 where
  pub request_id : ℕ

pub record StatsResponse : Type 0 where
  pub request_id : ℕ
  pub rerank_count : ℕ
  pub ping_count : ℕ
  pub commit_count : ℕ
  pub error_count : ℕ
  pub rerank_latency_sum_us : ℕ
  pub rerank_latency_max_us : ℕ
  pub rerank_model_version : ℕ
  pub uptime_sec : ℕ

-- `using Message = std::variant<...>`
pub data Message (Float : Type 0) : Type 0 where
  rerank_request : RerankRequest → Message Float
  rerank_response : RerankResponse Float → Message Float
  commit_event : CommitEvent → Message Float
  ping : PingMessage → Message Float
  pong : PongMessage → Message Float
  error : ErrorMessage → Message Float
  stats_request : StatsRequest → Message Float
  stats_response : StatsResponse → Message Float

-- `static_cast<uint8_t>(t)` and back
abbrev pub type_code : MessageType → ℕ
type_code MessageType.invalid = 0
type_code MessageType.rerank_request = 1
type_code MessageType.rerank_response = 2
type_code MessageType.commit_event = 3
type_code MessageType.ping = 4
type_code MessageType.pong = 5
type_code MessageType.error = 6
type_code MessageType.stats_request = 7
type_code MessageType.stats_response = 8
type_code (MessageType.unnamed n) = n
