-- ===== src/ClientC.antt =====
-- src/client/client_c.cc: the C interface of the client. A null pointer is `none`; the buffers that `malloc` has given
-- and `free` has not taken back are counted. What the functions catch is left out.
pub mod Owned
use dafeng_wubi.Prelude.{
  ℕ, suc, ◌-◌, ◌<◌, Bool, true, false, not, List, [], ◌∷◌, Option, none, some, if◌then◌else◌,
  length, is_empty, Bytes, map,
}
use dafeng_wubi.Prelude.Int.{ℤ, pos, negsuc}
use dafeng_wubi.Endpoint.{Connection}
use dafeng_wubi.Protocol.{RerankRequest, RerankResponse, CommitEvent}
use dafeng_wubi.Protocol.Msgpack.{Msgpack}
use dafeng_wubi.Client.{Clock, Dialer, Client, rerank, record_commit, reset_connection}

-- `dafeng_rerank_result`, with the contents of the buffer that `indices` points to
pub record RerankResult : Type 0 where
  pub indices : Option (List ℤ)
  pub count : ℕ
  pub latency_us : ℕ
  pub model_version : ℕ

abbrev pub empty_result : RerankResult
empty_result = record { indices = none; count = 0; latency_us = 0; model_version = 0 }

-- what a function reads and changes: the number of buffers in use, and the caller's two objects
pub record Caller (C : Type 0) : Type 0 where
  pub live : ℕ
  pub client : Option C
  pub out_result : Option RerankResult

abbrev pub or_empty : Option Bytes → Bytes
or_empty none = []
or_empty (some s) = s

-- `address` or the built-in one
unfoldable pub address_or : (daemon_address : Bytes) → Option Bytes → Bytes
address_or daemon_address none = daemon_address
address_or daemon_address (some []) = daemon_address
address_or daemon_address (some (c ∷ s)) = c ∷ s

-- `timeout_ms < 0 ? 0 : timeout_ms`
abbrev pub not_negative : ℤ → ℕ
not_negative (pos n) = n
not_negative (negsuc n) = 0

abbrev filled : {Float : Type 0} → Option (List ℤ) → RerankResponse Float → RerankResult
filled indices resp = record {
  indices = indices;
  count = length resp.reordered_indices;
  latency_us = resp.latency_us;
  model_version = resp.model_version;
}

-- `dafeng_client_rerank` behind the call of `Rerank`, whose answer is not empty; `allocated` is the outcome of `malloc`
unfoldable pub hand_over :
    {C Float : Type 0}
    → (allocated : Bool) → RerankResponse Float
    → (live : ℕ) → (client : C) → ℕ × Caller C
hand_over allocated resp live client =
    if is_empty resp.reordered_indices
    then (1, record { live = live; client = some client; out_result = some (filled none resp) })
    else if not allocated
    then (0, record { live = live; client = some client; out_result = some empty_result })
    else (
      1,
      record {
        live = suc live;
        client = some client;
        out_result = some (filled (some resp.reordered_indices) resp);
      },
    )

-- `dafeng_client_rerank` behind the call of `Rerank`
unfoldable pub after_rerank :
    {C Float : Type 0}
    → (allocated : Bool) → Option (RerankResponse Float)
    → (live : ℕ) → (client : C) → ℕ × Caller C
unfolding hand_over
after_rerank allocated none live client =
    (0, record { live = live; client = some client; out_result = some empty_result })
after_rerank allocated (some resp) live client = hand_over allocated resp live client

-- `req`
unfoldable pub c_request :
    (code context_before app_id : Option Bytes) → List (Option Bytes) → RerankRequest
c_request code context_before app_id candidates = record {
  request_id = 0;
  code = or_empty code;
  context_before = or_empty context_before;
  candidates = map or_empty candidates;
  app_id = or_empty app_id;
}

abbrev free_result : RerankResult → RerankResult
free_result r = record r { indices = none; count = 0 }

-- the buffers in use behind `std::free`
abbrev live_without : Option (List ℤ) → ℕ → ℕ
live_without none live = live
live_without (some buf) live = live - 1

-- `dafeng_rerank_result_free`
unfoldable pub dafeng_rerank_result_free : {C : Type 0} → Caller C → Caller C
dafeng_rerank_result_free c = elim c.out_result [
  | none ↦ c
  | some r ↦ record c { live = live_without r.indices c.live; out_result = some (free_result r) }
]

module _ (m : Msgpack) {conn : Connection} (dialer : Dialer conn) where
  -- `dafeng_client_rerank` where neither pointer is null
  unfoldable pub rerank_for :
      (allocated : Bool)
      → RerankRequest
      → (timeout_ms : ℤ) → Clock
      → (live : ℕ) → Client dialer
      → ℕ × Caller (Client dialer)
  unfolding after_rerank
  rerank_for allocated req timeout_ms clock live client =
      let (resp, client') = rerank m dialer req (not_negative timeout_ms) clock client in
      after_rerank allocated resp live client'

  -- `dafeng_client_rerank`
  unfoldable pub dafeng_client_rerank :
      (allocated : Bool)
      → RerankRequest
      → (timeout_ms : ℤ) → Clock
      → Caller (Client dialer)
      → ℕ × Caller (Client dialer)
  unfolding rerank_for
  dafeng_client_rerank allocated req timeout_ms clock c = elim c.client [
    | none ↦ (0, c)
    | some client ↦ elim c.out_result [
      | none ↦ (0, c)
      | some _ ↦ rerank_for allocated req timeout_ms clock c.live client
    ]
  ]

  -- `dafeng_client_record_commit`
  unfoldable pub dafeng_client_record_commit :
      (code committed_text context_before : Option Bytes)
      → Caller (Client dialer)
      → Caller (Client dialer)
  dafeng_client_record_commit code committed_text context_before c = elim c.client [
    | none ↦ c
    | some client ↦ record c {
      client = some (
          record_commit m dialer
            (record {
              code = or_empty code;
              committed_text = or_empty committed_text;
              context_before = or_empty context_before;
            })
            client);
    }
  ]

  -- `dafeng_client_reset_connection`
  unfoldable pub dafeng_client_reset_connection : Caller (Client dialer) → Caller (Client dialer)
  dafeng_client_reset_connection c = elim c.client [
    | none ↦ c
    | some client ↦ record c { client = some (reset_connection m dialer client) }
  ]
