-- ===== src/Protocol/Compat.antt =====
-- The forward compatibility that include/dafeng/protocol.h states, and how `PeekMessageType` and
-- `DecodeBody` agree, on bodies that need not come from this encoder.
use dafeng_wubi.Prelude.{
  ℕ, false, List, [], ◌∷◌, ◌++◌, Option, none, some, arith, ◌≡◌, refl, Bytes, Option-cases, All,
  ◌⊎◌, inl, inr,
}
use dafeng_wubi.Prelude.Int.{pos}
use dafeng_wubi.Protocol.Types.{Message, MessageType}
use dafeng_wubi.Protocol.Msgpack.{Msgpack, Convert}
use dafeng_wubi.Protocol.Body.{
  entries_get, map_get, map_get_type, key_equals, unpack_body, decode_object, decode_body,
  peek_message_type,
}
use dafeng_wubi.Protocol.Body.Key
use dafeng_wubi.Protocol.RoundTrip.{type_of}

module _ (m : Msgpack) where
  decode_object-type_of :
      (t : MessageType) (o : m.Object) {msg : Message m.Float}
      → decode_object m t o ≡ some msg
      → type_of msg ≡ t
  unfolding decode_object
  decode_object-type_of MessageType.invalid o h = cc
  decode_object-type_of t o h = ground arith

  names_no_message :
      (t : MessageType) (o : m.Object)
      → decode_object m t o ≡ none
      → (t ≡ MessageType.invalid) ⊎ ((n : ℕ) × (t ≡ MessageType.unnamed n))
  unfolding decode_object
  names_no_message MessageType.invalid o h = inl refl
  names_no_message (MessageType.unnamed n) o h = inr (n, refl)
  names_no_message _ o h = cc

  -- A message that decodes has the type that the peek gives.
  pub peek_message_type-decode_body :
      (body : Option Bytes) (msg : Message m.Float)
      → decode_body m body ≡ some msg
      → peek_message_type m body ≡ some (type_of msg)
  unfolding peek_message_type decode_body
  peek_message_type-decode_body body msg h = elim (Option-cases (unpack_body m body)) [
    | inl e ↦ absurd (ground arith)
    | inr (o, e) ↦ elim (Option-cases (map_get_type m o)) [
      | inl e' ↦ absurd (ground arith)
      | inr (t', e') ↦ ground (arith, decode_object-type_of t' o {msg = msg})
    ]
  ]

  -- Of the bodies that have a type tag, only those whose tag is 0 or names no message are refused; keys that
  -- are missing or of another type are no reason.
  pub decode_body-eq-none :
      (body : Option Bytes) (t : MessageType)
      → peek_message_type m body ≡ some t
      → decode_body m body ≡ none
      → (t ≡ MessageType.invalid) ⊎ ((n : ℕ) × (t ≡ MessageType.unnamed n))
  unfolding peek_message_type decode_body
  decode_body-eq-none body t p d = elim (Option-cases (unpack_body m body)) [
    | inl e ↦ absurd (ground arith)
    | inr (o, e) ↦ elim (Option-cases (map_get_type m o)) [
      | inl e' ↦ absurd (ground arith)
      | inr (t', e') ↦ names_no_message t o (ground arith)
    ]
  ]

  -- an entry under a key that `MapGet` is never asked for
  abbrev pub IsUnknown : m.Object → Type 0
  IsUnknown k = All (λ key. key_equals m k key ≡ false) Key.known

  entries_get-unknown :
      {T : Type 0} (conv : Convert m.Object T) (before after : List (m.Object × m.Object))
      (k v : m.Object) (key : Bytes) (out : T)
      → key_equals m k key ≡ false
      → entries_get m conv (before ++ (k, v) ∷ after) key out
        ≡ entries_get m conv (before ++ after) key out
  unfolding entries_get
  entries_get-unknown conv [] after k v key out h = rw h
  entries_get-unknown conv ((j, w) ∷ before) after k v key out h =
      ground (arith, entries_get-unknown conv before after k v key out h)

  -- one object has an entry under an unknown key that the other lacks, in any place
  pub record Extends (o o' : m.Object) : Type 0 where
    pub before : List (m.Object × m.Object)
    pub after : List (m.Object × m.Object)
    pub key : m.Object
    pub value : m.Object
    pub unknown : IsUnknown key
    pub longer : m.map_entries o' ≡ some (before ++ (key, value) ∷ after)
    pub shorter : m.map_entries o ≡ some (before ++ after)

  module _ {o o' : m.Object} (x : Extends o o') where
    same :
        {T : Type 0} (conv : Convert m.Object T) (key : Bytes) (out : T)
        → key_equals m x.key key ≡ false
        → map_get m conv o' key out ≡ map_get m conv o key out
    unfolding map_get
    same conv key out h = ground (
      arith,
      x.longer,
      x.shorter,
      entries_get-unknown conv x.before x.after x.key x.value key out h,
    )

    decode_object-Extends : (t : MessageType) → decode_object m t o' ≡ decode_object m t o
    unfolding decode_object
    decode_object-Extends MessageType.invalid = refl
    decode_object-Extends (MessageType.unnamed n) = refl
    decode_object-Extends MessageType.rerank_request = ground (
      arith,
      x.unknown,
      same (m.to_uint 32) Key.id 0,
      same m.to_str Key.code [],
      same m.to_str Key.context [],
      same m.to_strs Key.candidates [],
      same m.to_str Key.app_id [],
    )
    decode_object-Extends MessageType.rerank_response = ground (
      arith,
      x.unknown,
      same (m.to_uint 32) Key.id 0,
      same m.to_int32s Key.order [],
      same m.to_floats Key.scores [],
      same (m.to_uint 32) Key.latency_us 0,
      same (m.to_uint 8) Key.model_version 0,
    )
    decode_object-Extends MessageType.commit_event = ground (
      arith,
      x.unknown,
      same m.to_str Key.code [],
      same m.to_str Key.text [],
      same m.to_str Key.context [],
    )
    decode_object-Extends MessageType.ping = ground (arith, x.unknown, same (m.to_uint 32) Key.id 0)
    decode_object-Extends MessageType.pong = ground (arith, x.unknown, same (m.to_uint 32) Key.id 0)
    decode_object-Extends MessageType.stats_request =
        ground (arith, x.unknown, same (m.to_uint 32) Key.id 0)
    decode_object-Extends MessageType.error = ground (
      arith,
      x.unknown,
      same (m.to_uint 32) Key.id 0,
      same m.to_int32 Key.err_code (pos 0),
      same m.to_str Key.err_msg [],
    )
    decode_object-Extends MessageType.stats_response = ground (
      arith,
      x.unknown,
      same (m.to_uint 32) Key.id 0,
      same (m.to_uint 64) Key.rerank_count 0,
      same (m.to_uint 64) Key.ping_count 0,
      same (m.to_uint 64) Key.commit_count 0,
      same (m.to_uint 64) Key.error_count 0,
      same (m.to_uint 64) Key.rerank_lat_sum 0,
      same (m.to_uint 32) Key.rerank_lat_max 0,
      same (m.to_uint 8) Key.rerank_model_ver 0,
      same (m.to_uint 64) Key.uptime_sec 0,
    )

    map_get_type-Extends : map_get_type m o' ≡ map_get_type m o
    unfolding map_get_type
    map_get_type-Extends = ground (arith, x.unknown, same (m.to_uint 8) Key.type 0)

    -- An entry under a key that the protocol does not name, anywhere in the map, changes neither what
    -- `DecodeBody` returns nor what `PeekMessageType` returns.
    pub decode_body-Extends :
        (body body' : Bytes)
        → unpack_body m (some body) ≡ some o
        → unpack_body m (some body') ≡ some o'
        → (decode_body m (some body') ≡ decode_body m (some body))
          × (peek_message_type m (some body') ≡ peek_message_type m (some body))
    unfolding decode_body peek_message_type
    decode_body-Extends body body' e e' = (
      elim (Option-cases (map_get_type m o)) [
        | inl h ↦ ground (arith, map_get_type-Extends)
        | inr (t, h) ↦ ground (arith, map_get_type-Extends, decode_object-Extends t)
      ],
      ground (arith, map_get_type-Extends),
    )
