-- ===== src/Tests/ProtocolTests.antt =====
-- src/common/protocol.cc at concrete inputs.
use dafeng_wubi.Prelude.{ℕ, [], ◌∷◌, none, some, arith, ◌≡◌, refl, codes, Bytes}
use dafeng_wubi.Prelude.Int.{pos}
use dafeng_wubi.Protocol.{Message, MessageType}
use dafeng_wubi.Protocol.Frame.{read_frame_length, write_frame_length, encode_frame}
use dafeng_wubi.Protocol.Body.{encode_body, decode_body, peek_message_type, unpack_body}
use dafeng_wubi.Protocol.RoundTrip.{decode_body-encode_body}
use dafeng_wubi.Protocol.Compat.{decode_body-Extends, Extends}
use dafeng_wubi.Tests.PlainPack.{
  plain_pack, plain_pack_laws, write, unpack_plain, Object, key, value, pairs,
}
use dafeng_wubi.Protocol.Msgpack.{uint}

frame_of_three : encode_frame (7 ∷ 8 ∷ 9 ∷ []) ≡ 0 ∷ 0 ∷ 0 ∷ 3 ∷ 7 ∷ 8 ∷ 9 ∷ []
unfolding encode_frame write_frame_length
frame_of_three = refl

frame_too_long : read_frame_length (some (0 ∷ 16 ∷ 0 ∷ 1 ∷ [])) ≡ none
unfolding read_frame_length
frame_too_long = refl

abbrev response : Message ℕ
response = Message.rerank_response (record {
  request_id = 9;
  reordered_indices = pos 1 ∷ pos 0 ∷ [];
  scores = 3 ∷ 2 ∷ [];
  latency_us = 120;
  model_version = 1;
})

decode_body-encode_body_example :
    (decode_body plain_pack (some (encode_body plain_pack response)) ≡ some response)
    × (peek_message_type plain_pack (some (encode_body plain_pack response))
        ≡ some MessageType.rerank_response)
unfolding encode_body write
decode_body-encode_body_example =
    decode_body-encode_body plain_pack plain_pack_laws response (omega arith) (omega arith)

-- {"t": 9}
abbrev unnamed_body : Bytes
unnamed_body = 1 ∷ 1 ∷ b't' ∷ 0 ∷ 8 ∷ 9 ∷ []

-- {"t": 4, "id": 3} and {"t": 4, "zz": 5, "id": 3}
abbrev ping_body : Bytes
ping_body = 2 ∷ 1 ∷ b't' ∷ 0 ∷ 8 ∷ 4 ∷ 2 ∷ b'i' ∷ b'd' ∷ 0 ∷ 32 ∷ 3 ∷ []

abbrev longer_body : Bytes
longer_body =
    3 ∷ 1 ∷ b't' ∷ 0 ∷ 8 ∷ 4 ∷ 2 ∷ b'z' ∷ b'z' ∷ 0 ∷ 32 ∷ 5 ∷ 2 ∷ b'i' ∷ b'd' ∷ 0 ∷ 32 ∷ 3 ∷ []

tag : Object × Object
tag = (key (codes "t"), value (uint 8 4))

id : Object × Object
id = (key (codes "id"), value (uint 32 3))

ping_object : Object
ping_object = pairs ((codes "t", uint 8 4) ∷ (codes "id", uint 32 3) ∷ [])

longer_object : Object
longer_object =
    pairs ((codes "t", uint 8 4) ∷ (codes "zz", uint 32 5) ∷ (codes "id", uint 32 3) ∷ [])

zz-Extends : Extends plain_pack ping_object longer_object
unfolding tag id ping_object longer_object
zz-Extends = record {
  before = tag ∷ [];
  after = id ∷ [];
  key = key (codes "zz");
  value = value (uint 32 5);
  unknown = ground arith;
  longer = refl;
  shorter = refl;
}

decode_body-Extends_example :
    (decode_body plain_pack (some longer_body) ≡ decode_body plain_pack (some ping_body))
    × (peek_message_type plain_pack (some longer_body)
        ≡ peek_message_type plain_pack (some ping_body))
unfolding unpack_body unpack_plain ping_object longer_object
decode_body-Extends_example =
    decode_body-Extends plain_pack zz-Extends ping_body longer_body refl refl
