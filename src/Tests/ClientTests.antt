-- ===== src/Tests/ClientTests.antt =====
-- src/client/client.cc at concrete inputs.
use dafeng_wubi.Prelude.{ℕ, [], ◌∷◌, none, some, ◌≡◌, refl, arith, codes, Bytes}
use dafeng_wubi.Protocol.{Message, RerankRequest, CommitEvent}
use dafeng_wubi.Protocol.Body.{encode_body}
use dafeng_wubi.Rerank.Mock.{mock_rerank}
use dafeng_wubi.Server.{initial}
use dafeng_wubi.Server.Stream.{frame}
use dafeng_wubi.Client.{
  Clock, Dialer, Client, rerank, get_stats, ping, record_commit, reset_connection, rerank_message,
}
use dafeng_wubi.Client.Failures.{Settled, Recorded, client-Settled}
use dafeng_wubi.Client.Exchange.{Called, rerank-Answered}
use dafeng_wubi.Tests.PlainPack.{plain_pack, plain_pack_laws, write}
use dafeng_wubi.Tests.Peers.{plain_stream, server_stream, server_stream-Answering}
use dafeng_wubi.Tests.ServerTests.{services}

-- nobody listens
abbrev pub dialer : Dialer plain_stream
dialer = record { Net = ℕ; connect_endpoint = λ net. (none, net); destroy = λ c net. net }

abbrev pub clock : Clock
clock = record { start = 5; at_write = 6; at_header = 7; at_body = 90 }

abbrev pub request : RerankRequest
request = record {
  request_id = 0;
  code = codes "a";
  context_before = [];
  candidates = codes "x" ∷ codes "y" ∷ [];
  app_id = [];
}

abbrev numbered : ℕ → RerankRequest
numbered id = record request { request_id = id }

abbrev pong_frame : Bytes
pong_frame = frame plain_pack (Message.pong (record { request_id = 4 }))

abbrev pub resp_frame : Bytes
resp_frame = frame plain_pack (Message.rerank_response (mock_rerank 40 (numbered 4)))

abbrev pub on_stream : Bytes → Client dialer
on_stream incoming = record { conn_ = some (some 3, (incoming, [])); next_request_id = 4; net = 0 }

abbrev event : CommitEvent
event = record { code = codes "a"; committed_text = codes "x"; context_before = [] }

client-Settled_example :
    Settled plain_pack dialer (rerank plain_pack dialer request 30 clock (on_stream pong_frame))
    × Settled plain_pack dialer (get_stats plain_pack dialer 30 clock (on_stream pong_frame))
    × Settled plain_pack dialer (ping plain_pack dialer 30 clock (on_stream pong_frame))
    × Recorded plain_pack dialer event
        (on_stream pong_frame)
        (record_commit plain_pack dialer event (on_stream pong_frame))
    × ((reset_connection plain_pack dialer (on_stream pong_frame)).conn_ ≡ none)
client-Settled_example =
    client-Settled plain_pack dialer request event 30 clock (on_stream pong_frame)

abbrev to_server : Dialer (server_stream services)
to_server = record { Net = ℕ; connect_endpoint = λ net. (none, net); destroy = λ c net. net }

abbrev connected : Client to_server
connected = record { conn_ = some (some 3, ([], initial 0)); next_request_id = 4; net = 0 }

abbrev in_time : Clock
in_time = record { start = 5; at_write = 6; at_header = 7; at_body = 9 }

rerank-Answered_example :
    Called plain_pack plain_pack_laws to_server services
      (server_stream-Answering services)
      (some (mock_rerank 40 (numbered 4)))
      (rerank_message plain_pack to_server request 4)
      (some 3, ([], initial 0))
      4
      (rerank plain_pack to_server request 30 in_time connected)
unfolding mock_rerank server_stream-Answering encode_body write
rerank-Answered_example =
    rerank-Answered plain_pack plain_pack_laws to_server services (server_stream-Answering services)
      request 30 in_time connected (some 3, ([], initial 0)) refl tt refl
      (omega arith, omega arith, omega arith) (omega arith, omega arith) (omega arith, omega arith)
