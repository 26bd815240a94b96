-- ===== src/Tests/ServerTests.antt =====
-- src/daemon/server.cc at concrete inputs: a stream with a ping, a rerank request and a stats request.
use dafeng_wubi.Prelude.{
  ℕ, suc, ◌+◌, List, [], ◌∷◌, ◌++◌, some, ◌≡◌, refl, arith, codes, length, Bytes, map,
}
use dafeng_wubi.Protocol.{Message, MessageType}
use dafeng_wubi.Protocol.Frame.{encode_frame, write_frame_length}
use dafeng_wubi.Protocol.Body.{encode_body}
use dafeng_wubi.Rerank.Mock.{mock_rerank}
use dafeng_wubi.Server.{Services, initial}
use dafeng_wubi.Server.Run.{run, run-tags, run-Counted, Counted, tag_of}
use dafeng_wubi.Server.Stream.{next_message, messages, frames}
use dafeng_wubi.Server.Serving.{Serves, handle_connection_lem}
use dafeng_wubi.Server.Frames.{handle_connection-frames}
use dafeng_wubi.Tests.Peers.{plain_stream, plain_stream-Reliable}
use dafeng_wubi.Tests.PlainPack.{plain_pack, plain_pack_laws, write}

-- the mock reranker; the environment is the number of commits
abbrev pub services : Services ℕ
services = record {
  Env = ℕ;
  rerank = λ req env. (mock_rerank 40 req, env);
  record_commit = λ ev env. env + 1;
  uptime_sec = λ env. 5;
}

abbrev requests : List (Message ℕ)
requests =
    Message.ping (record { request_id = 1 })
    ∷ Message.rerank_request (record {
      request_id = 2;
      code = codes "a";
      context_before = [];
      candidates = codes "x" ∷ codes "y" ∷ [];
      app_id = [];
    })
    ∷ Message.commit_event
        (record { code = codes "a"; committed_text = codes "y"; context_before = [] })
    ∷ Message.stats_request (record { request_id = 3 })
    ∷ []

run-tags_example :
    map tag_of (run plain_pack services requests (initial 0)).0
    ≡ (MessageType.pong, 1)
      ∷ (MessageType.rerank_response, 2)
      ∷ (MessageType.stats_response, 3)
      ∷ []
unfolding mock_rerank
run-tags_example = run-tags plain_pack services (λ req env. refl) requests (initial 0)

run-Counted_example :
    Counted plain_pack services requests
      (run plain_pack services requests (initial 0)).0
      (initial 0)
      (run plain_pack services requests (initial 0)).1
run-Counted_example = run-Counted plain_pack services requests (initial 0) (omega arith)

-- the requests and half a header
abbrev stream : Bytes
stream = frames plain_pack requests ++ 0 ∷ 0 ∷ []

handle_connection_lem_example :
    Serves plain_pack services plain_stream plain_stream-Reliable 300
      (initial 0)
      (some 3, (stream, []))
      (messages plain_pack 300 stream)
unfolding encode_frame encode_body write_frame_length write plain_stream-Reliable
handle_connection_lem_example =
    handle_connection_lem plain_pack services plain_stream plain_stream-Reliable 300 (initial 0)
      (some 3, (stream, [])) tt (omega arith)

handle_connection-frames_example :
    Serves plain_pack services plain_stream plain_stream-Reliable
      (suc (length stream))
      (initial 0)
      (some 3, (stream, []))
      requests
unfolding next_message encode_body write plain_stream-Reliable
handle_connection-frames_example =
    handle_connection-frames plain_pack plain_pack_laws services plain_stream plain_stream-Reliable
      requests (0 ∷ 0 ∷ []) (initial 0) (some 3, (stream, [])) tt (omega arith) refl refl
