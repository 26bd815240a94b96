-- ===== src/Lib.antt =====
-- A model of dafeng, the companion daemon of a wubi input method, and the theorems that make it correct.
--
-- The input method's plugin talks to the daemon through the client library. A request is encoded as a
-- msgpack map, framed by its length and sent over a local connection; the server decodes it, has a backend
-- reorder the candidates, and replies. What the user commits goes to a history, from which the daemon learns
-- pairs of neighbouring characters and new words, and for new words it computes wubi codes.
--
-- The files, and the code that they model:
--   Prelude and below: shared helpers, Boolean tests, lists over the native numbers, a stable sort, and
--     std::unordered_map as an association list.
--   Protocol and below: include/dafeng/types.h, include/dafeng/protocol.h and src/common/protocol.cc. Frame is
--     WriteFrameLength, ReadFrameLength and EncodeFrame; Body is EncodeBody, DecodeBody and PeekMessageType
--     with the helpers on keys; Msgpack is the serialiser's interface and its laws.
--   Endpoint and below: include/dafeng/endpoint.h, the interface of a connection, and what a lossless one does;
--     src/common/endpoint_unix.cc over the system calls. Unix is UnixConnection, Listen is ListenEndpoint,
--     ConnectEndpoint and the life of UnixServer, Ending makes UnixConnection a connection, since its loops end, Accept is Accept, Shutdown and Run of src/daemon/server.cc.
--   Server and below: src/daemon/server.cc and server.h. `handle_message` is the chain of std::get_if in
--     HandleConnection, `serve_round` one round of its loop, `handle_connection` the loop.
--   Client and below: src/client/client.cc. `call` is what Rerank, GetStats and Ping do alike.
--   Rerank and below: src/daemon/mock_reranker.cc, reranker_deterministic.cc and reranker_llamacpp.cc.
--   Utf8 and below: the UTF-8 scanners of src/daemon/ngram.cc, new_word.cc and wubi_codec.cc.
--   WubiCodec and below: src/daemon/wubi_codec.cc and wubi_codec.h.
--   History and below: src/daemon/history_store.h and history_store.cc. Store is PathIsUnder, the factory and the
--     methods of the store over SQLite; Phrases is the phrases of a history.
--   Disk: std::ofstream on a temporary file and std::filesystem::rename, as the writers use them.
--   Ngram and below: src/daemon/ngram.cc. File is the file format, History the learning pass.
--   NewWord and below: src/daemon/new_word.cc.
--   UserDict and below: src/daemon/user_dict.cc, the learned words as YAML and as a RIME dictionary.
--   GitSync and below: src/daemon/git_sync.cc and git_sync.h over libgit2.
--   LearningRound and below: src/daemon/learning_round.cc, which composes the parts above, and RequestRimeRedeploy
--     of src/daemon/user_dict.cc.
--   AutoLearn and below: src/daemon/auto_learn.cc. Runner is the state of AutoLearnRunner, its gates and its rounds.
--   CommandLine: the loop over argv and std::atoi. Daemon and below: the options of src/daemon/main.cc.
--   Cli and below: src/cli/main.cc. Launchd is `pause` and `resume`, Setup is `setup`, Learn
--     is `learn`. ClientC and below: src/client/client_c.cc.
--   Tests and below: runs on concrete inputs.
--
-- Machine integers are native numbers with their wrap-around written out; bytes are numbers that the
-- theorems bound where it matters. Floats are an abstract type with the operations that the code uses.
-- Texts are lists of bytes.
--
-- Bounds and fuel: `handle_connection` runs for a given number of rounds, and one round more than the
-- stream has bytes is enough, since a message takes at least five bytes; `chars_fuel` and `offsets_fuel`
-- have the length of the text, since a character takes at least one byte; `decimal` has 20 digits, which a
-- number of 64 bits does not exceed. The loops of ReadFull and WriteAll have one round more
-- than there are bytes to move and interruptions to come, which is enough since every other round moves a byte;
-- those of Accept and Shutdown run for a given number of rounds, and one more than calls are interrupted is
-- enough after a shutdown; the loop over argv has a round for each argument. `pause` waits for 30 rounds and `resume` makes 5 attempts, as in
-- the code. All other loops are structural.
--
-- Parameters: msgpack, llama.cpp, SQLite, libgit2, the system calls of the sockets, the clock, the dialer, the
-- reranker and the logger of the server, std::filesystem::weakly_canonical, and the outcome of the file system's
-- calls. That calls are interrupted finitely often is assumed where a loop is to end. A SQL statement is one call, with its bindings and its results. The programs that the command-line client
-- runs are parameters, too. Not modelled: the Windows endpoint and the client's commands that only call and print. Several connections at a time are not modelled either:
-- the counters' atomic operations are single steps. Not modelled by intent: logging, paths, the loading of
-- models, the plugin and the inspector app.
pub mod Prelude
pub mod Protocol
pub mod Utf8
pub mod WubiCodec
pub mod Disk
pub mod History
pub mod Rerank
pub mod Endpoint
pub mod Server
pub mod Client
pub mod NewWord
pub mod UserDict
pub mod AutoLearn
pub mod GitSync
pub mod LearningRound
pub mod CommandLine
pub mod Daemon
pub mod Cli
pub mod ClientC
pub mod Ngram
mod Tests
