-- ===== src/Protocol.antt =====
-- include/dafeng/types.h and the body codec of src/common/protocol.cc. The serialiser, msgpack, is the
-- parameter of `Protocol.Msgpack`; the framing is in `Protocol.Frame`.
mod Types
pub mod Frame
pub mod Msgpack
pub mod Body
pub mod Lookup
pub mod RoundTrip
pub mod Compat
pub use Types.*
