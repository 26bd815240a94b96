-- ===== src/Protocol/Body.antt =====
-- The body codec of src/common/protocol.cc, over msgpack as a parameter.
pub mod Key
mod Encode
mod Decode
unfoldable pub use Encode.*
unfoldable pub use Decode.*
