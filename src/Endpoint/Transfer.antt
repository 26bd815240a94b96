-- ===== src/Endpoint/Transfer.antt =====
-- src/common/endpoint_unix.cc: the documented behaviour of the system calls of a connection.
use dafeng_wubi.Prelude.{ℕ, ◌≤◌, ◌<◌, ◌++◌, ◌≡◌, length, take, Bytes}
use dafeng_wubi.Endpoint.Unix.{Polled, Transfer, Os}

-- how many interruptions are left behind a `poll`: one fewer where it was interrupted
abbrev pub FewerPolls : Polled → (before after : ℕ) → Type 0
FewerPolls Polled.interrupted before after = after < before
FewerPolls _ before after = after ≤ before

-- how many are left behind a `read` or a `write`
abbrev pub FewerTransfers : {A : Type 0} → Transfer A → (before after : ℕ) → Type 0
FewerTransfers Transfer.again before after = after < before
FewerTransfers _ before after = after ≤ before

-- A `write` that takes something takes at least a byte, where there is one.
abbrev pub TakesSome : Bytes → Transfer ℕ → Type 0
TakesSome b (Transfer.done n) = 0 < length b → 0 < n
TakesSome b _ = Unit {0}

-- Signals interrupt the calls, and a socket that was ready blocks again (`EINTR` and `EAGAIN` of `poll(2)`, `read(2)` and
-- `write(2)`), only so many times from a state on; a `write(2)` of a buffer that is not empty returns no 0.
pub record Interruptions (os : Os) : Type 0 where
  pub interruptions : os.World → ℕ
  pub now-fewer : (w : os.World) → interruptions (os.now w).1 ≤ interruptions w
  pub poll_in-fewer :
      (fd t : ℕ) (w : os.World)
      → FewerPolls (os.poll_in fd t w).0 (interruptions w) (interruptions (os.poll_in fd t w).1)
  pub poll_out-fewer :
      (fd t : ℕ) (w : os.World)
      → FewerPolls (os.poll_out fd t w).0 (interruptions w) (interruptions (os.poll_out fd t w).1)
  pub read-fewer :
      (fd n : ℕ) (w : os.World)
      → FewerTransfers (os.read fd n w).0 (interruptions w) (interruptions (os.read fd n w).1)
  pub write-fewer :
      (fd : ℕ) (b : Bytes) (w : os.World)
      → FewerTransfers (os.write fd b w).0 (interruptions w) (interruptions (os.write fd b w).1)
  pub write-TakesSome : (fd : ℕ) (b : Bytes) (w : os.World) → TakesSome b (os.write fd b w).0

-- what a `read` has done to the bytes that wait at the socket
abbrev pub Took : ℕ → Bytes → Transfer Bytes → Bytes → Type 0
Took n before (Transfer.done chunk) after = (before ≡ chunk ++ after) × (length chunk ≤ n)
Took n before _ after = after ≡ before

-- `read(2)` on a stream socket: it takes at most so many bytes, in order, and no other call takes any.
pub record Reads (os : Os) (fd : ℕ) : Type 0 where
  pub incoming : os.World → Bytes
  pub now-incoming : (w : os.World) → incoming (os.now w).1 ≡ incoming w
  pub poll_in-incoming : (t : ℕ) (w : os.World) → incoming (os.poll_in fd t w).1 ≡ incoming w
  pub read-Took :
      (n : ℕ) (w : os.World) → Took n (incoming w) (os.read fd n w).0 (incoming (os.read fd n w).1)

-- what a `write` has done to the bytes that were sent
abbrev pub Gave : Bytes → Bytes → Transfer ℕ → Bytes → Type 0
Gave b before (Transfer.done n) after = (after ≡ before ++ take n b) × (n ≤ length b)
Gave b before _ after = after ≡ before

-- `write(2)` on a stream socket: it sends a prefix of the buffer, and no other call sends anything.
pub record Writes (os : Os) (fd : ℕ) : Type 0 where
  pub outgoing : os.World → Bytes
  pub now-outgoing : (w : os.World) → outgoing (os.now w).1 ≡ outgoing w
  pub poll_out-outgoing : (t : ℕ) (w : os.World) → outgoing (os.poll_out fd t w).1 ≡ outgoing w
  pub write-Gave :
      (b : Bytes) (w : os.World)
      → Gave b (outgoing w) (os.write fd b w).0 (outgoing (os.write fd b w).1)
