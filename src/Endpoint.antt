-- ===== src/Endpoint.antt =====
-- include/dafeng/endpoint.h: the interface of a connection, which the server and the client use, and what a
-- connection that loses nothing does. Timeouts are in milliseconds.
pub mod Loop
pub mod Unix
pub mod Transfer
pub mod Listen
pub mod Descriptors
pub mod Accept
pub mod Stopping
pub mod Ending
pub mod Moved
use dafeng_wubi.Prelude.{
  ℕ, ◌≤◌, ◌<◌, Bool, true, Option, none, some, ◌≡◌, length, take, drop, ◌++◌, Bytes,
}

-- `Connection`. A state stands for the socket and for what its peer does; `none` is the `false` of
-- `ReadFull`.
pub record Connection : Type 1 where
  pub State : Type 0
  pub read_full : (size timeout : ℕ) → State → Option Bytes × State
  pub write_all : Bytes → (timeout : ℕ) → State → Bool × State
  pub is_connected : State → Bool
  pub close : State → State

-- A connection in its open states: it is connected; where time is left, it delivers the bytes of `incoming` in order, a read past
-- their end fails, and every write arrives behind `outgoing`; and it stays open but for a read that fails.
pub record Reliable (c : Connection) : Type 1 where
  pub IsOpen : c.State → Type 0
  pub incoming : c.State → Bytes
  pub outgoing : c.State → Bytes
  pub is_connected-true : (s : c.State) → IsOpen s → c.is_connected s ≡ true
  pub read_full-some :
      (n t : ℕ) (s : c.State)
      → IsOpen s
      → 0 < t
      → n ≤ length (incoming s)
      → ((c.read_full n t s).0 ≡ some (take n (incoming s)))
        × (incoming (c.read_full n t s).1 ≡ drop n (incoming s))
        × (outgoing (c.read_full n t s).1 ≡ outgoing s)
        × IsOpen (c.read_full n t s).1
  pub read_full-none :
      (n t : ℕ) (s : c.State)
      → IsOpen s
      → 0 < t
      → length (incoming s) < n
      → ((c.read_full n t s).0 ≡ none) × (outgoing (c.read_full n t s).1 ≡ outgoing s)
  pub write_all-true :
      (b : Bytes) (t : ℕ) (s : c.State)
      → IsOpen s
      → 0 < t
      → ((c.write_all b t s).0 ≡ true)
        × (incoming (c.write_all b t s).1 ≡ incoming s)
        × (outgoing (c.write_all b t s).1 ≡ outgoing s ++ b)
        × IsOpen (c.write_all b t s).1
