-- ===== src/Endpoint/Unix.antt =====
-- src/common/endpoint_unix.cc: `UnixConnection`, whose loops read and write under a deadline, over the system
-- calls that they make. A clock reading is in nanoseconds and a timeout in milliseconds, below the range of the
-- clock's type; `errno`, which no caller reads, is left out.
use dafeng_wubi.Prelude.{
  ℕ, ◌+◌, ◌-◌, ◌*◌, ◌/◌, ◌==◌, Bool, true, false, not, [], ◌++◌, Option, none, some, if◌then◌else◌,
  ltb, length, drop, Bytes,
}
use dafeng_wubi.Endpoint.Loop.{Progress, loop}

-- what `poll` returns for one descriptor
pub data Polled : Type 0 where
  timed_out : Polled
  interrupted : Polled
  failed : Polled
  ready : Polled

-- what `read` or `write` returns; `again` is `EINTR` or `EAGAIN`
pub data Transfer (A : Type 0) : Type 0 where
  done : A → Transfer A
  again : Transfer A
  broken : Transfer A

-- The system calls of a connection. `read` returns the bytes that it puts into the buffer, none at the end of
-- the stream, and `write` the number of bytes that it takes.
pub record Os : Type 1 where
  pub World : Type 0
  pub now : World → ℕ × World
  pub poll_in : (fd timeout : ℕ) → World → Polled × World
  pub poll_out : (fd timeout : ℕ) → World → Polled × World
  pub read : (fd size : ℕ) → World → Transfer Bytes × World
  pub write : (fd : ℕ) → Bytes → World → Transfer ℕ × World
  pub close : (fd : ℕ) → World → World

abbrev pub int_max : ℕ
int_max = 2_147_483_647

-- `RemainingMs` at a reading of the clock
unfoldable pub remaining_ms : (deadline now : ℕ) → ℕ
remaining_ms deadline now =
    let rem = (deadline - now) / 1_000_000 in if ltb int_max rem then int_max else rem

module _ (os : Os) where
  open os use {World}

  -- `read` behind a `poll` that is ready; `got` is what the buffer has
  unfoldable pub after_read : Bytes → Transfer Bytes × World → Progress Bytes (Option Bytes) × World
  after_read got (Transfer.done chunk, w) =
      if length chunk == 0 then (Progress.ends none, w) else (Progress.goes_on (got ++ chunk), w)
  after_read got (Transfer.again, w) = (Progress.goes_on got, w)
  after_read got (Transfer.broken, w) = (Progress.ends none, w)

  unfoldable pub after_poll_in :
      (fd size : ℕ) → Bytes → Polled × World → Progress Bytes (Option Bytes) × World
  unfolding after_read
  after_poll_in fd size got (Polled.timed_out, w) = (Progress.ends none, w)
  after_poll_in fd size got (Polled.interrupted, w) = (Progress.goes_on got, w)
  after_poll_in fd size got (Polled.failed, w) = (Progress.ends none, w)
  after_poll_in fd size got (Polled.ready, w) = after_read got (os.read fd (size - length got) w)

  -- one round of the loop of `ReadFull`
  unfoldable pub read_round :
      (fd size deadline : ℕ) → Bytes → World → Progress Bytes (Option Bytes) × World
  read_round fd size deadline got w =
      if not (ltb (length got) size)
      then (Progress.ends (some got), w)
      else (let (t, w1) = os.now w in
          let rem = remaining_ms deadline t in
          if rem == 0
          then (Progress.ends none, w1)
          else after_poll_in fd size got (os.poll_in fd rem w1))

  -- `write` behind a `poll` that is ready; `total` is what has been written
  unfoldable pub after_write : ℕ → Transfer ℕ × World → Progress ℕ Bool × World
  after_write total (Transfer.done n, w) = (Progress.goes_on (total + n), w)
  after_write total (Transfer.again, w) = (Progress.goes_on total, w)
  after_write total (Transfer.broken, w) = (Progress.ends false, w)

  unfoldable pub after_poll_out : (fd : ℕ) → Bytes → ℕ → Polled × World → Progress ℕ Bool × World
  after_poll_out fd buf total (Polled.timed_out, w) = (Progress.ends false, w)
  after_poll_out fd buf total (Polled.interrupted, w) = (Progress.goes_on total, w)
  after_poll_out fd buf total (Polled.failed, w) = (Progress.ends false, w)
  after_poll_out fd buf total (Polled.ready, w) = after_write total (os.write fd (drop total buf) w)

  -- one round of the loop of `WriteAll`
  unfoldable pub write_round :
      (fd : ℕ) → Bytes → (deadline : ℕ) → ℕ → World → Progress ℕ Bool × World
  write_round fd buf deadline total w =
      if not (ltb total (length buf))
      then (Progress.ends true, w)
      else (let (t, w1) = os.now w in
          let rem = remaining_ms deadline t in
          if rem == 0
          then (Progress.ends false, w1)
          else after_poll_out fd buf total (os.poll_out fd rem w1))

  -- the two loops from a fresh start; `t0` is the first reading of the clock
  unfoldable pub read_loop : (fuel fd size t0 timeout : ℕ) → World → Option (Option Bytes × World)
  read_loop fuel fd size t0 timeout w =
      loop (read_round fd size (t0 + timeout * 1_000_000)) fuel (Progress.goes_on [], w)

  unfoldable pub write_loop :
      (fuel fd : ℕ) → Bytes → (t0 timeout : ℕ) → World → Option (Bool × World)
  write_loop fuel fd buf t0 timeout w =
      loop (write_round fd buf (t0 + timeout * 1_000_000)) fuel (Progress.goes_on 0, w)

  -- a connection: its descriptor, `none` for -1, and the system
  abbrev pub UnixConnection : Type 0
  UnixConnection = Option ℕ × World

  -- `ReadFull`, for so many rounds
  unfoldable pub read_full_in :
      (fuel size timeout : ℕ) → UnixConnection → Option (Option Bytes × World)
  read_full_in fuel size timeout (none, w) = some (none, w)
  read_full_in fuel size timeout (some fd, w) =
      let (t0, w1) = os.now w in read_loop fuel fd size t0 timeout w1

  -- `WriteAll`, for so many rounds
  unfoldable pub write_all_in :
      (fuel : ℕ) → Bytes → (timeout : ℕ) → UnixConnection → Option (Bool × World)
  write_all_in fuel buf timeout (none, w) = some (false, w)
  write_all_in fuel buf timeout (some fd, w) =
      let (t0, w1) = os.now w in write_loop fuel fd buf t0 timeout w1

  -- `Close`
  unfoldable pub close_connection : UnixConnection → UnixConnection
  close_connection (none, w) = (none, w)
  close_connection (some fd, w) = (none, os.close fd w)

  -- `IsConnected`
  unfoldable pub is_connected_now : UnixConnection → Bool
  is_connected_now (none, w) = false
  is_connected_now (some fd, w) = true
