-- ===== src/Endpoint/Ending.antt =====
-- src/common/endpoint_unix.cc: the loops of `ReadFull` and `WriteAll` end, so that `UnixConnection` is a `Connection`.
use dafeng_wubi.Prelude.{
  ℕ, suc, ◌+◌, ◌-◌, ◌*◌, ◌<◌, ◌==◌, Bool, false, [], Option, none, some, ◌≡◌, inl, inr, refl, ap,
  arith, ltb, length, drop, ap, Bytes, Bool-cases, length-append, length-drop,
}
use dafeng_wubi.Endpoint.{Connection}
use dafeng_wubi.Endpoint.Unix.{
  Polled, Transfer, Os, UnixConnection, remaining_ms, after_read, after_poll_in, read_round,
  after_write, after_poll_out, write_round, read_loop, write_loop, read_full_in, write_all_in,
  close_connection, is_connected_now,
}
use dafeng_wubi.Endpoint.Loop.{Progress, Falls, Falls-weaken, loop-ends, ended, ended-some}
use dafeng_wubi.Endpoint.Transfer.{Interruptions, FewerPolls, FewerTransfers, TakesSome}

module _ (os : Os) (ints : Interruptions os) where
  open os use {World}
  open ints use {interruptions}

  -- the bytes that a read has still to take, and the interruptions to come
  abbrev to_read : ℕ → Bytes → World → ℕ
  to_read size got w = (size - length got) + interruptions w

  after_read-Falls :
      (size before : ℕ) (got : Bytes) (p : Transfer Bytes × World)
      → length got < size
      → FewerTransfers p.0 before (interruptions p.1)
      → Falls (to_read size) (size - length got + before) (after_read os got p)
  unfolding after_read
  after_read-Falls size before got (Transfer.done chunk, w) h k =
      elim (Bool-cases (length chunk == 0)) [
        | inl e ↦ rw e tt
        | inr e ↦ rw e (ground (arith, length-append got chunk))
      ]
  after_read-Falls size before got (Transfer.again, w) h k = omega arith
  after_read-Falls size before got (Transfer.broken, w) h k = tt

  after_poll_in-Falls :
      (fd size before : ℕ) (got : Bytes) (p : Polled × World)
      → length got < size
      → FewerPolls p.0 before (interruptions p.1)
      → Falls (to_read size) (size - length got + before) (after_poll_in os fd size got p)
  unfolding after_poll_in
  after_poll_in-Falls fd size before got (Polled.ready, w) h k =
      let n = size - length got in
      Falls-weaken (to_read size) (after_read os got (os.read fd n w)) (omega arith)
        (after_read-Falls size (interruptions w) got (os.read fd n w) h (ints.read-fewer fd n w))
  after_poll_in-Falls fd size before got (Polled.interrupted, w) h k = omega arith
  after_poll_in-Falls fd size before got (Polled.timed_out, w) h k = tt
  after_poll_in-Falls fd size before got (Polled.failed, w) h k = tt

  read_round-Falls :
      (fd size deadline : ℕ) (got : Bytes) (w : World)
      → Falls (to_read size) (to_read size got w) (read_round os fd size deadline got w)
  unfolding read_round
  read_round-Falls fd size deadline got w =
      let w1 = (os.now w).1 in
      let rem = remaining_ms deadline (os.now w).0 in
      elim (Bool-cases (ltb (length got) size)) [
        | inr e ↦ rw e tt
        | inl e ↦ rw e (elim (Bool-cases (rem == 0)) [
          | inl z ↦ rw z tt
          | inr z ↦ rw z (
              Falls-weaken (to_read size) (after_poll_in os fd size got (os.poll_in fd rem w1))
                (omega (arith, ints.now-fewer w))
                (after_poll_in-Falls fd size (interruptions w1) got (os.poll_in fd rem w1)
                  (ground arith) (ints.poll_in-fewer fd rem w1)))
        ])
      ]

  -- the bytes that a write has still to send, and the interruptions to come
  abbrev to_write : Bytes → ℕ → World → ℕ
  to_write buf total w = (length buf - total) + interruptions w

  after_write-Falls :
      (buf : Bytes) (before total : ℕ) (p : Transfer ℕ × World)
      → total < length buf
      → FewerTransfers p.0 before (interruptions p.1)
      → TakesSome (drop total buf) p.0
      → Falls (to_write buf) (length buf - total + before) (after_write os total p)
  unfolding after_write
  after_write-Falls buf before total (Transfer.done n, w) h k t =
      let some_left : 0 < length (drop total buf) = omega (arith, length-drop total buf) in
      let taken : 0 < n = t some_left in omega arith
  after_write-Falls buf before total (Transfer.again, w) h k t = omega arith
  after_write-Falls buf before total (Transfer.broken, w) h k t = tt

  after_poll_out-Falls :
      (fd : ℕ) (buf : Bytes) (before total : ℕ) (p : Polled × World)
      → total < length buf
      → FewerPolls p.0 before (interruptions p.1)
      → Falls (to_write buf) (length buf - total + before) (after_poll_out os fd buf total p)
  unfolding after_poll_out
  after_poll_out-Falls fd buf before total (Polled.ready, w) h k =
      let b = drop total buf in
      Falls-weaken (to_write buf) (after_write os total (os.write fd b w)) (omega arith) (
        after_write-Falls buf (interruptions w) total (os.write fd b w) h (ints.write-fewer fd b w)
          (ints.write-TakesSome fd b w))
  after_poll_out-Falls fd buf before total (Polled.interrupted, w) h k = omega arith
  after_poll_out-Falls fd buf before total (Polled.timed_out, w) h k = tt
  after_poll_out-Falls fd buf before total (Polled.failed, w) h k = tt

  write_round-Falls :
      (fd : ℕ) (buf : Bytes) (deadline total : ℕ) (w : World)
      → Falls (to_write buf) (to_write buf total w) (write_round os fd buf deadline total w)
  unfolding write_round
  write_round-Falls fd buf deadline total w =
      let w1 = (os.now w).1 in
      let rem = remaining_ms deadline (os.now w).0 in
      elim (Bool-cases (ltb total (length buf))) [
        | inr e ↦ rw e tt
        | inl e ↦ rw e (elim (Bool-cases (rem == 0)) [
          | inl z ↦ rw z tt
          | inr z ↦ rw z (
              Falls-weaken (to_write buf) (after_poll_out os fd buf total (os.poll_out fd rem w1))
                (omega (arith, ints.now-fewer w))
                (after_poll_out-Falls fd buf (interruptions w1) total (os.poll_out fd rem w1)
                  (ground arith) (ints.poll_out-fewer fd rem w1)))
        ])
      ]

  -- `ReadFull` ends, whatever the socket does and whatever the clock shows, within one more round than the bytes to read and the
  -- interruptions to come.
  pub read_full-ends :
      (fuel size timeout : ℕ) (c : UnixConnection os)
      → size + interruptions c.1 < fuel
      → (r : Option Bytes × World) × (read_full_in os fuel size timeout c ≡ some r)
  unfolding read_full_in read_loop
  read_full-ends fuel size timeout (none, w) h = ((none, w), refl)
  read_full-ends fuel size timeout (some fd, w) h =
      let deadline = (os.now w).0 + timeout * 1_000_000 in
      loop-ends (read_round os fd size deadline) (to_read size) (read_round-Falls fd size deadline)
        fuel (Progress.goes_on [], (os.now w).1) (omega (arith, ints.now-fewer w))

  -- `WriteAll` ends in the same way.
  pub write_all-ends :
      (fuel : ℕ) (buf : Bytes) (timeout : ℕ) (c : UnixConnection os)
      → length buf + interruptions c.1 < fuel
      → (r : Bool × World) × (write_all_in os fuel buf timeout c ≡ some r)
  unfolding write_all_in write_loop
  write_all-ends fuel buf timeout (none, w) h = ((false, w), refl)
  write_all-ends fuel buf timeout (some fd, w) h =
      let deadline = (os.now w).0 + timeout * 1_000_000 in
      loop-ends (write_round os fd buf deadline) (to_write buf) (write_round-Falls fd buf deadline)
        fuel (Progress.goes_on 0, (os.now w).1) (omega (arith, ints.now-fewer w))

  -- the rounds that are enough
  abbrev pub rounds_of : ℕ → World → ℕ
  rounds_of size w = suc (size + interruptions w)

  -- `ReadFull` and `WriteAll`, whose loops end
  unfoldable pub read_full_ended :
      (size timeout : ℕ) → UnixConnection os → Option Bytes × UnixConnection os
  unfolding read_full_in ended
  read_full_ended size timeout c =
      let r =
        ended (read_full_in os (rounds_of size c.1) size timeout c)
          (read_full-ends (rounds_of size c.1) size timeout c (omega arith)) in
      (r.0, (c.0, r.1))

  unfoldable pub write_all_ended :
      Bytes → (timeout : ℕ) → UnixConnection os → Bool × UnixConnection os
  unfolding write_all_in ended
  write_all_ended buf timeout c =
      let r =
        ended (write_all_in os (rounds_of (length buf) c.1) buf timeout c)
          (write_all-ends (rounds_of (length buf) c.1) buf timeout c (omega arith)) in
      (r.0, (c.0, r.1))

  pub read_full_ended-some :
      (size timeout : ℕ) (c : UnixConnection os) (r : Option Bytes × World)
      → read_full_in os (rounds_of size c.1) size timeout c ≡ some r
      → read_full_ended size timeout c ≡ (r.0, (c.0, r.1))
  unfolding read_full_ended
  read_full_ended-some size timeout c r e =
      ap (λ (x : Option Bytes × World). (x.0, (c.0, x.1))) (ended-some _ _ r e)

  pub write_all_ended-some :
      (buf : Bytes) (timeout : ℕ) (c : UnixConnection os) (r : Bool × World)
      → write_all_in os (rounds_of (length buf) c.1) buf timeout c ≡ some r
      → write_all_ended buf timeout c ≡ (r.0, (c.0, r.1))
  unfolding write_all_ended
  write_all_ended-some buf timeout c r e =
      ap (λ (x : Bool × World). (x.0, (c.0, x.1))) (ended-some _ _ r e)

  -- `UnixConnection` as a `Connection`
  abbrev pub unix_connection : Connection
  unix_connection = record {
    State = UnixConnection os;
    read_full = read_full_ended;
    write_all = write_all_ended;
    is_connected = is_connected_now os;
    close = close_connection os;
  }
