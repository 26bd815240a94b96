-- ===== src/Endpoint/Moved.antt =====
-- src/common/endpoint_unix.cc: what `ReadFull` takes from a socket and what `WriteAll` gives to it.
use dafeng_wubi.Prelude.{
  ℕ, ◌+◌, ◌-◌, ◌*◌, ◌≤◌, ◌<◌, ◌==◌, Bool, true, false, [], ◌∷◌, ◌++◌, Option, none, some, ◌≡◌, sym,
  ap, ◌∙◌, inl, inr, refl, arith, ltb, length, take, drop, Bytes, Bool-cases, length-append,
  length-drop, take-all, take-take-drop,
}
use mathlib.Core.List.{append_assoc, append-nil}
use dafeng_wubi.Endpoint.Unix.{
  Polled, Transfer, Os, UnixConnection, remaining_ms, after_read, after_poll_in, read_round,
  after_write, after_poll_out, write_round, read_loop, write_loop, read_full_in, write_all_in,
}
use dafeng_wubi.Endpoint.Transfer.{Interruptions, Reads, Writes, Took, Gave}
use dafeng_wubi.Endpoint.Loop.{Progress, loop-keeps, ended_lem}
use dafeng_wubi.Endpoint.Ending.{
  read_full-ends, write_all-ends, rounds_of, read_full_ended, write_all_ended, unix_connection,
}

-- `got`, of at most `size` bytes, is what has left the socket, and the whole of it is the result, where
-- there is one
abbrev pub Taken : ℕ → Bytes → Bytes → Option Bytes → Bytes → Type 0
Taken size before got none after = (before ≡ got ++ after) × (length got < size)
Taken size before got (some result) after =
    (before ≡ got ++ after) × (length got ≡ size) × (result ≡ got)

module _ (os : Os) (fd : ℕ) (reads : Reads os fd) where
  open os use {World}
  open reads use {incoming}

  abbrev Taking : ℕ → Bytes → Progress Bytes (Option Bytes) × World → Type 0
  Taking size before (Progress.goes_on got, w) = (before ≡ got ++ incoming w) × (length got ≤ size)
  Taking size before (Progress.ends result, w) =
      (got : Bytes) × Taken size before got result (incoming w)

  nothing-taken :
      {left : Bytes} (before got chunk after : Bytes)
      → before ≡ got ++ left
      → left ≡ chunk ++ after
      → (length chunk == 0) ≡ true
      → before ≡ got ++ after
  nothing-taken before got [] after e f z = cc
  nothing-taken before got (b ∷ chunk) after e f z = absurd (ground arith)

  after_read-Taking :
      (size : ℕ) (before got left : Bytes) (p : Transfer Bytes × World)
      → before ≡ got ++ left
      → length got < size
      → Took (size - length got) left p.0 (incoming p.1)
      → Taking size before (after_read os got p)
  unfolding after_read
  after_read-Taking size before got left (Transfer.done chunk, w) e h t =
      elim (Bool-cases (length chunk == 0)) [
        | inl z ↦ rw z (got, (nothing-taken before got chunk (incoming w) e t.0 z, h))
        | inr z ↦ rw z (
          e ∙ ap (◌++◌ got) t.0 ∙ sym (append_assoc got chunk (incoming w)),
          omega (arith, length-append got chunk),
        )
      ]
  after_read-Taking size before got left (Transfer.again, w) e h k = (cc, omega arith)
  after_read-Taking size before got left (Transfer.broken, w) e h k = (got, (cc, h))

  after_poll_in-Taking :
      (size : ℕ) (before got : Bytes) (p : Polled × World)
      → before ≡ got ++ incoming p.1
      → length got < size
      → Taking size before (after_poll_in os fd size got p)
  unfolding after_poll_in
  after_poll_in-Taking size before got (Polled.ready, w) e h =
      let n = size - length got in
      after_read-Taking size before got (incoming w) (os.read fd n w) e h (reads.read-Took n w)
  after_poll_in-Taking size before got (Polled.interrupted, w) e h = (e, omega arith)
  after_poll_in-Taking size before got (Polled.timed_out, w) e h = (got, (e, h))
  after_poll_in-Taking size before got (Polled.failed, w) e h = (got, (e, h))

  read_round-Taking :
      (size deadline : ℕ) (before got : Bytes) (w : World)
      → Taking size before (Progress.goes_on got, w)
      → Taking size before (read_round os fd size deadline got w)
  unfolding read_round
  read_round-Taking size deadline before got w (e, h) =
      let w1 = (os.now w).1 in
      let rem = remaining_ms deadline (os.now w).0 in
      let k : before ≡ got ++ incoming w1 = rw (reads.now-incoming w) e in
      let k2 : before ≡ got ++ incoming (os.poll_in fd rem w1).1 =
        rw (reads.poll_in-incoming rem w1) k in
      elim (Bool-cases (ltb (length got) size)) [
        | inr z ↦ rw z (got, (e, ground arith, refl))
        | inl z ↦ rw z (elim (Bool-cases (rem == 0)) [
          | inl y ↦ rw y (got, (k, ground arith))
          | inr y ↦
              rw y (after_poll_in-Taking size before got (os.poll_in fd rem w1) k2 (ground arith))
        ])
      ]

  abbrev pub TakenFrom : ℕ → UnixConnection os → Option Bytes × UnixConnection os → Type 0
  TakenFrom size c (result, c') =
      (got : Bytes) × Taken size (incoming c.1) got result (incoming c'.1)

  -- A `ReadFull` on an open connection that reports success has put into the buffer exactly the next `size` bytes of the
  -- stream, in order, and has taken no more; one that fails has taken fewer than `size`, which are lost.
  -- The calls behave as documented and are interrupted finitely often, so that it ends; the clock may show anything.
  pub read_full-Taken :
      (ints : Interruptions os) (size timeout : ℕ) (w : World)
      → TakenFrom size (some fd, w) ((unix_connection os ints).read_full size timeout (some fd, w))
  unfolding read_full_ended read_full_in read_loop
  read_full-Taken ints size timeout w =
      let (t0, w1) = os.now w in
      let ends =
        read_full-ends os ints (rounds_of os ints size w) size timeout (some fd, w) (omega arith) in
      let start : incoming w ≡ [] ++ incoming w1 = rw (reads.now-incoming w) refl in
      rw (ended_lem (read_full_in os (rounds_of os ints size w) size timeout (some fd, w)) ends) (
        loop-keeps (read_round os fd size (t0 + timeout * 1_000_000)) (Taking size (incoming w))
          (read_round-Taking size (t0 + timeout * 1_000_000) (incoming w))
          (rounds_of os ints size w) (Progress.goes_on [], w1) (start, omega arith) ends.1)

-- `sent` is how many bytes of the buffer have arrived: all of them where the result is true
abbrev pub Given : Bytes → Bytes → ℕ → Bool → Bytes → Type 0
Given buf before sent false after = (after ≡ before ++ take sent buf) × (sent < length buf)
Given buf before sent true after = (after ≡ before ++ buf) × (sent ≡ length buf)

module _ (os : Os) (fd : ℕ) (writes : Writes os fd) where
  open os use {World}
  open writes use {outgoing}

  abbrev Giving : Bytes → Bytes → Progress ℕ Bool × World → Type 0
  Giving buf before (Progress.goes_on total, w) =
      (outgoing w ≡ before ++ take total buf) × (total ≤ length buf)
  Giving buf before (Progress.ends result, w) =
      (sent : ℕ) × Given buf before sent result (outgoing w)

  after_write-Giving :
      (buf before sent : Bytes) (total : ℕ) (p : Transfer ℕ × World)
      → sent ≡ before ++ take total buf
      → total < length buf
      → Gave (drop total buf) sent p.0 (outgoing p.1)
      → Giving buf before (after_write os total p)
  unfolding after_write
  after_write-Giving buf before sent total (Transfer.done n, w) e h g = (
    g.0
        ∙ ap (λ l. l ++ take n (drop total buf)) e
        ∙ append_assoc before (take total buf) (take n (drop total buf))
        ∙ ap (◌++◌ before) (take-take-drop total n buf),
    omega (arith, length-drop total buf, g.1),
  )
  after_write-Giving buf before sent total (Transfer.again, w) e h g = (cc, omega arith)
  after_write-Giving buf before sent total (Transfer.broken, w) e h g = (total, (cc, h))

  after_poll_out-Giving :
      (buf before : Bytes) (total : ℕ) (p : Polled × World)
      → outgoing p.1 ≡ before ++ take total buf
      → total < length buf
      → Giving buf before (after_poll_out os fd buf total p)
  unfolding after_poll_out
  after_poll_out-Giving buf before total (Polled.ready, w) e h =
      after_write-Giving buf before (outgoing w) total (os.write fd (drop total buf) w) e h
        (writes.write-Gave (drop total buf) w)
  after_poll_out-Giving buf before total (Polled.interrupted, w) e h = (e, omega arith)
  after_poll_out-Giving buf before total (Polled.timed_out, w) e h = (total, (e, h))
  after_poll_out-Giving buf before total (Polled.failed, w) e h = (total, (e, h))

  write_round-Giving :
      (buf before : Bytes) (deadline total : ℕ) (w : World)
      → Giving buf before (Progress.goes_on total, w)
      → Giving buf before (write_round os fd buf deadline total w)
  unfolding write_round
  write_round-Giving buf before deadline total w (e, h) =
      let w1 = (os.now w).1 in
      let rem = remaining_ms deadline (os.now w).0 in
      let k : outgoing w1 ≡ before ++ take total buf = writes.now-outgoing w ∙ e in
      let k2 : outgoing (os.poll_out fd rem w1).1 ≡ before ++ take total buf =
        writes.poll_out-outgoing rem w1 ∙ k in
      elim (Bool-cases (ltb total (length buf))) [
        | inr z ↦
            rw z (total, (e ∙ ap (◌++◌ before) (take-all total buf (ground arith)), ground arith))
        | inl z ↦ rw z (elim (Bool-cases (rem == 0)) [
          | inl y ↦ rw y (total, (k, ground arith))
          | inr y ↦
              rw y
                (after_poll_out-Giving buf before total (os.poll_out fd rem w1) k2 (ground arith))
        ])
      ]

  abbrev pub GivenTo : Bytes → UnixConnection os → Bool × UnixConnection os → Type 0
  GivenTo buf c (result, c') = (sent : ℕ) × Given buf (outgoing c.1) sent result (outgoing c'.1)

  -- A `WriteAll` on an open connection that reports success has sent the whole buffer, once and in order; one that fails
  -- has sent a proper prefix of it. The calls behave as documented and are interrupted finitely often, so that it ends; the clock may
  -- show anything.
  pub write_all-Given :
      (ints : Interruptions os) (buf : Bytes) (timeout : ℕ) (w : World)
      → GivenTo buf (some fd, w) ((unix_connection os ints).write_all buf timeout (some fd, w))
  unfolding write_all_ended write_all_in write_loop
  write_all-Given ints buf timeout w =
      let (t0, w1) = os.now w in
      let n = rounds_of os ints (length buf) w in
      let ends = write_all-ends os ints n buf timeout (some fd, w) (omega arith) in
      rw (ended_lem (write_all_in os n buf timeout (some fd, w)) ends) (
        loop-keeps (write_round os fd buf (t0 + timeout * 1_000_000)) (Giving buf (outgoing w))
          (write_round-Giving buf (outgoing w) (t0 + timeout * 1_000_000)) n
          (Progress.goes_on 0, w1)
          (writes.now-outgoing w ∙ sym (append-nil (outgoing w)), omega arith) ends.1)
