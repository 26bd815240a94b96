-- ===== src/Tests/EndpointTests.antt =====
-- src/common/endpoint_unix.cc at concrete inputs, over systems that move a few bytes at a time.
use dafeng_wubi.Prelude.{
  ℕ, zero, suc, ◌+◌, ◌≤◌, ◌<◌, ◌==◌, min, Bool, true, false, not, ◌||◌, List, [], ◌∷◌, ◌++◌, Option,
  none, some, ◌≡◌, refl, sym, ap, ◌∙◌, arith, length, take, drop, Bytes, codes, take-append-drop,
  length-take, is_empty,
}
use dafeng_wubi.Endpoint.Unix.{Os, Polled, Transfer, read_full_in}
use dafeng_wubi.Endpoint.Transfer.{Interruptions, Reads, Writes}
use dafeng_wubi.Endpoint.Ending.{read_full-ends, unix_connection}
use dafeng_wubi.Endpoint.Moved.{TakenFrom, GivenTo, read_full-Taken, write_all-Given}
use dafeng_wubi.Endpoint.Listen.{Sockets, Descriptors, opens, closes, listen_endpoint}
use dafeng_wubi.Endpoint.Descriptors.{Listens, listen_endpoint-Listens}
use dafeng_wubi.Endpoint.Accept.{Acceptor, PolledBoth, Called, Pipe, shutdown_on, run_accepting}
use dafeng_wubi.Endpoint.Stopping.{shutdown-run}

-- the clock, the bytes to come and the bytes sent; two bytes are read and three are written at a time
abbrev slow_os : Os
slow_os = record {
  World = ℕ × Bytes × Bytes;
  now = λ w. (w.0, (w.0 + 1, w.1, w.2));
  poll_in = λ fd t w. (Polled.ready, w);
  poll_out = λ fd t w. (Polled.ready, w);
  read = λ fd n w. (Transfer.done (take (min 2 n) w.1), (w.0, drop (min 2 n) w.1, w.2));
  write =
      λ fd b w. (Transfer.done (min 3 (length b)), (w.0, w.1, w.2 ++ take (min 3 (length b)) b));
  close = λ fd w. w;
}

slow_interruptions : Interruptions slow_os
slow_interruptions = record {
  interruptions = λ w. 0;
  now-fewer = λ w. omega arith;
  poll_in-fewer = λ fd t w. omega arith;
  poll_out-fewer = λ fd t w. omega arith;
  read-fewer = λ fd n w. omega arith;
  write-fewer = λ fd b w. omega arith;
  write-TakesSome = λ fd b w h. omega arith;
}

taken : (n : ℕ) (b : Bytes) → length (take (min 2 n) b) ≤ n
taken n b = omega (arith, length-take (min 2 n) b)

slow_reads : Reads slow_os 7
slow_reads = record {
  incoming = λ w. w.1;
  now-incoming = λ w. refl;
  poll_in-incoming = λ t w. refl;
  read-Took = λ n w. (sym (take-append-drop (min 2 n) w.1), taken n w.1);
}

slow_writes : Writes slow_os 7
slow_writes = record {
  outgoing = λ w. w.2;
  now-outgoing = λ w. refl;
  poll_out-outgoing = λ t w. refl;
  write-Gave = λ b w. (refl, omega arith);
}

abbrev hello : ℕ × Bytes × Bytes
hello = (100, codes "hello world", [])

read_full-ends_example :
    (r : Option Bytes × (ℕ × Bytes × Bytes)) × (read_full_in slow_os 9 5 5 (some 7, hello) ≡ some r)
unfolding slow_interruptions
read_full-ends_example =
    read_full-ends slow_os slow_interruptions 9 5 5 (some 7, hello) (omega arith)

read_full-Taken_example :
    TakenFrom slow_os 7 slow_reads 5
      (some 7, hello)
      ((unix_connection slow_os slow_interruptions).read_full 5 30 (some 7, hello))
read_full-Taken_example = read_full-Taken slow_os 7 slow_reads slow_interruptions 5 30 hello

write_all-Given_example :
    GivenTo slow_os 7 slow_writes
      (codes "hello")
      (some 7, hello)
      ((unix_connection slow_os slow_interruptions).write_all (codes "hello") 30 (some 7, hello))
write_all-Given_example =
    write_all-Given slow_os 7 slow_writes slow_interruptions (codes "hello") 30 hello

-- the open descriptors, and the next to open; a call fails where that is open already
abbrev Open : Type 0
Open = (ℕ → Bool) × ℕ

abbrev open_one : Bool → Open → Option ℕ × Open
open_one true w = (none, w)
open_one false w = (some w.1, (opens w.1 w.0, w.1 + 1))

abbrev open_two : Bool → Open → Option (ℕ × ℕ) × Open
open_two true w = (none, w)
open_two false w = (some (w.1, w.1 + 1), (opens w.1 (opens (w.1 + 1) w.0), w.1 + 2))

abbrev table_os : Sockets
table_os = record {
  World = Open;
  sun_path_bytes = 108;
  socket = λ w. open_one (w.0 w.1) w;
  bind = λ fd a w. (true, w);
  listen = λ fd n w. (true, w);
  connect = λ fd a w. (true, w);
  chmod_owner = λ a w. w;
  pipe = λ w. open_two (w.0 w.1 || w.0 (w.1 + 1)) w;
  set_nonblocking = λ fd w. w;
  close = λ fd w. (closes fd w.0, w.1);
  unlink = λ a w. w;
}

open_one-none : (b : Bool) (w : Open) → (open_one b w).0 ≡ none → (open_one b w).1.0 ≡ w.0
open_one-none true w e = refl
open_one-none false w e = absurd (ground arith)

open_one-some :
    (b : Bool) (w : Open) (fd : ℕ)
    → w.0 w.1 ≡ b
    → (open_one b w).0 ≡ some fd
    → (w.0 fd ≡ false) × ((open_one b w).1.0 ≡ opens fd w.0)
open_one-some true w fd h e = absurd (ground arith)
open_one-some false w fd h e =
    let same : w.1 ≡ fd = ground arith in (ap w.0 (sym same) ∙ h, ap (λ (x : ℕ). opens x w.0) same)

open_two-none : (b : Bool) (w : Open) → (open_two b w).0 ≡ none → (open_two b w).1.0 ≡ w.0
open_two-none true w e = refl
open_two-none false w e = absurd (ground arith)

open_two-some :
    (b : Bool) (w : Open) (r s : ℕ)
    → (w.0 w.1 || w.0 (w.1 + 1)) ≡ b
    → (open_two b w).0 ≡ some (r, s)
    → (w.0 r ≡ false) × (w.0 s ≡ false) × ((open_two b w).1.0 ≡ opens r (opens s w.0))
open_two-some true w r s h e = absurd (ground arith)
open_two-some false w r s h e =
    let r_is : w.1 ≡ r = ground arith in
    let s_is : w.1 + 1 ≡ s = ground arith in
    let h1 : w.0 w.1 ≡ false = ground arith in
    let h2 : w.0 (w.1 + 1) ≡ false = ground arith in
    (
      ap w.0 (sym r_is) ∙ h1,
      ap w.0 (sym s_is) ∙ h2,
      ap (λ (x : ℕ). opens x (opens (w.1 + 1) w.0)) r_is
          ∙ ap (λ (x : ℕ). opens r (opens x w.0)) s_is,
    )

table_descriptors : Descriptors table_os
table_descriptors = record {
  is_open = λ w. w.0;
  socket-none = λ w. open_one-none (w.0 w.1) w;
  socket-some = λ w fd. open_one-some (w.0 w.1) w fd refl;
  bind-is_open = λ fd a w. refl;
  listen-is_open = λ fd n w. refl;
  connect-is_open = λ fd a w. refl;
  chmod-is_open = λ a w. refl;
  unlink-is_open = λ a w. refl;
  close-is_open = λ fd w. refl;
  pipe-none = λ w. open_two-none (w.0 w.1 || w.0 (w.1 + 1)) w;
  pipe-some = λ w r s. open_two-some (w.0 w.1 || w.0 (w.1 + 1)) w r s refl;
  set_nonblocking-is_open = λ fd w. refl;
}

-- the standard streams
abbrev standard : Open
standard = ((λ (x : ℕ). x == 0 || (x == 1 || x == 2)), 3)

listen_endpoint-Listens_example :
    let (r, w') = listen_endpoint table_os (codes "/tmp/d.sock") standard in
    Listens table_os table_descriptors r standard.0 w'.0
unfolding table_descriptors listen_endpoint
listen_endpoint-Listens_example =
    listen_endpoint-Listens table_os table_descriptors (codes "/tmp/d.sock") standard

-- how many calls are still interrupted, whether the pipe has a byte, and the connections that wait
abbrev Waiting : Type 0
Waiting = ℕ × Bool × List ℕ

abbrev poll_both : Waiting → PolledBoth × Waiting
poll_both (zero, signalled, fds) =
    (PolledBoth.ready (not (is_empty fds)) signalled, (0, signalled, fds))
poll_both (suc n, signalled, fds) = (PolledBoth.interrupted, (n, signalled, fds))

abbrev accept_one : Waiting → Called ℕ × Waiting
accept_one (n, signalled, []) = (Called.again, (n, signalled, []))
accept_one (n, signalled, fd ∷ fds) = (Called.returned fd, (n, signalled, fds))

abbrev write_one : Waiting → Called (Unit {0}) × Waiting
write_one (zero, signalled, fds) = (Called.returned tt, (0, true, fds))
write_one (suc n, signalled, fds) = (Called.again, (n, signalled, fds))

abbrev queue_os : Acceptor
queue_os = record {
  World = Waiting;
  poll = λ fd pipe_fd w. poll_both w;
  accept = λ fd w. accept_one w;
  write_byte = λ fd b w. write_one w;
}

still_signalled : (w : Waiting) → w.1 ≡ true → (poll_both w).1.1 ≡ true
still_signalled (zero, s, fds) h = h
still_signalled (suc n, s, fds) h = h

shows_signal :
    (w : Waiting) (c s : Bool) → w.1 ≡ true → (poll_both w).0 ≡ PolledBoth.ready c s → s ≡ true
shows_signal (zero, b, fds) c s h e = ground arith
shows_signal (suc n, b, fds) c s h e = absurd (ground arith)

fewer_polls : (w : Waiting) → (poll_both w).0 ≡ PolledBoth.interrupted → (poll_both w).1.0 < w.0
fewer_polls (zero, b, fds) e = absurd (ground arith)
fewer_polls (suc n, b, fds) e = omega arith

written : (w : Waiting) → (write_one w).0 ≡ Called.returned tt → (write_one w).1.1 ≡ true
written (zero, b, fds) e = refl
written (suc n, b, fds) e = absurd (ground arith)

fewer_writes : (w : Waiting) → (write_one w).0 ≡ Called.again → (write_one w).1.0 < w.0
fewer_writes (zero, b, fds) e = absurd (ground arith)
fewer_writes (suc n, b, fds) e = omega arith

unbroken : (w : Waiting) → (write_one w).0 ≡ Called.broken → ⊥
unbroken (zero, b, fds) e = ground arith
unbroken (suc n, b, fds) e = ground arith

queue_pipe : Pipe queue_os 4 5
queue_pipe = record {
  signalled = λ w. w.1;
  interruptions = λ w. w.0;
  poll-signalled = λ fd w. still_signalled w;
  poll-ready = λ fd w. shows_signal w;
  poll-interrupted = λ fd w. fewer_polls w;
  write-returned = written;
  write-again = fewer_writes;
  write-not_broken = unbroken;
}

-- the shutdown is interrupted twice, and two connections wait
shutdown-run_example :
    (w1 w2 : Waiting) × (shutdown_on queue_os 3 (some 5) (2, false, 8 ∷ 9 ∷ []) ≡ some (tt, w1))
    × (run_accepting queue_os 1
          (suc w1.0)
          (record {
            listen_fd = some 3;
            shutdown_read = some 4;
            shutdown_write = some 5;
            path = [];
          })
          w1
        ≡ some ([], w2))
unfolding shutdown_on queue_pipe
shutdown-run_example =
    shutdown-run queue_os 4 5 queue_pipe
      (record { listen_fd = some 3; shutdown_read = some 4; shutdown_write = some 5; path = [] })
      (2, false, 8 ∷ 9 ∷ []) refl refl
