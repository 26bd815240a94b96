-- ===== src/Endpoint/Stopping.antt =====
-- src/common/endpoint_unix.cc and src/daemon/server.cc: `Shutdown` ends `Accept` and with it `Run`.
use dafeng_wubi.Prelude.{
  ℕ, zero, suc, ◌<◌, Bool, true, [], Option, none, some, ◌≡◌, ◌≢◌, refl, arith,
}
use dafeng_wubi.Endpoint.Loop.{Progress, loop}
use dafeng_wubi.Endpoint.Listen.{UnixServer}
use dafeng_wubi.Endpoint.Accept.{
  PolledBoth, Called, Acceptor, after_poll, accept_round, accept_on, accept, after_write_byte,
  shutdown_on, run_accepting, Pipe,
}

module _ (os : Acceptor) (r s : ℕ) (pipe : Pipe os r s) where
  open os use {World}
  open pipe use {signalled, interruptions}

  -- `Accept` ends with the null pointer
  abbrev NoConnection : Option (Option ℕ × World) → Type 0
  NoConnection o = (w : World) × (o ≡ some (none, w))

  accept-polled :
      (fuel fd : ℕ) (p : PolledBoth × World)
      → (interruptions p.1 < fuel
          → NoConnection (loop (accept_round os fd (some r)) fuel (Progress.goes_on tt, p.1)))
      → ((connection shutdown : Bool)
          → p.0 ≡ PolledBoth.ready connection shutdown
          → shutdown ≡ true)
      → (p.0 ≡ PolledBoth.interrupted → interruptions p.1 < fuel)
      → NoConnection (loop (accept_round os fd (some r)) fuel (after_poll os fd p))
  unfolding after_poll loop
  accept-polled fuel fd (PolledBoth.interrupted, w) again ready fewer = again (fewer refl)
  accept-polled fuel fd (PolledBoth.failed, w) again ready fewer = (w, refl)
  accept-polled fuel fd (PolledBoth.ready connection shutdown, w) again ready fewer =
      rw (ready connection shutdown refl) (w, refl)

  accept-signalled :
      (fuel fd : ℕ) (w : World)
      → signalled w ≡ true
      → interruptions w < fuel
      → NoConnection (loop (accept_round os fd (some r)) fuel (Progress.goes_on tt, w))
  unfolding loop accept_round
  accept-signalled zero fd w h k = absurd (omega arith)
  accept-signalled (suc fuel) fd w h k =
      let p = os.poll fd (some r) w in
      accept-polled fuel fd p (accept-signalled fuel fd p.1 (pipe.poll-signalled fd w h))
        (λ c x. pipe.poll-ready fd w c x h) (λ e. omega (arith, pipe.poll-interrupted fd w e))

  -- `Shutdown` has left its byte in the pipe
  abbrev Signalled : Option (Unit {0} × World) → Type 0
  Signalled o = (w : World) × (o ≡ some (tt, w)) × (signalled w ≡ true)

  abbrev byte_round : Unit {0} → World → Progress (Unit {0}) (Unit {0}) × World
  byte_round u w = after_write_byte os (os.write_byte s 1 w)

  shutdown-written :
      (fuel : ℕ) (p : Called (Unit {0}) × World)
      → (interruptions p.1 < fuel → Signalled (loop byte_round fuel (Progress.goes_on tt, p.1)))
      → (p.0 ≡ Called.returned tt → signalled p.1 ≡ true)
      → (p.0 ≡ Called.again → interruptions p.1 < fuel)
      → p.0 ≢ Called.broken
      → Signalled (loop byte_round fuel (after_write_byte os p))
  unfolding after_write_byte loop
  shutdown-written fuel (Called.returned tt, w) again done fewer open_end = (w, refl, done refl)
  shutdown-written fuel (Called.again, w) again done fewer open_end = again (fewer refl)
  shutdown-written fuel (Called.broken, w) again done fewer open_end = absurd (open_end refl)

  shutdown-Signalled :
      (fuel : ℕ) (w : World)
      → interruptions w < fuel
      → Signalled (loop byte_round fuel (Progress.goes_on tt, w))
  unfolding loop
  shutdown-Signalled zero w k = absurd (omega arith)
  shutdown-Signalled (suc fuel) w k =
      let p = os.write_byte s 1 w in
      shutdown-written fuel p (shutdown-Signalled fuel p.1) (pipe.write-returned w)
        (λ e. omega (arith, pipe.write-again w e)) (pipe.write-not_broken w)

  accept_on-stopped :
      (fd : Option ℕ) (w : World)
      → signalled w ≡ true
      → NoConnection (accept_on os (suc (interruptions w)) fd (some r) w)
  unfolding accept_on
  accept_on-stopped none w h = (w, refl)
  accept_on-stopped (some fd) w h = accept-signalled (suc (interruptions w)) fd w h (omega arith)

  -- `Shutdown` on a server whose pipe is intact ends, and after it `Run` ends without taking a connection,
  -- whichever connections wait; each loop ends within one more round than calls are interrupted.
  pub shutdown-run :
      (server : UnixServer) (w : World)
      → server.shutdown_read ≡ some r
      → server.shutdown_write ≡ some s
      → (w1 w2 : World) × (shutdown_on os (suc (interruptions w)) server.shutdown_write w
          ≡ some (tt, w1))
        × (run_accepting os 1 (suc (interruptions w1)) server w1 ≡ some ([], w2))
  unfolding shutdown_on run_accepting accept
  shutdown-run server w er es =
      let (w1, e1, h) = shutdown-Signalled (suc (interruptions w)) w (omega arith) in
      let (w2, e2) = accept_on-stopped server.listen_fd w1 h in
      let run_ends : run_accepting os 1 (suc (interruptions w1)) server w1 ≡ some ([], w2) =
        rw er (rw e2 refl) in
      (w1, w2, rw es e1, run_ends)
