-- ===== src/Endpoint/Accept.antt =====
-- src/common/endpoint_unix.cc: `UnixServer::Accept` and `UnixServer::Shutdown`, and `Server::Run` of
-- src/daemon/server.cc, which takes connections until there is none.
use dafeng_wubi.Prelude.{
  ℕ, zero, suc, ◌<◌, Bool, true, List, [], ◌∷◌, Option, none, some, ◌≡◌, ◌≢◌, if◌then◌else◌,
}
use dafeng_wubi.Endpoint.Loop.{Progress, loop}
use dafeng_wubi.Endpoint.Listen.{UnixServer}

-- what `poll` returns for the listening socket and the pipe: an error, or which of them is readable
pub data PolledBoth : Type 0 where
  interrupted : PolledBoth
  failed : PolledBoth
  ready : (connection shutdown : Bool) → PolledBoth

-- what `accept` returns, and `write` of one byte
pub data Called (A : Type 0) : Type 0 where
  returned : A → Called A
  again : Called A
  broken : Called A

-- the system calls of `UnixServer`; `poll` takes a descriptor of -1 as well
pub record Acceptor : Type 1 where
  pub World : Type 0
  pub poll : (listen_fd : ℕ) → (shutdown_fd : Option ℕ) → World → PolledBoth × World
  pub accept : (listen_fd : ℕ) → World → Called ℕ × World
  pub write_byte : (fd byte : ℕ) → World → Called (Unit {0}) × World

module _ (os : Acceptor) where
  open os use {World}

  abbrev Round : Type 0
  Round = Progress (Unit {0}) (Option ℕ) × World

  unfoldable pub after_accept : Called ℕ × World → Round
  after_accept (Called.returned fd, w) = (Progress.ends (some fd), w)
  after_accept (Called.again, w) = (Progress.goes_on tt, w)
  after_accept (Called.broken, w) = (Progress.ends none, w)

  unfoldable pub after_poll : ℕ → PolledBoth × World → Round
  unfolding after_accept
  after_poll fd (PolledBoth.interrupted, w) = (Progress.goes_on tt, w)
  after_poll fd (PolledBoth.failed, w) = (Progress.ends none, w)
  after_poll fd (PolledBoth.ready connection shutdown, w) =
      if shutdown
      then (Progress.ends none, w)
      else if connection
      then after_accept (os.accept fd w)
      else (Progress.goes_on tt, w)

  -- one round of the loop of `Accept`
  unfoldable pub accept_round : (fd : ℕ) → Option ℕ → Unit {0} → World → Round
  accept_round fd pipe_fd tt w = after_poll fd (os.poll fd pipe_fd w)

  -- from the test of `listen_fd_` on
  unfoldable pub accept_on : ℕ → Option ℕ → Option ℕ → World → Option (Option ℕ × World)
  accept_on fuel none pipe_fd w = some (none, w)
  accept_on fuel (some fd) pipe_fd w = loop (accept_round fd pipe_fd) fuel (Progress.goes_on tt, w)

  -- `Accept` for so many rounds; the result is the descriptor of the connection
  unfoldable pub accept : ℕ → UnixServer → World → Option (Option ℕ × World)
  unfolding accept_on
  accept fuel s w = accept_on fuel s.listen_fd s.shutdown_read w

  unfoldable pub after_write_byte :
      Called (Unit {0}) × World → Progress (Unit {0}) (Unit {0}) × World
  after_write_byte (Called.returned n, w) = (Progress.ends tt, w)
  after_write_byte (Called.again, w) = (Progress.goes_on tt, w)
  after_write_byte (Called.broken, w) = (Progress.ends tt, w)

  -- `Shutdown` for so many rounds
  unfoldable pub shutdown_on : ℕ → Option ℕ → World → Option (Unit {0} × World)
  unfolding after_write_byte
  shutdown_on fuel none w = some (tt, w)
  shutdown_on fuel (some fd) w =
      loop (λ u w. after_write_byte (os.write_byte fd 1 w)) fuel (Progress.goes_on tt, w)

  unfoldable pub then_run :
      Option (Option ℕ × World) → (World → Option (List ℕ × World)) → Option (List ℕ × World)
  then_run none rest = none
  then_run (some (none, w)) rest = some ([], w)
  then_run (some (some fd, w)) rest = elim (rest w) [
    | none ↦ none
    | some (fds, w') ↦ some (fd ∷ fds, w')
  ]

  -- `Server::Run` for so many connections, each of so many rounds: the connections, which are handed to a
  -- thread each in this order
  unfoldable pub run_accepting : (n fuel : ℕ) → UnixServer → World → Option (List ℕ × World)
  unfolding then_run
  run_accepting zero fuel s w = none
  run_accepting (suc n) fuel s w = then_run (accept fuel s w) (run_accepting n fuel s)

  -- `pipe(7)` and `poll(2)`: a byte in the pipe stays there, as nothing reads it, and makes its read end
  -- readable; a call is interrupted a finite number of times.
  pub record Pipe (read_end write_end : ℕ) : Type 0 where
    pub signalled : World → Bool
    pub interruptions : World → ℕ
    pub poll-signalled :
        (fd : ℕ) (w : World)
        → signalled w ≡ true
        → signalled (os.poll fd (some read_end) w).1 ≡ true
    pub poll-ready :
        (fd : ℕ) (w : World) (connection shutdown : Bool)
        → signalled w ≡ true
        → (os.poll fd (some read_end) w).0 ≡ PolledBoth.ready connection shutdown
        → shutdown ≡ true
    pub poll-interrupted :
        (fd : ℕ) (w : World)
        → (os.poll fd (some read_end) w).0 ≡ PolledBoth.interrupted
        → interruptions (os.poll fd (some read_end) w).1 < interruptions w
    pub write-returned :
        (w : World)
        → (os.write_byte write_end 1 w).0 ≡ Called.returned tt
        → signalled (os.write_byte write_end 1 w).1 ≡ true
    pub write-again :
        (w : World)
        → (os.write_byte write_end 1 w).0 ≡ Called.again
        → interruptions (os.write_byte write_end 1 w).1 < interruptions w
    -- the pipe is not full and its read end is open
    pub write-not_broken : (w : World) → (os.write_byte write_end 1 w).0 ≢ Called.broken
