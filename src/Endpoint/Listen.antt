-- ===== src/Endpoint/Listen.antt =====
-- src/common/endpoint_unix.cc: `ListenEndpoint`, `ConnectEndpoint` and `UnixServer`, over the system calls that they
-- make. `none` stands for the null pointer and for a descriptor of -1; what is logged is left out.
use dafeng_wubi.Prelude.{
  ℕ, ◌==◌, Bool, false, not, ◌&&◌, ◌||◌, [], ◌∷◌, Option, none, some, ◌≡◌, if◌then◌else◌, leb,
  length, Bytes,
}

-- The system calls that open and close sockets; a Boolean is whether the call succeeds.
pub record Sockets : Type 1 where
  pub World : Type 0
  pub sun_path_bytes : ℕ
  pub socket : World → Option ℕ × World
  pub bind : (fd : ℕ) → Bytes → World → Bool × World
  pub listen : (fd backlog : ℕ) → World → Bool × World
  pub connect : (fd : ℕ) → Bytes → World → Bool × World
  pub chmod_owner : Bytes → World → World
  pub pipe : World → Option (ℕ × ℕ) × World
  pub set_nonblocking : ℕ → World → World
  pub close : (fd : ℕ) → World → World
  pub unlink : Bytes → World → World

-- the members of `UnixServer`
pub record UnixServer : Type 0 where
  pub listen_fd : Option ℕ
  pub shutdown_read : Option ℕ
  pub shutdown_write : Option ℕ
  pub path : Bytes

-- whether a descriptor is open after a call that opens or closes `fd`
abbrev pub opens : ℕ → (ℕ → Bool) → ℕ → Bool
opens fd before x = x == fd || before x

abbrev pub closes : ℕ → (ℕ → Bool) → ℕ → Bool
closes fd before x = not (x == fd) && before x

module _ (os : Sockets) where
  open os use {World}

  -- the body of the constructor, behind `pipe`
  unfoldable pub with_pipe : ℕ → Bytes → Option (ℕ × ℕ) × World → UnixServer × World
  with_pipe fd path (none, w) =
      (record { listen_fd = some fd; shutdown_read = none; shutdown_write = none; path = path }, w)
  with_pipe fd path (some (r, s), w) = (
    record { listen_fd = some fd; shutdown_read = some r; shutdown_write = some s; path = path },
    os.set_nonblocking s (os.set_nonblocking r w),
  )

  -- the constructor of `UnixServer`
  unfoldable pub new_server : ℕ → Bytes → World → UnixServer × World
  unfolding with_pipe
  new_server fd path w = with_pipe fd path (os.pipe w)

  abbrev close_if_open : Option ℕ → World → World
  close_if_open none w = w
  close_if_open (some fd) w = os.close fd w

  abbrev unlink_if_named : Bytes → World → World
  unlink_if_named [] w = w
  unlink_if_named (c ∷ path) w = os.unlink (c ∷ path) w

  -- the destructor of `UnixServer` behind `Shutdown`
  unfoldable pub destroy_server : UnixServer → World → World
  destroy_server s w =
      unlink_if_named s.path (
        close_if_open s.shutdown_write
          (close_if_open s.shutdown_read (close_if_open s.listen_fd w)))

  -- from `bind` on
  unfoldable pub bind_and_listen : ℕ → Bytes → World → Option UnixServer × World
  unfolding new_server
  bind_and_listen fd address w =
      let (bound, w1) = os.bind fd address w in
      if not bound
      then (none, os.close fd w1)
      else (let (listens, w2) = os.listen fd 16 (os.chmod_owner address w1) in
          if not listens
          then (none, os.unlink address (os.close fd w2))
          else (let (s, w3) = new_server fd address w2 in (some s, w3)))

  -- from the test of `socket` on
  unfoldable pub listen_on : Bytes → Option ℕ × World → Option UnixServer × World
  unfolding bind_and_listen
  listen_on address (none, w) = (none, w)
  listen_on address (some fd, w) =
      if leb os.sun_path_bytes (length address)
      then (none, os.close fd w)
      else bind_and_listen fd address w

  -- `ListenEndpoint`
  unfoldable pub listen_endpoint : Bytes → World → Option UnixServer × World
  unfolding listen_on
  listen_endpoint address w = listen_on address (os.socket (os.unlink address w))

  -- from the test of `socket` on
  unfoldable pub connect_on : Bytes → Option ℕ × World → Option ℕ × World
  connect_on address (none, w) = (none, w)
  connect_on address (some fd, w) =
      if leb os.sun_path_bytes (length address)
      then (none, os.close fd w)
      else (let (ok, w1) = os.connect fd address w in
          if not ok then (none, os.close fd w1) else (some fd, w1))

  -- `ConnectEndpoint`, whose result is the descriptor of the connection
  unfoldable pub connect_endpoint : Bytes → World → Option ℕ × World
  unfolding connect_on
  connect_endpoint address w = connect_on address (os.socket w)

  -- What the calls do to the open descriptors: `socket` and `pipe` open ones that were not open, `close` closes one,
  -- and the others open and close none.
  pub record Descriptors : Type 0 where
    pub is_open : World → ℕ → Bool
    pub socket-none : (w : World) → (os.socket w).0 ≡ none → is_open (os.socket w).1 ≡ is_open w
    pub socket-some :
        (w : World) (fd : ℕ)
        → (os.socket w).0 ≡ some fd
        → (is_open w fd ≡ false) × (is_open (os.socket w).1 ≡ opens fd (is_open w))
    pub bind-is_open : (fd : ℕ) (a : Bytes) (w : World) → is_open (os.bind fd a w).1 ≡ is_open w
    pub listen-is_open : (fd n : ℕ) (w : World) → is_open (os.listen fd n w).1 ≡ is_open w
    pub connect-is_open :
        (fd : ℕ) (a : Bytes) (w : World) → is_open (os.connect fd a w).1 ≡ is_open w
    pub chmod-is_open : (a : Bytes) (w : World) → is_open (os.chmod_owner a w) ≡ is_open w
    pub unlink-is_open : (a : Bytes) (w : World) → is_open (os.unlink a w) ≡ is_open w
    pub close-is_open : (fd : ℕ) (w : World) → is_open (os.close fd w) ≡ closes fd (is_open w)
    pub pipe-none : (w : World) → (os.pipe w).0 ≡ none → is_open (os.pipe w).1 ≡ is_open w
    pub pipe-some :
        (w : World) (r s : ℕ)
        → (os.pipe w).0 ≡ some (r, s)
        → (is_open w r ≡ false)
          × (is_open w s ≡ false)
          × (is_open (os.pipe w).1 ≡ opens r (opens s (is_open w)))
    pub set_nonblocking-is_open :
        (fd : ℕ) (w : World) → is_open (os.set_nonblocking fd w) ≡ is_open w
