-- ===== src/Endpoint/Descriptors.antt =====
-- src/common/endpoint_unix.cc: which descriptors `ListenEndpoint`, `ConnectEndpoint` and `UnixServer` leave open.
use dafeng_wubi.Prelude.{
  ℕ, Bool, false, Option, none, some, ◌≡◌, refl, sym, ap, ◌∙◌, fun_ext, inl, inr, arith, leb,
  length, Bytes, Bool-cases, Option-cases,
}
use dafeng_wubi.Endpoint.Listen.{
  Sockets, UnixServer, with_pipe, new_server, bind_and_listen, listen_on, listen_endpoint,
  connect_on, connect_endpoint, opens, closes, Descriptors,
}

module _ (os : Sockets) (d : Descriptors os) where
  open os use {World}
  open d use {is_open}

  closes-opens_at :
      (fd : ℕ) (before : ℕ → Bool) (x : ℕ)
      → before fd ≡ false
      → closes fd (opens fd before) x ≡ before x
  closes-opens_at fd before x h = ground arith

  closes-opens :
      (fd : ℕ) (before : ℕ → Bool) → before fd ≡ false → closes fd (opens fd before) ≡ before
  closes-opens fd before h = fun_ext (λ x. closes-opens_at fd before x h)

  -- A call that opens `fd`, whatever follows that opens and closes nothing, and a `close` of `fd`.
  reopened :
      (fd : ℕ) (w w' : World)
      → is_open w fd ≡ false
      → is_open w' ≡ opens fd (is_open w)
      → is_open (os.close fd w') ≡ is_open w
  reopened fd w w' h e = d.close-is_open fd w' ∙ ap (closes fd) e ∙ closes-opens fd (is_open w) h

  -- the open descriptors behind `connect_on`: the result's, and those before
  abbrev pub Leaves : Option ℕ → (ℕ → Bool) → (ℕ → Bool) → Type 0
  Leaves none before after = after ≡ before
  Leaves (some fd) before after = after ≡ opens fd before

  connect_on-Leaves :
      (address : Bytes) (fd : ℕ) (w w' : World)
      → is_open w fd ≡ false
      → is_open w' ≡ opens fd (is_open w)
      → let (r, w2) = connect_on os address (some fd, w') in Leaves r (is_open w) (is_open w2)
  unfolding connect_on
  connect_on-Leaves address fd w w' h e =
      let after = (os.connect fd address w').1 in
      let k : is_open after ≡ opens fd (is_open w) = d.connect-is_open fd address w' ∙ e in
      elim (Bool-cases (leb os.sun_path_bytes (length address))) [
        | inl y ↦ rw y (reopened fd w w' h e)
        | inr y ↦ rw y (elim (Bool-cases (os.connect fd address w').0) [
          | inl z ↦ rw z k
          | inr z ↦ rw z (reopened fd w after h k)
        ])
      ]

  -- what a server holds open: its socket, and both ends of its pipe
  abbrev holds_if : Option ℕ → (ℕ → Bool) → ℕ → Bool
  holds_if none before = before
  holds_if (some fd) before = opens fd before

  abbrev pub Listens : Option UnixServer → (ℕ → Bool) → (ℕ → Bool) → Type 0
  Listens none before after = after ≡ before
  Listens (some s) before after =
      after ≡ holds_if s.shutdown_read (holds_if s.shutdown_write (holds_if s.listen_fd before))

  with_pipe-listen_fd :
      (fd : ℕ) (path : Bytes) (p : Option (ℕ × ℕ) × World)
      → (with_pipe os fd path p).0.listen_fd ≡ some fd
  unfolding with_pipe
  with_pipe-listen_fd fd path (none, w) = refl
  with_pipe-listen_fd fd path (some (r, s), w) = refl

  with_pipe-holds :
      (fd : ℕ) (path : Bytes) (w : World)
      → let (s, w') = with_pipe os fd path (os.pipe w) in
        is_open w' ≡ holds_if s.shutdown_read (holds_if s.shutdown_write (is_open w))
  unfolding with_pipe
  with_pipe-holds fd path w = elim (Option-cases (os.pipe w).0) [
    | inl e ↦ rw e (d.pipe-none w e)
    | inr ((r, s), e) ↦ rw e (
        d.set_nonblocking-is_open s (os.set_nonblocking r (os.pipe w).1)
        ∙ d.set_nonblocking-is_open r (os.pipe w).1
        ∙ (d.pipe-some w r s e).2)
  ]

  bind_and_listen-Listens :
      (fd : ℕ) (address : Bytes) (w w' : World)
      → is_open w fd ≡ false
      → is_open w' ≡ opens fd (is_open w)
      → let (r, w2) = bind_and_listen os fd address w' in Listens r (is_open w) (is_open w2)
  unfolding bind_and_listen new_server
  bind_and_listen-Listens fd address w w' h e =
      let w1 = (os.bind fd address w').1 in
      let w1' = os.chmod_owner address w1 in
      let w2 = (os.listen fd 16 w1').1 in
      let (s, w3) = new_server os fd address w2 in
      let e1 : is_open w1 ≡ opens fd (is_open w) = d.bind-is_open fd address w' ∙ e in
      let e2 : is_open w2 ≡ opens fd (is_open w) =
        d.listen-is_open fd 16 w1' ∙ d.chmod-is_open address w1 ∙ e1 in
      elim (Bool-cases (os.bind fd address w').0) [
        | inr y ↦ rw y (reopened fd w w1 h e1)
        | inl y ↦ rw y (elim (Bool-cases (os.listen fd 16 w1').0) [
          | inr z ↦ rw z (d.unlink-is_open address (os.close fd w2) ∙ reopened fd w w2 h e2)
          | inl z ↦ rw z (
              with_pipe-holds fd address w2
              ∙ rw (with_pipe-listen_fd fd address (os.pipe w2))
                  (ap (λ b. holds_if s.shutdown_read (holds_if s.shutdown_write b)) e2))
        ])
      ]

  -- `ListenEndpoint` leaves open what was open before and, where it returns a server, the server's socket
  -- and pipe; it closes its socket on every failure.
  pub listen_endpoint-Listens :
      (address : Bytes) (w : World)
      → let (r, w') = listen_endpoint os address w in Listens r (is_open w) (is_open w')
  unfolding listen_endpoint listen_on
  listen_endpoint-Listens address w =
      let w0 = os.unlink address w in
      let w1 = (os.socket w0).1 in
      elim (Option-cases (os.socket w0).0) [
        | inl e ↦ rw e (d.socket-none w0 e ∙ d.unlink-is_open address w)
        | inr (fd, e) ↦
            let (fresh, opened) = d.socket-some w0 fd e in
            let same = d.unlink-is_open address w in
            let fresh' : is_open w fd ≡ false = rw (sym same) fresh in
            let opened' : is_open w1 ≡ opens fd (is_open w) = opened ∙ ap (opens fd) same in
            rw e (elim (Bool-cases (leb os.sun_path_bytes (length address))) [
              | inl y ↦ rw y (reopened fd w w1 fresh' opened')
              | inr y ↦ rw y (bind_and_listen-Listens fd address w w1 fresh' opened')
            ])
      ]

  -- `ConnectEndpoint` leaves open what was open before and, where it returns a connection, its socket.
  pub connect_endpoint-Leaves :
      (address : Bytes) (w : World)
      → let (r, w') = connect_endpoint os address w in Leaves r (is_open w) (is_open w')
  unfolding connect_endpoint connect_on
  connect_endpoint-Leaves address w = elim (Option-cases (os.socket w).0) [
    | inl e ↦ rw e (d.socket-none w e)
    | inr (fd, e) ↦
        let (fresh, opened) = d.socket-some w fd e in
        rw e (connect_on-Leaves address fd w (os.socket w).1 fresh opened)
  ]
