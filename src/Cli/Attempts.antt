-- ===== src/Cli/Attempts.antt =====
-- src/cli/main.cc: how often `CmdResume` tries to start the daemon.
use dafeng_wubi.Prelude.{
  ℕ, zero, suc, ◌<◌, ◌==◌, ◌||◌, ◌&&◌, Bool, true, false, not, Option, none, some, ◌≡◌, refl, ◌∙◌,
  ◌⊎◌, inl, inr, arith, is_empty, Bytes, Bool-cases,
}
use dafeng_wubi.Cli.Launchd.{
  System, is_zero, exit_status, dafeng_daemon_loaded, attempts, bootstrap_command, resume_in,
  resume, plist_of,
}

module _ (os : System) (cmd : Bytes) where
  -- the state after so many attempts, each with its pause
  unfoldable pub tried : ℕ → os.State → os.State
  tried zero s = s
  tried (suc k) s = tried k (os.usleep 200_000 (os.system cmd s).1)

  -- launchd starts the daemon, or it has it already
  abbrev pub accepted : os.State → Bool
  accepted s = let rc = (os.system cmd s).0 in is_zero rc || exit_status rc == 17

  -- so many attempts are refused
  unfoldable pub AllRefused : ℕ → os.State → Type 0
  unfolding tried
  AllRefused n s = (k : ℕ) → k < n → accepted (tried k s) ≡ false

  -- the outcome of at most `n` attempts
  unfoldable pub Attempted : ℕ → os.State → ℕ × os.State → Type 0
  unfolding tried AllRefused
  Attempted n s r =
      ((k : ℕ) × (k < n)
        × AllRefused k s
        × (accepted (tried k s) ≡ true)
        × (r ≡ (0, (os.system cmd (tried k s)).1)))
      ⊎ (AllRefused n s × (r ≡ (1, tried n s)))

  -- an attempt that is not refused is the last
  attempts-accepted :
      (n : ℕ) (s : os.State)
      → accepted s ≡ true
      → attempts os (suc n) cmd s ≡ (0, (os.system cmd s).1)
  unfolding attempts
  attempts-accepted n s e = elim (Bool-cases (is_zero (os.system cmd s).0)) [
    | inl z ↦ rw (attempts, z) refl
    | inr z ↦
        let f : exit_status (os.system cmd s).0 == 17 ≡ true = ground (arith, e, z) in
        rw (attempts, z, f) refl
  ]

  -- one that is refused is followed by the others
  attempts-refused :
      (n : ℕ) (s : os.State)
      → accepted s ≡ false
      → attempts os (suc n) cmd s ≡ attempts os n cmd (os.usleep 200_000 (os.system cmd s).1)
  unfolding attempts
  attempts-refused n s e = elim (Bool-cases (is_zero (os.system cmd s).0)) [
    | inl z ↦ absurd (ground (arith, e, z))
    | inr z ↦
        let f : exit_status (os.system cmd s).0 == 17 ≡ false = ground (arith, e, z) in
        rw (attempts, z, f) refl
  ]

  refused-then :
      (n : ℕ) (s : os.State)
      → accepted s ≡ false
      → AllRefused n (os.usleep 200_000 (os.system cmd s).1)
      → AllRefused (suc n) s
  unfolding AllRefused tried
  refused-then n s e f zero h = e
  refused-then n s e f (suc k) h = f k (omega arith)

  none-refused : (s : os.State) → AllRefused zero s
  unfolding AllRefused
  none-refused s k h = absurd (omega arith)

  -- The loop makes at most `n` attempts, with a pause behind each that is refused; it returns 0 behind the first that is not refused,
  -- and 1 where all are.
  pub attempts-Attempted : (n : ℕ) (s : os.State) → Attempted n s (attempts os n cmd s)
  unfolding Attempted attempts tried
  attempts-Attempted zero s = inr (none-refused s, refl)
  attempts-Attempted (suc n) s =
      let next = os.usleep 200_000 (os.system cmd s).1 in
      elim (Bool-cases (accepted s)) [
        | inl e ↦ inl (zero, omega arith, none-refused s, e, attempts-accepted n s e)
        | inr e ↦ elim (attempts-Attempted n next) [
          | inl (k, h, f, g, r) ↦
              inl (suc k, omega arith, refused-then k s e f, g, attempts-refused n s e ∙ r)
          | inr (f, r) ↦ inr (refused-then n s e f, attempts-refused n s e ∙ r)
        ]
      ]

module _ (os : System) (uid : ℕ) where
  -- the daemon can be started: HOME is set, and there is a file for launchd
  abbrev pub installed : Option Bytes → os.State → Bool
  installed none s = false
  installed (some home) s = not (is_empty home) && os.exists (plist_of home) s

  -- the attempts for a home directory
  abbrev pub Started : Option Bytes → os.State → ℕ × os.State → Type 0
  Started none s r = ⊥
  Started (some home) s r = Attempted os (bootstrap_command uid (plist_of home)) 5 s r

  -- the outcome of `CmdResume`
  unfoldable pub Resumed : Option Bytes → os.State → ℕ × os.State → Type 0
  Resumed home s r =
      let loaded = dafeng_daemon_loaded os uid s in
      ((installed home s ≡ false) × (r ≡ (1, s)))
      ⊎ ((installed home s ≡ true) × (loaded.0 ≡ true) × (r ≡ (0, loaded.1)))
      ⊎ ((installed home s ≡ true) × (loaded.0 ≡ false) × Started home loaded.1 r)

  -- Where HOME is not set or there is no file for launchd, `resume` returns 1 and runs nothing. Otherwise it returns 0 where
  -- launchd has the daemon; and where it has not, it makes at most five attempts, with a pause behind each that is refused,
  -- and returns 0 behind the first that is not refused, and 1 where all are.
  pub resume-Resumed : (home : Option Bytes) (s : os.State) → Resumed home s (resume os uid home s)
  unfolding Resumed resume resume_in
  resume-Resumed none s = inl (refl, refl)
  resume-Resumed (some home) s = elim (Bool-cases (is_empty home)) [
    | inl e ↦ rw (resume_in, e) (inl (refl, refl))
    | inr e ↦ elim (Bool-cases (os.exists (plist_of home) s)) [
      | inr f ↦ rw (resume_in, e, f) (inl (refl, refl))
      | inl f ↦ elim (Bool-cases (dafeng_daemon_loaded os uid s).0) [
        | inl l ↦ rw (resume_in, e, f, l) (inr (inl (refl, refl, refl)))
        | inr l ↦
            rw (resume_in, e, f, l)
              (inr (
                inr (
                  refl,
                  refl,
                  attempts-Attempted os (bootstrap_command uid (plist_of home)) 5
                      (dafeng_daemon_loaded os uid s).1,
                )))
      ]
    ]
  ]
