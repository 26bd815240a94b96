-- ===== src/Cli/Launchd.antt =====
-- src/cli/main.cc: `CmdPause` and `CmdResume`, over the programs that they run. What they print is left out.
use dafeng_wubi.Prelude.{
  ℕ, zero, suc, ◌-◌, ◌/◌, ◌%◌, ◌==◌, Bool, true, false, not, ◌&&◌, ◌++◌, Option, none, some,
  if◌then◌else◌, is_empty, Bytes, codes,
}
use dafeng_wubi.Prelude.Int.{ℤ, pos, negsuc}
use dafeng_wubi.UserDict.{decimal}

-- what the commands ask of the system: `std::system` with its wait status, `usleep`, and whether a file exists
pub record System : Type 1 where
  pub State : Type 0
  pub system : (command : Bytes) → State → ℤ × State
  pub usleep : (us : ℕ) → State → State
  pub exists : (path : Bytes) → State → Bool

abbrev pub is_zero : ℤ → Bool
is_zero (pos n) = n == 0
is_zero (negsuc n) = false

-- `WEXITSTATUS`, of a 32-bit `int`
abbrev pub exit_status : ℤ → ℕ
exit_status (pos n) = n / 0x100 % 0x100
exit_status (negsuc n) = (0xFFFFFFFF - n) / 0x100 % 0x100

-- the label of the daemon in launchd
abbrev label : (uid : ℕ) → Bytes
label uid = codes "gui/" ++ (decimal uid ++ codes "/com.dafeng.daemon")

-- `plist` of `CmdResume`
abbrev pub plist_of : (home : Bytes) → Bytes
plist_of home = home ++ codes "/Library/LaunchAgents/com.dafeng.daemon.plist"

-- `cmd` of `CmdResume`
abbrev pub bootstrap_command : (uid : ℕ) → (plist : Bytes) → Bytes
bootstrap_command uid plist =
    codes "launchctl bootstrap gui/"
    ++ (decimal uid ++ (codes " '" ++ (plist ++ codes "' 2>/dev/null")))

module _ (os : System) where
  -- `DafengDaemonAlive`
  unfoldable pub dafeng_daemon_alive : os.State → Bool × os.State
  dafeng_daemon_alive s =
      let (rc, s') = os.system (codes "pgrep -x dafeng-daemon >/dev/null 2>&1") s in
      (is_zero rc, s')

  -- `DafengDaemonLoaded`
  unfoldable pub dafeng_daemon_loaded : (uid : ℕ) → os.State → Bool × os.State
  unfolding decimal
  dafeng_daemon_loaded uid s =
      let (rc, s') =
        os.system (codes "launchctl print " ++ (label uid ++ codes " >/dev/null 2>&1")) s in
      (is_zero rc, s')

  -- the loop of `CmdPause`, with so many rounds left
  unfoldable pub wait_for_exit : ℕ → os.State → os.State
  unfolding dafeng_daemon_alive
  wait_for_exit zero s = s
  wait_for_exit (suc n) s =
      let (alive, s1) = dafeng_daemon_alive s in
      elim alive [ true ↦ wait_for_exit n (os.usleep 100_000 s1) | false ↦ s1 ]

  -- `CmdPause`
  unfoldable pub pause : (uid : ℕ) → os.State → ℕ × os.State
  unfolding decimal dafeng_daemon_loaded wait_for_exit
  pause uid s =
      let (loaded, s1) = dafeng_daemon_loaded uid s in
      if not loaded
      then (0, s1)
      else (let (rc, s2) = os.system (codes "launchctl bootout " ++ label uid) s1 in
          if not (is_zero rc) && not (exit_status rc == 3)
          then (1, s2)
          else (0, wait_for_exit 30 s2))

  -- the loop of `CmdResume`, with so many attempts left
  unfoldable pub attempts : ℕ → (cmd : Bytes) → os.State → ℕ × os.State
  attempts zero cmd s = (1, s)
  attempts (suc n) cmd s =
      let (rc, s1) = os.system cmd s in
      elim (is_zero rc) [
        | true ↦ (0, s1)
        | false ↦ elim (exit_status rc == 17) [
          | true ↦ (0, s1)
          | false ↦ attempts n cmd (os.usleep 200_000 s1)
        ]
      ]

  -- `CmdResume` with the variable HOME
  unfoldable pub resume_in : (uid : ℕ) → (home : Bytes) → os.State → ℕ × os.State
  unfolding decimal dafeng_daemon_loaded attempts
  resume_in uid home s =
      if is_empty home
      then (1, s)
      else if not (os.exists (plist_of home) s)
      then (1, s)
      else (let (loaded, s1) = dafeng_daemon_loaded uid s in
          if loaded then (0, s1) else attempts 5 (bootstrap_command uid (plist_of home)) s1)

  -- `CmdResume`
  unfoldable pub resume : (uid : ℕ) → (home : Option Bytes) → os.State → ℕ × os.State
  unfolding resume_in
  resume uid none s = (1, s)
  resume uid (some home) s = resume_in uid home s
