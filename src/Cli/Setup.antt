-- ===== src/Cli/Setup.antt =====
-- src/cli/main.cc: `FindShareDir` and `CmdSetup`. What they print is left out.
use dafeng_wubi.Prelude.{
  ℕ, ◌-◌, ◌%◌, Bool, not, ◌&&◌, List, [], ◌∷◌, ◌++◌, Option, none, some, if◌then◌else◌, is_empty,
  Bytes, bytes_eq, codes,
}
use dafeng_wubi.Prelude.Int.{ℤ, pos, negsuc}
use dafeng_wubi.Cli.Launchd.{System, is_zero}

-- the loop of `FindShareDir`, where `exists` tells which files there are
unfoldable pub share_dir_of : (Bytes → Bool) → List Bytes → Bytes
share_dir_of exists [] = codes "/usr/local/share/dafeng"
share_dir_of exists (p ∷ candidates) =
    let rest = share_dir_of exists candidates in
    if exists (p ++ codes "/deploy.sh") then p else rest

-- `FindShareDir`
unfoldable pub find_share_dir : (Bytes → Bool) → Bytes
unfolding share_dir_of
find_share_dir exists = share_dir_of exists (
    codes "/usr/local/share/dafeng"
    ∷ codes "/opt/homebrew/share/dafeng"
    ∷ codes "/opt/homebrew/opt/dafeng-wubi/share/dafeng"
    ∷ [])

abbrev default_model : Option Bytes → Bytes
default_model none = []
default_model (some home) =
    home
    ++ (codes "/Library/Application Support/Dafeng/models/"
        ++ codes "Qwen2.5-0.5B-Instruct-GGUF/qwen2.5-0.5b-instruct-q4_k_m.gguf")

abbrev quoted : Bytes → Bytes
quoted s = b'\'' ∷ (s ++ b'\'' ∷ [])

-- `env_prefix`, or `none` where `CmdSetup` returns
unfoldable pub env_prefix :
    (Bytes → Bool) → (home : Option Bytes) → (backend model_path : Bytes) → Option Bytes
env_prefix exists home backend model_path =
    if bytes_eq backend (codes "llama_cpp")
    then (let model = if is_empty model_path then default_model home else model_path in
        if not (exists model)
        then none
        else some
            (codes "DAFENG_BACKEND=llama_cpp DAFENG_MODEL_PATH=" ++ (quoted model ++ codes " ")))
    else if not (is_empty backend) && not (bytes_eq backend (codes "deterministic"))
    then some (
        codes "DAFENG_BACKEND="
        ++ (backend
            ++ (codes " "
                ++ (if not (is_empty model_path)
                    then codes "DAFENG_MODEL_PATH=" ++ (quoted model_path ++ codes " ")
                    else []))))
    else some []

-- `daemon_bin`
unfoldable pub daemon_bin : (Bytes → Bool) → Bytes
daemon_bin exists =
    if not (exists (codes "/usr/local/bin/dafeng-daemon"))
    then codes "/opt/homebrew/bin/dafeng-daemon"
    else codes "/usr/local/bin/dafeng-daemon"

module _ (os : System) where
  -- the second half of `CmdSetup`
  unfoldable pub install_agent : (share_dir bin : Bytes) → Option Bytes → os.State → ℤ × os.State
  install_agent share_dir bin none s = (pos 2, s)
  install_agent share_dir bin (some prefix) s =
      let (rc, s') =
        os.system (prefix ++ (share_dir ++ (codes "/install_launchagent.sh " ++ quoted bin))) s in
      if not (is_zero rc) then (rc, s') else (pos 0, s')

  -- `CmdSetup`; `home` is the variable HOME
  unfoldable pub setup :
      (home : Option Bytes) → (backend model_path : Bytes) → os.State → ℤ × os.State
  unfolding find_share_dir env_prefix daemon_bin install_agent
  setup home backend model_path s =
      let share_dir = find_share_dir (λ p. os.exists p s) in
      if not (os.exists (share_dir ++ codes "/deploy.sh") s)
      then (pos 1, s)
      else (let (rc, s1) = os.system (share_dir ++ codes "/deploy.sh") s in
          if not (is_zero rc)
          then (rc, s1)
          else install_agent share_dir (daemon_bin (λ p. os.exists p s1))
              (env_prefix (λ p. os.exists p s1) home backend model_path) s1)

-- the status of a process whose `main` returns a 32-bit `int`: its low eight bits
abbrev pub process_status : ℤ → ℕ
process_status (pos n) = n % 0x100
process_status (negsuc n) = (0xFFFFFFFF - n) % 0x100
