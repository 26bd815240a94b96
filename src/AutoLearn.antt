-- ===== src/AutoLearn.antt =====
-- src/daemon/auto_learn.cc: the command that rebuilds the input method's tables.
pub mod Shell
pub mod Runner
pub mod Gates
pub mod Actions
pub mod Privacy
pub mod Idle
use dafeng_wubi.Prelude.{ℕ, Bool, List, [], ◌∷◌, ◌++◌, ◌==◌, if◌then◌else◌, Bytes, codes}

-- one round of the loop of `ShellQuote`
unfoldable pub quote_char : ℕ → Bytes
quote_char c = if c == 0x27 then 0x27 ∷ 0x5C ∷ 0x27 ∷ 0x27 ∷ [] else c ∷ []

unfoldable pub quote_bytes : Bytes → Bytes
unfolding quote_char
quote_bytes [] = []
quote_bytes (c ∷ s) = quote_char c ++ quote_bytes s

-- `ShellQuote`
unfoldable pub shell_quote : Bytes → Bytes
unfolding quote_bytes
shell_quote s = 0x27 ∷ (quote_bytes s ++ 0x27 ∷ [])

-- `cmd` of `DefaultRimeRedeploy`
unfoldable pub redeploy_command : (deployer rime_dir : Bytes) → Bytes
unfolding shell_quote
redeploy_command deployer rime_dir =
    shell_quote deployer
    ++ (codes " --build " ++ (shell_quote rime_dir ++ codes " >/dev/null 2>&1"))
