-- ===== src/Tests/AutoLearnTests.antt =====
-- src/daemon/auto_learn.cc at concrete inputs.
use dafeng_wubi.Prelude.{[], ◌∷◌, some, ◌≡◌, refl, codes}
use dafeng_wubi.AutoLearn.{shell_quote, redeploy_command}
use dafeng_wubi.AutoLearn.Shell.{read_words, read_words-redeploy_command}

quoted_text : shell_quote (codes "it's") ≡ codes "'it'\\''s'"
unfolding shell_quote
quoted_text = refl

read_words-redeploy_command_example :
    read_words 3 (redeploy_command (codes "/Input Methods/r") (codes "/Users/o'b/Rime"))
    ≡ some (
      codes "/Input Methods/r" ∷ codes "--build" ∷ codes "/Users/o'b/Rime" ∷ [],
      codes ">/dev/null 2>&1",
    )
read_words-redeploy_command_example =
    read_words-redeploy_command (codes "/Input Methods/r") (codes "/Users/o'b/Rime")
