-- ===== src/Tests/LearnTests.antt =====
-- src/cli/main.cc: the learn command at a concrete history.
use dafeng_wubi.Prelude.{ℕ, Bool, List, [], some, Bytes, codes}
use dafeng_wubi.Cli.Learn.{Learned, cmd_learn}
use dafeng_wubi.Tests.GitTests.{log_git, first_commit, history, world}
use dafeng_wubi.Tests.StoreTests.{counting_files}

abbrev no_files : ℕ × List Bytes
no_files = (0, [])

abbrev learned : Bool → Learned counting_files log_git
learned dry_run =
    cmd_learn counting_files log_git (some (codes "/h")) (codes "/d") 2 dry_run history history
      world [] no_files first_commit
