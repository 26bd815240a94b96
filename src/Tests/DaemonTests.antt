-- ===== src/Tests/DaemonTests.antt =====
-- src/daemon/main.cc at a concrete command line.
use dafeng_wubi.Prelude.{false, List, [], ◌∷◌, some, ◌≡◌, arith, codes}
use dafeng_wubi.CommandLine.{Parsed, atoi}
use dafeng_wubi.Daemon.{LogLevel, BackendKind, default_options, parse_arguments}
use dafeng_wubi.Daemon.Arguments.{Setting, command_line, apply_all, parse_arguments-command_line}

abbrev settings : List Setting
settings =
    Setting.model_path (codes "/m.gguf")
    ∷ Setting.backend BackendKind.llama_cpp
    ∷ Setting.addr (codes "--addr")
    ∷ Setting.idle (codes "-1")
    ∷ Setting.auto_learn false
    ∷ Setting.log_level LogLevel.warn
    ∷ Setting.poll (codes " 12x")
    ∷ Setting.addr (codes "/d/other.sock")
    ∷ []

parse_arguments-command_line_example :
    parse_arguments (command_line settings) (default_options (codes "/d/daemon.sock"))
    ≡ some (Parsed.parsed (apply_all settings (default_options (codes "/d/daemon.sock"))))
unfolding atoi
parse_arguments-command_line_example =
    parse_arguments-command_line settings (default_options (codes "/d/daemon.sock"))
      (tt, (tt, (tt, (omega arith, (tt, (tt, (omega arith, (tt, tt))))))))
