-- ===== src/Daemon/Ending.antt =====
-- src/daemon/main.cc: the command line is read to its end or to the argument at which the program exits.
use dafeng_wubi.Prelude.{ℕ, suc, ◌≤◌, List, [], ◌∷◌, Option, none, some, ◌≡◌, arith, length, Bytes}
use dafeng_wubi.CommandLine.{Parsed, parse_fuel-ends, Shortens, if-Shortens}
use dafeng_wubi.Daemon.{
  BackendKind, LogLevel, Options, set_level, set_backend, parse_value, parse_rest, parse_argument,
  parse_arguments,
}

set_level-Shortens :
    (l : Option LogLevel) (o : Options) (rest : List Bytes) (n : ℕ)
    → length rest ≤ n
    → Shortens n (set_level l o rest)
set_level-Shortens none o rest n h = Shortens.at_exit
set_level-Shortens (some l) o rest n h = Shortens.at_rest h

set_backend-Shortens :
    (b : Option BackendKind) (o : Options) (rest : List Bytes) (n : ℕ)
    → length rest ≤ n
    → Shortens n (set_backend b o rest)
set_backend-Shortens none o rest n h = Shortens.at_exit
set_backend-Shortens (some b) o rest n h = Shortens.at_rest h

parse_value-Shortens :
    (a v : Bytes) (rest : List Bytes) (o : Options)
    → Shortens (suc (length rest)) (parse_value a v rest o)
unfolding parse_value
parse_value-Shortens a v rest o =
    let n = suc (length rest) in
    let h : length rest ≤ n = omega arith in
    search
      (if-Shortens, Shortens.at_exit, Shortens.at_rest, set_level-Shortens, set_backend-Shortens)
      depth 24

parse_rest-Shortens :
    (a : Bytes) (rest : List Bytes) (o : Options) → Shortens (length rest) (parse_rest a rest o)
parse_rest-Shortens a [] o = Shortens.at_exit
parse_rest-Shortens a (v ∷ rest) o = parse_value-Shortens a v rest o

parse_argument-Shortens :
    (a : Bytes) (rest : List Bytes) (o : Options) → Shortens (length rest) (parse_argument a rest o)
unfolding parse_argument
parse_argument-Shortens a rest o =
    let n = length rest in
    let h : length rest ≤ n = omega arith in
    search (if-Shortens, Shortens.at_exit, Shortens.at_rest, parse_rest-Shortens) depth 24

-- The command line is read to its end or to the argument at which the program exits.
pub parse_arguments-ends :
    (args : List Bytes) (o : Options) → (p : Parsed Options) × (parse_arguments args o ≡ some p)
unfolding parse_arguments
parse_arguments-ends args o =
    parse_fuel-ends parse_argument parse_argument-Shortens (length args) args o (omega arith)
