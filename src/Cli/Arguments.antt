-- ===== src/Cli/Arguments.antt =====
-- src/cli/main.cc: the command line is read to its end.
use dafeng_wubi.Prelude.{suc, ◌≤◌, List, [], ◌∷◌, some, ◌≡◌, arith, length, Bytes}
use dafeng_wubi.CommandLine.{Parsed, parse_fuel-ends, Shortens, if-Shortens}
use dafeng_wubi.Cli.{Options, without_value, take_args, read_argument, read_arguments}

without_value-Shortens :
    (a : Bytes) (rest : List Bytes) (o : Options) → Shortens (length rest) (without_value a rest o)
without_value-Shortens a rest o =
    let n = length rest in
    let h : length rest ≤ n = omega arith in
    search (if-Shortens, Shortens.at_exit, Shortens.at_rest) depth 8

take_args-Shortens :
    (a v : Bytes) (rest : List Bytes) (o : Options)
    → Shortens (suc (length rest)) (take_args a v rest o)
unfolding take_args
take_args-Shortens a v rest o =
    let n = suc (length rest) in
    let h : length rest ≤ n = omega arith in
    let last = without_value-Shortens a (v ∷ rest) o in
    search (if-Shortens, Shortens.at_exit, Shortens.at_rest, last) depth 24

read_argument-Shortens :
    (a : Bytes) (rest : List Bytes) (o : Options) → Shortens (length rest) (read_argument a rest o)
unfolding read_argument
read_argument-Shortens a [] o = without_value-Shortens a [] o
read_argument-Shortens a (v ∷ rest) o = take_args-Shortens a v rest o

-- The command line is read to its end or to the argument at which the program returns.
pub read_arguments-ends :
    (args : List Bytes) (o : Options) → (p : Parsed Options) × (read_arguments args o ≡ some p)
unfolding read_arguments
read_arguments-ends args o =
    parse_fuel-ends read_argument read_argument-Shortens (length args) args o (omega arith)
