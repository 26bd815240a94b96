-- ===== src/Cli.antt =====
-- src/cli/main.cc: the command line of `dafeng-cli`: the options, the choice of the command, and what `rerank` asks and
-- prints. A command's other output is left out; the child modules model the commands that run other programs.
pub mod Arguments
pub mod Lists
pub mod Launchd
pub mod Attempts
pub mod Learn
pub mod Private
pub mod Setup
pub mod Status
use dafeng_wubi.Prelude.{
  ℕ, ◌-◌, ◌==◌, ◌||◌, Bool, true, false, not, List, [], ◌∷◌, ◌++◌, Option, none, some,
  if◌then◌else◌, length, is_empty, get_elem?, Bytes, bytes_eq, codes,
}
use dafeng_wubi.Prelude.Int.{ℤ, pos, negsuc}
use dafeng_wubi.CommandLine.{Step, exits, goes_on, Parsed, exited, parsed, parse_fuel, atoi}
use dafeng_wubi.Protocol.{RerankRequest}

-- the loop of `Split`, where `cur` is what has been read of the piece
unfoldable pub split_from : (cur s : Bytes) (delim : ℕ) → List Bytes
split_from cur [] delim = if not (is_empty cur) then cur ∷ [] else []
split_from cur (c ∷ s) delim = elim (c == delim) [
  | true ↦ cur ∷ split_from [] s delim
  | false ↦ split_from (cur ++ c ∷ []) s delim
]

-- `Split`
unfoldable pub split : Bytes → ℕ → List Bytes
unfolding split_from
split s delim = split_from [] s delim

-- the variables of `main` that the options set; `addr` and `timeout_ms` are `CommonArgs`
pub record Options : Type 0 where
  pub addr : Bytes
  pub timeout_ms : ℤ
  pub code : Bytes
  pub ctx : Bytes
  pub cands : Bytes
  pub app : Bytes
  pub text : Bytes
  pub backend : Bytes
  pub model_path : Bytes
  pub history_limit : ℤ
  pub min_freq : ℤ
  pub dry_run : Bool

-- their initial values
abbrev pub default_options : (daemon_address : Bytes) → Options
default_options daemon_address = record {
  addr = daemon_address;
  timeout_ms = pos 1_000;
  code = [];
  ctx = [];
  cands = [];
  app = [];
  text = [];
  backend = [];
  model_path = [];
  history_limit = pos 20;
  min_freq = pos 2;
  dry_run = false;
}

-- what a round does where no option takes a value
abbrev without_value : Bytes → List Bytes → Options → Step Options
without_value a rest o =
    if bytes_eq a (codes "--dry-run") then goes_on (record o { dry_run = true }) rest else exits 1

-- the calls of `TakeArg` and `TakeArgInt` where an argument `v` follows
unfoldable pub take_args : (a v : Bytes) → (rest : List Bytes) → Options → Step Options
unfolding atoi
take_args a v rest o =
    if bytes_eq a (codes "--addr")
    then goes_on (record o { addr = v }) rest
    else if bytes_eq a (codes "--timeout")
    then goes_on (record o { timeout_ms = atoi v }) rest
    else if bytes_eq a (codes "--code")
    then goes_on (record o { code = v }) rest
    else if bytes_eq a (codes "--ctx")
    then goes_on (record o { ctx = v }) rest
    else if bytes_eq a (codes "--cands")
    then goes_on (record o { cands = v }) rest
    else if bytes_eq a (codes "--app")
    then goes_on (record o { app = v }) rest
    else if bytes_eq a (codes "--text")
    then goes_on (record o { text = v }) rest
    else if bytes_eq a (codes "--backend")
    then goes_on (record o { backend = v }) rest
    else if bytes_eq a (codes "--model-path")
    then goes_on (record o { model_path = v }) rest
    else if bytes_eq a (codes "--limit")
    then goes_on (record o { history_limit = atoi v }) rest
    else if bytes_eq a (codes "--min-freq")
    then goes_on (record o { min_freq = atoi v }) rest
    else without_value a (v ∷ rest) o

-- one round of the loop of `main`
unfoldable pub read_argument : Bytes → List Bytes → Options → Step Options
unfolding take_args
read_argument a [] o = without_value a [] o
read_argument a (v ∷ rest) o = take_args a v rest o

-- the loop of `main`
unfoldable pub read_arguments : List Bytes → Options → Option (Parsed Options)
unfolding read_argument
read_arguments args o = parse_fuel read_argument (length args) args o

-- `static_cast<uint32_t>(min_freq < 1 ? 1 : min_freq)`
abbrev pub at_least_one : ℤ → ℕ
at_least_one (pos n) = if n == 0 then 1 else n
at_least_one (negsuc n) = 1

-- `static_cast<uint64_t>(limit)`
abbrev pub as_uint64 : ℤ → ℕ
as_uint64 (pos n) = n
as_uint64 (negsuc n) = 0xFFFFFFFFFFFFFFFF - n

-- what `main` calls, with its arguments, or the status with which it returns at once
pub data Call : Type 0 where
  returns : (status : ℕ) → Call
  cmd_ping : (addr : Bytes) → (timeout_ms : ℤ) → Call
  cmd_stats : (addr : Bytes) → (timeout_ms : ℤ) → Call
  cmd_history : (limit : ℕ) → Call
  cmd_learn : (min_freq : ℕ) → (dry_run : Bool) → Call
  cmd_setup : (backend model_path : Bytes) → Call
  cmd_pause : Call
  cmd_resume : Call
  cmd_rerank : (addr : Bytes) → (timeout_ms : ℤ) → (code ctx cands app : Bytes) → Call
  cmd_commit : (addr : Bytes) → (code text ctx : Bytes) → Call

-- `main` behind the loop
unfoldable pub choose : (cmd : Bytes) → Options → Call
choose cmd o =
    if bytes_eq cmd (codes "ping")
    then cmd_ping o.addr o.timeout_ms
    else if bytes_eq cmd (codes "stats")
    then cmd_stats o.addr o.timeout_ms
    else if bytes_eq cmd (codes "history")
    then cmd_history (as_uint64 o.history_limit)
    else if bytes_eq cmd (codes "learn")
    then cmd_learn (at_least_one o.min_freq) o.dry_run
    else if bytes_eq cmd (codes "setup")
    then cmd_setup o.backend o.model_path
    else if bytes_eq cmd (codes "pause")
    then cmd_pause
    else if bytes_eq cmd (codes "resume")
    then cmd_resume
    else if bytes_eq cmd (codes "rerank")
    then (if is_empty o.code || is_empty o.cands
        then returns 1
        else cmd_rerank o.addr o.timeout_ms o.code o.ctx o.cands o.app)
    else if bytes_eq cmd (codes "commit")
    then (if is_empty o.code || is_empty o.text
        then returns 1
        else cmd_commit o.addr o.code o.text o.ctx)
    else returns 1

abbrev choose_parsed : (cmd : Bytes) → Option (Parsed Options) → Option Call
choose_parsed cmd none = none
choose_parsed cmd (some (exited status)) = some (returns status)
choose_parsed cmd (some (parsed o)) = some (choose cmd o)

-- `main`, of the arguments behind the program's name
unfoldable pub main : (daemon_address : Bytes) → List Bytes → Option Call
unfolding read_arguments choose
main daemon_address [] = some (returns 1)
main daemon_address (cmd ∷ args) =
    if bytes_eq cmd (codes "help") || (bytes_eq cmd (codes "-h") || bytes_eq cmd (codes "--help"))
    then some (returns 0)
    else choose_parsed cmd (read_arguments args (default_options daemon_address))

-- `req` of `CmdRerank`
unfoldable pub request_of : (code ctx cands_csv app : Bytes) → RerankRequest
unfolding split
request_of code ctx cands_csv app = record {
  request_id = 0;
  code = code;
  context_before = ctx;
  candidates = split cands_csv b',';
  app_id = app;
}

abbrev or_question : Option Bytes → Bytes
or_question none = codes "?"
or_question (some cand) = cand

-- `cand` of the loop of `CmdRerank`
unfoldable pub shown : List Bytes → ℤ → Bytes
shown candidates (pos i) = or_question (get_elem? candidates i)
shown candidates (negsuc i) = codes "?"

-- the rounds of that loop after the first
unfoldable pub show_rest : List Bytes → List ℤ → Bytes
unfolding shown
show_rest candidates [] = []
show_rest candidates (i ∷ is) = b' ' ∷ (shown candidates i ++ show_rest candidates is)

-- what that loop prints
unfoldable pub show_order : List Bytes → List ℤ → Bytes
unfolding shown show_rest
show_order candidates [] = []
show_order candidates (i ∷ is) = shown candidates i ++ show_rest candidates is
