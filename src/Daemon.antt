-- ===== src/Daemon.antt =====
-- src/daemon/main.cc: the command line of the daemon, and what its `main` sets up. What it prints and its signal handlers are left out.
pub mod Arguments
pub mod Ending
use dafeng_wubi.Prelude.{
  ℕ, ◌==◌, Bool, true, false, not, ◌||◌, ◌&&◌, List, [], ◌∷◌, ◌++◌, Option, none, some,
  if◌then◌else◌, length, is_empty, Bytes, bytes_eq, codes,
}
use dafeng_wubi.Prelude.Int.{ℤ, pos}
use dafeng_wubi.CommandLine.{Step, exits, goes_on, Parsed, parse_fuel, atoi}
use dafeng_wubi.LearningRound.{under}
use dafeng_wubi.AutoLearn.Runner.{Config}

pub data BackendKind : Type 0 where
  mock : BackendKind
  deterministic : BackendKind
  mlx : BackendKind
  llama_cpp : BackendKind

-- `ParseBackend`
unfoldable pub parse_backend : Bytes → Option BackendKind
parse_backend s =
    if bytes_eq s (codes "mock")
    then some mock
    else if bytes_eq s (codes "deterministic")
    then some deterministic
    else if bytes_eq s (codes "mlx")
    then some mlx
    else if bytes_eq s (codes "llama_cpp") || bytes_eq s (codes "llamacpp")
    then some llama_cpp
    else none

-- `BackendName`
unfoldable pub backend_name : BackendKind → Bytes
backend_name mock = codes "mock"
backend_name deterministic = codes "deterministic"
backend_name mlx = codes "mlx"
backend_name llama_cpp = codes "llama_cpp"

pub data LogLevel : Type 0 where
  debug : LogLevel
  info : LogLevel
  warn : LogLevel
  error : LogLevel

-- `ParseLogLevel`
unfoldable pub parse_log_level : Bytes → Option LogLevel
parse_log_level s =
    if bytes_eq s (codes "debug")
    then some debug
    else if bytes_eq s (codes "info")
    then some info
    else if bytes_eq s (codes "warn")
    then some warn
    else if bytes_eq s (codes "error")
    then some error
    else none

-- the rerankers that the factories make, with the model's path and the rounds of the warm-up
pub data Reranker : Type 0 where
  mock_reverse : Reranker
  deterministic_rerank : Reranker
  mlx_rerank : (model_path : Bytes) → Reranker
  llama_cpp_rerank : (model_path : Bytes) → (warmup_iterations : ℕ) → Reranker

-- `BuildReranker`, where the factories of two backends make a reranker or return null
unfoldable pub build_reranker :
    (mlx_made llama_cpp_made : Bool) → BackendKind → (model_path : Bytes) → Reranker
build_reranker mlx_made llama_cpp_made mock model_path = mock_reverse
build_reranker mlx_made llama_cpp_made deterministic model_path = deterministic_rerank
build_reranker mlx_made llama_cpp_made mlx model_path =
    if not mlx_made then deterministic_rerank else mlx_rerank model_path
build_reranker mlx_made llama_cpp_made llama_cpp model_path =
    if not llama_cpp_made then deterministic_rerank else llama_cpp_rerank model_path 2

-- the variables of `main`
pub record Options : Type 0 where
  pub addr : Bytes
  pub level : LogLevel
  pub backend : BackendKind
  pub model_path : Bytes
  pub auto_learn : Bool
  pub rime_user_dir : Bytes
  pub wubi_dict : Bytes
  pub auto_learn_poll_s : ℤ
  pub auto_learn_idle_s : ℤ
  pub auto_learn_min_interval_s : ℤ

-- their initial values
abbrev pub default_options : (daemon_address : Bytes) → Options
default_options daemon_address = record {
  addr = daemon_address;
  level = info;
  backend = deterministic;
  model_path = [];
  auto_learn = true;
  rime_user_dir = [];
  wubi_dict = [];
  auto_learn_poll_s = pos 60;
  auto_learn_idle_s = pos 30;
  auto_learn_min_interval_s = pos 300;
}

abbrev set_level : Option LogLevel → Options → List Bytes → Step Options
set_level none o rest = exits 1
set_level (some level) o rest = goes_on (record o { level = level }) rest

abbrev set_backend : Option BackendKind → Options → List Bytes → Step Options
set_backend none o rest = exits 1
set_backend (some backend) o rest = goes_on (record o { backend = backend }) rest

-- the tests of the loop of `main` that want a value `v`
unfoldable pub parse_value : (a v : Bytes) → (rest : List Bytes) → Options → Step Options
unfolding parse_log_level parse_backend atoi
parse_value a v rest o =
    if bytes_eq a (codes "--addr")
    then goes_on (record o { addr = v }) rest
    else if bytes_eq a (codes "--log-level")
    then set_level (parse_log_level v) o rest
    else if bytes_eq a (codes "--backend")
    then set_backend (parse_backend v) o rest
    else if bytes_eq a (codes "--model-path")
    then goes_on (record o { model_path = v }) rest
    else if bytes_eq a (codes "--rime-user-dir")
    then goes_on (record o { rime_user_dir = v }) rest
    else if bytes_eq a (codes "--wubi-dict")
    then goes_on (record o { wubi_dict = v }) rest
    else if bytes_eq a (codes "--auto-learn-poll")
    then goes_on (record o { auto_learn_poll_s = atoi v }) rest
    else if bytes_eq a (codes "--auto-learn-idle")
    then goes_on (record o { auto_learn_idle_s = atoi v }) rest
    else if bytes_eq a (codes "--auto-learn-min-interval")
    then goes_on (record o { auto_learn_min_interval_s = atoi v }) rest
    else exits 1

abbrev parse_rest : Bytes → List Bytes → Options → Step Options
parse_rest a [] o = exits 1
parse_rest a (v ∷ rest) o = parse_value a v rest o

-- one round of the loop of `main`
unfoldable pub parse_argument : Bytes → List Bytes → Options → Step Options
unfolding parse_value
parse_argument a rest o =
    if bytes_eq a (codes "-h") || bytes_eq a (codes "--help")
    then exits 0
    else if bytes_eq a (codes "--foreground")
    then goes_on o rest
    else if bytes_eq a (codes "--auto-learn")
    then goes_on (record o { auto_learn = true }) rest
    else if bytes_eq a (codes "--no-auto-learn")
    then goes_on (record o { auto_learn = false }) rest
    else parse_rest a rest o

-- the loop of `main`
unfoldable pub parse_arguments : List Bytes → Options → Option (Parsed Options)
parse_arguments args o = parse_fuel parse_argument (length args) args o

abbrev or_dot : Option Bytes → Bytes
or_dot none = codes "."
or_dot (some home) = home

-- `rime_dir`, where `home` is the variable HOME
unfoldable pub rime_dir : (home : Option Bytes) → Options → Bytes
unfolding under
rime_dir home o =
    if is_empty o.rime_user_dir
    then under (under (or_dot home) (codes "Library")) (codes "Rime")
    else o.rime_user_dir

-- `wubi_dict_path`
unfoldable pub wubi_dict_path : (home : Option Bytes) → Options → Bytes
unfolding under rime_dir
wubi_dict_path home o =
    if is_empty o.wubi_dict then under (rime_dir home o) (codes "wubi86.dict.yaml") else o.wubi_dict

-- the auto-learner's configuration, where there is one; the members that are not set keep their initialisers
unfoldable pub auto_learn_config :
    (home : Option Bytes) → (data_root : Bytes) → (has_history : Bool) → Options → Option Config
unfolding rime_dir wubi_dict_path
auto_learn_config home data_root has_history o =
    if o.auto_learn && has_history
    then some (record {
      data_dir = data_root;
      rime_user_dir = rime_dir home o;
      wubi_dict_path = wubi_dict_path home o;
      idle_threshold = o.auto_learn_idle_s;
      poll_interval = o.auto_learn_poll_s;
      min_round_interval = o.auto_learn_min_interval_s;
      min_new_word_freq = 2;
      commit_to_git = true;
      push_to_remote = false;
    })
    else none
