-- ===== src/Daemon/Arguments.antt =====
-- src/daemon/main.cc: every option can be set by the command line.
use dafeng_wubi.Prelude.{
  ℕ, zero, suc, ◌≤◌, ◌<◌, ◌++◌, All, length-append, Bool, true, false, List, [], ◌∷◌, Option, some,
  ◌≡◌, refl, ap, ◌∙◌, arith, if◌then◌else◌, length, Bytes, codes,
}
use dafeng_wubi.Prelude.Int.{IsInt32}
use dafeng_wubi.CommandLine.{goes_on, Parsed, parse_fuel, atoi}
use dafeng_wubi.Daemon.{
  BackendKind, mock, deterministic, mlx, llama_cpp, backend_name, parse_backend, LogLevel, debug,
  info, warn, error, parse_log_level, Options, set_level, set_backend, parse_value, parse_argument,
  parse_arguments,
}

-- what the user types for a level
abbrev pub level_name : LogLevel → Bytes
level_name debug = codes "debug"
level_name info = codes "info"
level_name warn = codes "warn"
level_name error = codes "error"

parse_log_level-level_name : (l : LogLevel) → parse_log_level (level_name l) ≡ some l
unfolding parse_log_level
parse_log_level-level_name debug = refl
parse_log_level-level_name info = refl
parse_log_level-level_name warn = refl
parse_log_level-level_name error = refl

parse_backend-backend_name : (b : BackendKind) → parse_backend (backend_name b) ≡ some b
unfolding parse_backend backend_name
parse_backend-backend_name mock = refl
parse_backend-backend_name deterministic = refl
parse_backend-backend_name mlx = refl
parse_backend-backend_name llama_cpp = refl

-- what an option of the command line sets; the numbers are texts
pub data Setting : Type 0 where
  foreground : Setting
  addr : Bytes → Setting
  log_level : LogLevel → Setting
  backend : BackendKind → Setting
  model_path : Bytes → Setting
  auto_learn : Bool → Setting
  rime_user_dir : Bytes → Setting
  wubi_dict : Bytes → Setting
  poll : Bytes → Setting
  idle : Bytes → Setting
  min_interval : Bytes → Setting

-- the arguments of an option
abbrev pub arguments_of : Setting → List Bytes
arguments_of foreground = codes "--foreground" ∷ []
arguments_of (addr v) = codes "--addr" ∷ v ∷ []
arguments_of (log_level l) = codes "--log-level" ∷ level_name l ∷ []
arguments_of (backend b) = codes "--backend" ∷ backend_name b ∷ []
arguments_of (model_path v) = codes "--model-path" ∷ v ∷ []
arguments_of (auto_learn b) = (if b then codes "--auto-learn" else codes "--no-auto-learn") ∷ []
arguments_of (rime_user_dir v) = codes "--rime-user-dir" ∷ v ∷ []
arguments_of (wubi_dict v) = codes "--wubi-dict" ∷ v ∷ []
arguments_of (poll v) = codes "--auto-learn-poll" ∷ v ∷ []
arguments_of (idle v) = codes "--auto-learn-idle" ∷ v ∷ []
arguments_of (min_interval v) = codes "--auto-learn-min-interval" ∷ v ∷ []

abbrev pub command_line : List Setting → List Bytes
command_line [] = []
command_line (s ∷ settings) = arguments_of s ++ command_line settings

-- the member that an option sets
abbrev pub apply : Setting → Options → Options
apply foreground o = o
apply (addr v) o = record o { addr = v }
apply (log_level l) o = record o { level = l }
apply (backend b) o = record o { backend = b }
apply (model_path v) o = record o { model_path = v }
apply (auto_learn b) o = record o { auto_learn = b }
apply (rime_user_dir v) o = record o { rime_user_dir = v }
apply (wubi_dict v) o = record o { wubi_dict = v }
apply (poll v) o = record o { auto_learn_poll_s = atoi v }
apply (idle v) o = record o { auto_learn_idle_s = atoi v }
apply (min_interval v) o = record o { auto_learn_min_interval_s = atoi v }

abbrev pub apply_all : List Setting → Options → Options
apply_all [] o = o
apply_all (s ∷ settings) o = apply_all settings (apply s o)

-- A number is one that an `int` holds, as `std::atoi` wants it.
abbrev pub Fits : Setting → Type 0
Fits (poll v) = IsInt32 (atoi v)
Fits (idle v) = IsInt32 (atoi v)
Fits (min_interval v) = IsInt32 (atoi v)
Fits _ = Unit {0}

-- a round that goes on
parse-round :
    (n : ℕ) (a : Bytes) (rest rest' : List Bytes) (o o' : Options)
    → parse_argument a rest o ≡ goes_on o' rest'
    → parse_fuel parse_argument (suc n) (a ∷ rest) o ≡ parse_fuel parse_argument n rest' o'
unfolding parse_fuel
parse-round n a rest rest' o o' e = rw (parse_fuel, e) refl

round-level :
    (l : LogLevel) (rest : List Bytes) (o : Options)
    → parse_argument (codes "--log-level") (level_name l ∷ rest) o
      ≡ goes_on (record o { level = l }) rest
unfolding parse_argument parse_value
round-level l rest o =
    ap (λ (m : Option LogLevel). set_level m o rest) (parse_log_level-level_name l)

round-backend :
    (b : BackendKind) (rest : List Bytes) (o : Options)
    → parse_argument (codes "--backend") (backend_name b ∷ rest) o
      ≡ goes_on (record o { backend = b }) rest
unfolding parse_argument parse_value
round-backend b rest o =
    ap (λ (c : Option BackendKind). set_backend c o rest) (parse_backend-backend_name b)

round-auto_learn :
    (b : Bool) (rest : List Bytes) (o : Options)
    → parse_argument (if b then codes "--auto-learn" else codes "--no-auto-learn") rest o
      ≡ goes_on (record o { auto_learn = b }) rest
unfolding parse_argument
round-auto_learn true rest o = refl
round-auto_learn false rest o = refl

round-addr :
    (v : Bytes) (rest : List Bytes) (o : Options)
    → parse_argument (codes "--addr") (v ∷ rest) o ≡ goes_on (record o { addr = v }) rest
unfolding parse_argument parse_value
round-addr v rest o = refl

round-model_path :
    (v : Bytes) (rest : List Bytes) (o : Options)
    → parse_argument (codes "--model-path") (v ∷ rest) o
      ≡ goes_on (record o { model_path = v }) rest
unfolding parse_argument parse_value
round-model_path v rest o = refl

round-rime_user_dir :
    (v : Bytes) (rest : List Bytes) (o : Options)
    → parse_argument (codes "--rime-user-dir") (v ∷ rest) o
      ≡ goes_on (record o { rime_user_dir = v }) rest
unfolding parse_argument parse_value
round-rime_user_dir v rest o = refl

round-wubi_dict :
    (v : Bytes) (rest : List Bytes) (o : Options)
    → parse_argument (codes "--wubi-dict") (v ∷ rest) o ≡ goes_on (record o { wubi_dict = v }) rest
unfolding parse_argument parse_value
round-wubi_dict v rest o = refl

round-poll :
    (v : Bytes) (rest : List Bytes) (o : Options)
    → parse_argument (codes "--auto-learn-poll") (v ∷ rest) o
      ≡ goes_on (record o { auto_learn_poll_s = atoi v }) rest
unfolding parse_argument parse_value
round-poll v rest o = refl

round-idle :
    (v : Bytes) (rest : List Bytes) (o : Options)
    → parse_argument (codes "--auto-learn-idle") (v ∷ rest) o
      ≡ goes_on (record o { auto_learn_idle_s = atoi v }) rest
unfolding parse_argument parse_value
round-idle v rest o = refl

round-min_interval :
    (v : Bytes) (rest : List Bytes) (o : Options)
    → parse_argument (codes "--auto-learn-min-interval") (v ∷ rest) o
      ≡ goes_on (record o { auto_learn_min_interval_s = atoi v }) rest
unfolding parse_argument parse_value
round-min_interval v rest o = refl

parse-end : (n : ℕ) (o : Options) → parse_fuel parse_argument n [] o ≡ some (Parsed.parsed o)
unfolding parse_fuel
parse-end n o = refl

round-foreground :
    (rest : List Bytes) (o : Options)
    → parse_argument (codes "--foreground") rest o ≡ goes_on o rest
unfolding parse_argument
round-foreground rest o = refl

-- An option takes a round.
round-setting :
    (n : ℕ) (s : Setting) (rest : List Bytes) (o : Options)
    → parse_fuel parse_argument (suc n) (arguments_of s ++ rest) o
      ≡ parse_fuel parse_argument n rest (apply s o)
round-setting n foreground rest o = parse-round n _ _ _ _ _ (round-foreground rest o)
round-setting n (addr v) rest o = parse-round n _ _ _ _ _ (round-addr v rest o)
round-setting n (log_level l) rest o = parse-round n _ _ _ _ _ (round-level l rest o)
round-setting n (backend b) rest o = parse-round n _ _ _ _ _ (round-backend b rest o)
round-setting n (model_path v) rest o = parse-round n _ _ _ _ _ (round-model_path v rest o)
round-setting n (auto_learn b) rest o = parse-round n _ _ _ _ _ (round-auto_learn b rest o)
round-setting n (rime_user_dir v) rest o = parse-round n _ _ _ _ _ (round-rime_user_dir v rest o)
round-setting n (wubi_dict v) rest o = parse-round n _ _ _ _ _ (round-wubi_dict v rest o)
round-setting n (poll v) rest o = parse-round n _ _ _ _ _ (round-poll v rest o)
round-setting n (idle v) rest o = parse-round n _ _ _ _ _ (round-idle v rest o)
round-setting n (min_interval v) rest o = parse-round n _ _ _ _ _ (round-min_interval v rest o)

rounds-settings :
    (n : ℕ) (settings : List Setting) (o : Options)
    → length settings ≤ n
    → parse_fuel parse_argument n (command_line settings) o
      ≡ some (Parsed.parsed (apply_all settings o))
rounds-settings n [] o h = parse-end n o
rounds-settings zero (s ∷ settings) o h = absurd (omega arith)
rounds-settings (suc n) (s ∷ settings) o h =
    round-setting n s (command_line settings) o
    ∙ rounds-settings n settings (apply s o) (omega arith)

arguments_of-pos : (s : Setting) → 0 < length (arguments_of s)
arguments_of-pos foreground = omega arith
arguments_of-pos (addr v) = omega arith
arguments_of-pos (log_level l) = omega arith
arguments_of-pos (backend b) = omega arith
arguments_of-pos (model_path v) = omega arith
arguments_of-pos (auto_learn b) = omega arith
arguments_of-pos (rime_user_dir v) = omega arith
arguments_of-pos (wubi_dict v) = omega arith
arguments_of-pos (poll v) = omega arith
arguments_of-pos (idle v) = omega arith
arguments_of-pos (min_interval v) = omega arith

length-command_line : (settings : List Setting) → length settings ≤ length (command_line settings)
length-command_line [] = omega arith
length-command_line (s ∷ settings) = omega (
  arith,
  length-append (arguments_of s) (command_line settings),
  arguments_of-pos s,
  length-command_line settings,
)

-- Any options on the command line, in any order and however often, set exactly their members, a later one over an earlier one, whatever
-- the members were before; the value of an option may itself look like one. The numbers fit an `int`.
pub parse_arguments-command_line :
    (settings : List Setting) (o : Options)
    → All Fits settings
    → parse_arguments (command_line settings) o ≡ some (Parsed.parsed (apply_all settings o))
unfolding parse_arguments
parse_arguments-command_line settings o fits =
    rounds-settings (length (command_line settings)) settings o (length-command_line settings)
