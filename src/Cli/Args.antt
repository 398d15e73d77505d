-- ===== src/Cli/Args.antt =====
-- internal/pkg/cli: what the editing subcommands do with their arguments. Each takes its plain
-- arguments either before the flags or behind them.
pub mod Laws
use mesh_checker.Base.{
  ℕ, zero, suc, Bool, true, false, not, ◌||◌, Option, none, some, List, [], ◌∷◌, Text, text_eq,
  codes, ◌==◌, leb, if◌then◌else◌, Fallible, ok, err, ◌>>=◌,
}
use mesh_checker.Config.Files.{FileError}
use mesh_checker.Cli.Flags.{FlagError, Parsed, parse_flags, last_value, is_plain}

pub data CliError : Type 0 where
  flag_error : FlagError → CliError
  file_error : FileError → CliError
  missing_subcommand usage extra_arguments empty_password : CliError
  unknown_subcommand : Text → CliError
  already_exists not_found : Text → CliError
  password_error hash_error : Text → CliError

abbrev pub default_config_path : Text
default_config_path = codes "/etc/mesh-checker/config.json"

-- `addConfigFlag`: the name of the flag, and what it holds after parsing.
abbrev pub config_flag : Text
config_flag = codes "config"

abbrev pub config_path : List (Text × Text) → Text
config_path flags = last_value config_flag default_config_path flags

-- The loop that counts the plain arguments in front.
unfoldable pub leading_plain : List Text → ℕ
leading_plain [] = 0
leading_plain (s ∷ args) = if is_plain s then suc (leading_plain args) else 0

-- `name`, `addr` and `flagArgs` of `runHostAdd`; an empty name stands for none.
unfoldable pub split_pair : List Text → Text × Text × List Text
split_pair [] = ([], [], [])
split_pair (s ∷ []) = ([], [], s ∷ [])
split_pair (n ∷ a ∷ args) =
    if leb 2 (leading_plain (n ∷ a ∷ args)) then (n, a, args) else ([], [], n ∷ a ∷ args)

-- `name` and `flagArgs` of the other three.
unfoldable pub split_name : List Text → Text × List Text
split_name [] = ([], [])
split_name (s ∷ args) = if is_plain s then (s, args) else ([], s ∷ args)

abbrev pub two_of : List Text → Fallible CliError (Text × Text)
two_of (n ∷ a ∷ []) = ok (n, a)
two_of args = err usage

abbrev pub one_of : List Text → Fallible CliError Text
one_of (n ∷ []) = ok n
one_of args = err usage

abbrev pub none_of : {A : Type 0} → A → List Text → Fallible CliError A
none_of a [] = ok a
none_of a (s ∷ args) = err extra_arguments

abbrev pub parsed : List Text → List Text → Fallible CliError (List (Text × Text) × List Text)
parsed known args = elim (parse_flags known args) [ err e ↦ err (flag_error e) | ok r ↦ ok r ]

-- The flags, the name and the address.
unfoldable pub pair_args :
    List Text → List Text → Fallible CliError (List (Text × Text) × Text × Text)
pair_args known args =
    let (name, addr, flag_part) = split_pair args in
    do
      (flags, rest) ← parsed known flag_part
      (n, a) ← if name == [] || addr == [] then two_of rest else none_of (name, addr) rest
      ok (flags, n, a)

-- The flags and the name.
unfoldable pub name_args : List Text → List Text → Fallible CliError (List (Text × Text) × Text)
name_args known args =
    let (name, flag_part) = split_name args in
    do
      (flags, rest) ← parsed known flag_part
      n ← if name == [] then one_of rest else none_of name rest
      ok (flags, n)
