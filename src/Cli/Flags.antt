-- ===== src/Cli/Flags.antt =====
-- What the subcommands use of package flag: a set of flags that take a value, parsed up to the first
-- argument that is no flag.
pub mod Laws
use mesh_checker.Base.{
  ℕ, Bool, true, false, not, Option, none, some, List, [], ◌∷◌, ◌++◌, Text, text_eq, nat_eq, codes,
  ◌==◌, ◌||◌, ◌&&◌, if◌then◌else◌, Fallible, ok, err,
}
use mesh_checker.Base.Dict.{contains}

pub data FlagError : Type 0 where
  bad_syntax undefined no_argument : Text → FlagError

-- One argument, as `parseOne` looks at it.
pub data Arg : Type 0 where
  positional terminator : Arg
  malformed : Arg
  named : Text → Option Text → Arg

-- The name up to the first `=` behind its first byte, and the value behind that.
abbrev pub split_value : Text → Text × Option Text
split_value [] = ([], none)
split_value (c ∷ s) =
    let (name, value) = split_value s in if c == b'=' then ([], some s) else (c ∷ name, value)

abbrev pub named_arg : Text → Arg
named_arg [] = malformed
named_arg (c ∷ s) =
    let (name, value) = split_value s in
    if c == b'-' || c == b'=' then malformed else named (c ∷ name) value

unfoldable pub classify_arg : Text → Arg
unfolding nat_eq
classify_arg [] = positional
classify_arg (c ∷ []) = positional
classify_arg (c ∷ d ∷ []) =
    if not (c == b'-') then positional else if d == b'-' then terminator else named_arg (d ∷ [])
classify_arg (c ∷ d ∷ e ∷ s) =
    if not (c == b'-')
    then positional
    else if d == b'-'
    then named_arg (e ∷ s)
    else named_arg (d ∷ e ∷ s)

-- The flags that were set, in order, and the arguments that are left: `fs.Args()`.
abbrev pub Parsed : Type 0
Parsed = Fallible FlagError (List (Text × Text) × List Text)

abbrev pub with_flag : Text → Text → Parsed → Parsed
with_flag name value (err e) = err e
with_flag name value (ok (flags, rest)) = ok ((name, value) ∷ flags, rest)

-- `fs.Parse(args)` for a flag set of the given names. Under `elim` only the chosen call is made.
unfoldable pub parse_flags : List Text → List Text → Parsed
unfolding classify_arg
parse_flags known [] = ok ([], [])
parse_flags known (s ∷ []) = elim (classify_arg s) [
  | positional ↦ ok ([], s ∷ [])
  | terminator ↦ ok ([], [])
  | malformed ↦ err (bad_syntax s)
  | named name none ↦ if contains name known then err (no_argument name) else err (undefined name)
  | named name (some v) ↦
      if contains name known then ok ((name, v) ∷ [], []) else err (undefined name)
]
parse_flags known (s ∷ v ∷ args) = elim (classify_arg s) [
  | positional ↦ ok ([], s ∷ v ∷ args)
  | terminator ↦ ok ([], v ∷ args)
  | malformed ↦ err (bad_syntax s)
  | named name none ↦
      let rest = parse_flags known args in
      if contains name known then with_flag name v rest else err (undefined name)
  | named name (some w) ↦
      let rest = parse_flags known (v ∷ args) in
      if contains name known then with_flag name w rest else err (undefined name)
]

-- A string flag keeps the last value; a `multiString` collects all.
unfoldable pub last_value : Text → Text → List (Text × Text) → Text
last_value name value [] = value
last_value name value ((n, v) ∷ flags) = last_value name (if n == name then v else value) flags

unfoldable pub all_values : Text → List (Text × Text) → List Text
all_values name [] = []
all_values name ((n, v) ∷ flags) =
    if n == name then v ∷ all_values name flags else all_values name flags

-- `len(arg) > 0 && arg[0] != '-'`
unfoldable pub is_plain : Text → Bool
unfolding nat_eq
is_plain [] = false
is_plain (c ∷ s) = not (c == b'-')
