-- ===== src/Cli/Dispatch.antt =====
-- internal/pkg/cli/cli.go: the table of subcommands, and the dispatch by name.
pub mod Table
use mesh_checker.Base.{
  ℕ, ◌-◌, ◌++◌, Bool, true, false, Option, none, some, List, [], ◌∷◌, Text, text_eq, nat_eq, codes,
  ◌==◌, ltb, if◌then◌else◌, length, replicate,
}
use mesh_checker.Base.Dict
use mesh_checker.Base.Dict.{Dict}

-- `Handler` stands for the handlers' type.
pub record Subcommand (Handler : Type 0) : Type 0 where
  pub summary : Text
  pub run : Handler

abbrev pub Table : Type 0 → Type 0
Table Handler = Dict Text (Subcommand Handler)

-- `register`; `none` is the panic on a name that is there.
unfoldable pub register :
    {Handler : Type 0} → Table Handler → Text → Subcommand Handler → Option (Table Handler)
register table name sc = elim (Dict.lookup name table) [
  | some _ ↦ none
  | none ↦ some (Dict.insert name sc table)
]

-- The `init` functions of the package, one after the other.
unfoldable pub register_all :
    {Handler : Type 0} → Table Handler → List (Text × Subcommand Handler) → Option (Table Handler)
register_all table [] = some table
register_all table ((name, sc) ∷ more) = elim (register table name sc) [
  | none ↦ none
  | some next ↦ register_all next more
]

pub data RunError : Type 0 where
  no_subcommand : RunError
  unknown_subcommand : Text → RunError

-- `Run`: the handler that is called and its arguments, or the error behind the usage.
pub data Dispatch (Handler : Type 0) : Type 0 where
  calls : Handler → List Text → Dispatch Handler
  refuses : RunError → List Text → Dispatch Handler

-- `a <= b` on strings, byte by byte.
unfoldable pub leb_text : Text → Text → Bool
leb_text [] b = true
leb_text (x ∷ a) [] = false
leb_text (x ∷ a) (y ∷ b) = if ltb x y then true else if ltb y x then false else leb_text a b

-- `sort.Strings`
unfoldable pub insert_sorted : Text → List Text → List Text
insert_sorted a [] = a ∷ []
insert_sorted a (b ∷ l) = if leb_text a b then a ∷ b ∷ l else b ∷ insert_sorted a l

unfoldable pub sort : List Text → List Text
sort [] = []
sort (a ∷ l) = insert_sorted a (sort l)

-- `%-12s`
abbrev pub pad : Text → Text
pad name = name ++ replicate (12 - length name) b' '

abbrev pub summary_of : {Handler : Type 0} → Option (Subcommand Handler) → Text
summary_of none = []
summary_of (some sc) = sc.summary

abbrev pub usage_lines : {Handler : Type 0} → Table Handler → List Text → List Text
usage_lines table [] = []
usage_lines table (n ∷ names) =
    (codes "  " ++ (pad n ++ (codes " " ++ summary_of (Dict.lookup n table))))
    ∷ usage_lines table names

-- `printUsage`
unfoldable pub usage : {Handler : Type 0} → Table Handler → List Text
usage table =
    codes "usage: mesh-checker <subcommand> [flags]"
    ∷ codes "subcommands:"
    ∷ usage_lines table (sort (Dict.keys table))

unfoldable pub run : {Handler : Type 0} → Table Handler → List Text → Dispatch Handler
run table [] = refuses no_subcommand (usage table)
run table (name ∷ args) = elim (Dict.lookup name table) [
  | none ↦ refuses (unknown_subcommand name) (usage table)
  | some sc ↦ calls sc.run args
]
