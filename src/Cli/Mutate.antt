-- ===== src/Cli/Mutate.antt =====
-- internal/pkg/cli/configio.go: loading the configuration, an edit, and saving it.
pub mod Laws
pub mod Strict
use mesh_checker.Base.{Option, none, some, List, [], ◌∷◌, Text, Fallible, ok, err}
use mesh_checker.Config.{Config}
use mesh_checker.Config.Files.{Json, Disk, FileError, load, save}
use mesh_checker.Cli.Args.{CliError, file_error}

-- What a command leaves: the files, the lines on stdout, and its error.
pub record Outcome (S : Type 0) : Type 0 where
  pub files : S
  pub out : List Text
  pub error : Option CliError

abbrev pub failed : {S : Type 0} → S → CliError → Outcome S
failed s e = record { files = s; out = []; error = some e }

-- An edit refuses, or changes the configuration and prints a line.
abbrev pub Edit : Type 0
Edit = Config → Fallible CliError (Config × Text)

abbrev pub save_error : Option FileError → Option CliError
save_error none = none
save_error (some e) = some (file_error e)

module _ (d : Disk) (json : Json) where
  -- `loadAndMutate`. The line is printed by the edit, so before the configuration is saved.
  unfoldable pub load_and_mutate : d.State → Text → Edit → Outcome d.State
  load_and_mutate s path edit = elim (load d json s path) [
    | err e ↦ failed s (file_error e)
    | ok c ↦ elim (edit c) [
      | err e ↦ failed s e
      | ok r ↦
          let saved = save d json s path r.0 in
          record { files = saved.0; out = r.1 ∷ []; error = save_error saved.1 }
    ]
  ]
