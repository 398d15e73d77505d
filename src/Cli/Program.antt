-- ===== src/Cli/Program.antt =====
-- cmd/mesh-checker/main.go, and the `init` functions of internal/pkg/cli: the program's own table of
-- subcommands, and the end of the process.
use mesh_checker.Base.{
  ℕ, ◌≡◌, ◌↔◌, refl, ◌++◌, Bool, Option, none, some, List, [], ◌∷◌, Text, text_eq, nat_eq, codes,
}
pub mod Ends
use mesh_checker.Cli.Dispatch.{
  Subcommand, Table, register, register_all, RunError, no_subcommand, unknown_subcommand, calls,
  refuses, run,
}

pub data Handler : Type 0 where
  run_config run_host run_pki run_serve run_status run_user : Handler

-- The `init` function that registers a handler.
abbrev pub registration : Handler → Text × Subcommand Handler
registration run_config =
    (codes "config", record { summary = codes "configuration helpers: validate"; run = run_config })
registration run_host =
    (codes "host", record { summary = codes "manage peer hosts: add|remove|list"; run = run_host })
registration run_pki = (
  codes "pki",
  record { summary = codes "PKI helpers: 'pki init' or 'pki cert <host>'"; run = run_pki },
)
registration run_serve =
    (codes "serve", record { summary = codes "run daemon + all three listeners"; run = run_serve })
registration run_status =
    (codes "status", record { summary = codes "show mesh status table"; run = run_status })
registration run_user =
    (codes "user", record { summary = codes "manage UI users: add|remove"; run = run_user })

abbrev pub name_of : Handler → Text
name_of h = (registration h).0

-- The `init` functions, in the order of their files.
abbrev pub inits : List (Text × Subcommand Handler)
inits =
    registration run_config
    ∷ registration run_host
    ∷ registration run_pki
    ∷ registration run_serve
    ∷ registration run_status
    ∷ registration run_user
    ∷ []

-- What a subcommand, or the process, leaves: its lines on stdout and on stderr, and the error or the
-- exit status.
pub record Ran : Type 0 where
  pub out : List Text
  pub errors : List Text
  pub error : Option Text

pub record Exit : Type 0 where
  pub out : List Text
  pub errors : List Text
  pub status : ℕ

-- `quote` is the verb %q.
module _ (quote : Text → Text) where
  abbrev message : RunError → Text
  message no_subcommand = codes "no subcommand given"
  message (unknown_subcommand name) = codes "unknown subcommand " ++ quote name

  -- `Run` with the handlers' results.
  unfoldable pub ran : (Handler → List Text → Ran) → Table Handler → List Text → Ran
  ran handle table args = elim (run table args) [
    | calls h rest ↦ handle h rest
    | refuses e usage ↦ record { out = []; errors = usage; error = some (message e) }
  ]

  -- The end of `main`.
  unfoldable pub finish : Ran → Exit
  finish r = elim r.error [
    | none ↦ record { out = r.out; errors = r.errors; status = 0 }
    | some e ↦ record {
      out = r.out;
      errors = r.errors ++ ((codes "error: " ++ e) ∷ []);
      status = 1;
    }
  ]

  unfoldable pub main : (Handler → List Text → Ran) → Table Handler → List Text → Exit
  main handle table args = finish (ran handle table args)
