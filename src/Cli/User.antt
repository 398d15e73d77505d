-- ===== src/Cli/User.antt =====
-- internal/pkg/cli/user.go: `user add` and `user remove`.
pub mod Laws
use mesh_checker.Base.{
  Option, none, some, List, [], ◌∷◌, ◌++◌, Text, text_eq, codes, ◌==◌, if◌then◌else◌, Fallible, ok,
  err,
}
use mesh_checker.Config.{Config, User, Ui}
use mesh_checker.Config.Files.{Json, Disk}
use mesh_checker.Cli.Args.{
  CliError, missing_subcommand, unknown_subcommand, already_exists, not_found, empty_password,
  password_error, hash_error, config_flag, config_path, name_args,
}
use mesh_checker.Cli.Named.{exists, cut_out}
use mesh_checker.Cli.Mutate.{Outcome, Edit, failed, load_and_mutate}

abbrev pub with_users : Config → List User → Config
with_users c users = record {
  version = c.version;
  host = c.host;
  pki = c.pki;
  listeners = c.listeners;
  probe = c.probe;
  peers = c.peers;
  ui = record {
    users = users;
    session_secret = c.ui.session_secret;
    session_ttl_seconds = c.ui.session_ttl_seconds;
  };
  log = c.log;
}

abbrev pub user_name : User → Text
user_name u = u.name

abbrev pub added_line : Text → Text
added_line name = codes "added user " ++ name

abbrev pub removed_line : Text → Text
removed_line name = codes "removed user " ++ name

unfoldable pub add_user : User → Edit
add_user u c =
    if exists user_name u.name c.ui.users
    then err (already_exists u.name)
    else ok (with_users c (c.ui.users ++ (u ∷ [])), added_line u.name)

unfoldable pub remove_user : Text → Edit
remove_user name c = elim (cut_out user_name name c.ui.users) [
  | none ↦ err (not_found name)
  | some users ↦ ok (with_users c users, removed_line name)
]

-- What the terminal gives as the password, and bcrypt with cost 12, whose salt is random.
module _ (password : Fallible Text Text) (hash : Text → Fallible Text Text) where
  -- The hash of a password that is not empty.
  unfoldable pub read_hash : Fallible CliError Text
  unfolding text_eq
  read_hash = elim password [
    | err e ↦ err (password_error e)
    | ok pw ↦
        if pw == []
        then err empty_password
        else elim (hash pw) [ err e ↦ err (hash_error e) | ok h ↦ ok h ]
  ]

  module _ (d : Disk) (json : Json) where
    unfoldable pub run_user_add : d.State → List Text → Outcome d.State
    run_user_add s args = elim (name_args (config_flag ∷ []) args) [
      | err e ↦ failed s e
      | ok (flags, name) ↦ elim read_hash [
        | err e ↦ failed s e
        | ok h ↦
            load_and_mutate d json s (config_path flags)
              (add_user (record { name = name; password_hash = h }))
      ]
    ]

    unfoldable pub run_user_remove : d.State → List Text → Outcome d.State
    run_user_remove s args = elim (name_args (config_flag ∷ []) args) [
      | err e ↦ failed s e
      | ok (flags, name) ↦ load_and_mutate d json s (config_path flags) (remove_user name)
    ]

    unfoldable pub run_user : d.State → List Text → Outcome d.State
    unfolding text_eq
    run_user s [] = failed s missing_subcommand
    run_user s (sub ∷ args) =
        if sub == codes "add"
        then run_user_add s args
        else if sub == codes "remove"
        then run_user_remove s args
        else failed s (unknown_subcommand sub)
