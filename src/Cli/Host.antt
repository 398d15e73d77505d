-- ===== src/Cli/Host.antt =====
-- internal/pkg/cli/host.go: `host add`, `host remove` and `host list`.
pub mod Laws
use mesh_checker.Base.{
  Bool, true, false, not, Option, none, some, List, [], ◌∷◌, ◌++◌, map, Text, text_eq, codes, ◌==◌,
  if◌then◌else◌, Fallible, ok, err, ◌>>=◌,
}
use mesh_checker.Base.Int.{pos}
use mesh_checker.Probe.{icmp, tcp, udp, https}
use mesh_checker.Config.{Config, Peer}
use mesh_checker.Config.Files.{Json, Disk, load}
use mesh_checker.Cli.Flags.{parse_flags, all_values}
use mesh_checker.Cli.Args.{
  CliError, missing_subcommand, unknown_subcommand, already_exists, not_found, flag_error,
  file_error, config_flag, config_path, pair_args, name_args,
}
use mesh_checker.Cli.Named.{exists, cut_out}
use mesh_checker.Cli.Mutate.{Outcome, Edit, failed, load_and_mutate}

abbrev pub with_peers : Config → List Peer → Config
with_peers c peers = record {
  version = c.version;
  host = c.host;
  pki = c.pki;
  listeners = c.listeners;
  probe = c.probe;
  peers = peers;
  ui = c.ui;
  log = c.log;
}

-- The peer that `host add` makes: the ports and the URL keep their zero values.
abbrev pub new_peer : Text → Text → List Text → Peer
new_peer name addr checks = record {
  name = name;
  addr = addr;
  checks = checks;
  tcp_port = pos 0;
  udp_port = pos 0;
  https_url = [];
}

abbrev pub peer_name : Peer → Text
peer_name p = p.name

abbrev pub added_line : Peer → Text
added_line p = codes "added peer " ++ (p.name ++ (codes " (" ++ (p.addr ++ codes ")")))

abbrev pub removed_line : Text → Text
removed_line name = codes "removed peer " ++ name

unfoldable pub add_peer : Peer → Edit
add_peer p c =
    if exists peer_name p.name c.peers
    then err (already_exists p.name)
    else ok (with_peers c (c.peers ++ (p ∷ [])), added_line p)

unfoldable pub remove_peer : Text → Edit
remove_peer name c = elim (cut_out peer_name name c.peers) [
  | none ↦ err (not_found name)
  | some peers ↦ ok (with_peers c peers, removed_line name)
]

abbrev pub check_flag : Text
check_flag = codes "check"

abbrev pub checks_or_default : List Text → List Text
checks_or_default [] = icmp ∷ tcp ∷ udp ∷ https ∷ []
checks_or_default (c ∷ checks) = c ∷ checks

-- `%v` of the checks.
abbrev pub words : List Text → Text
words [] = []
words (w ∷ []) = w
words (w ∷ v ∷ ws) = w ++ (codes " " ++ words (v ∷ ws))

-- `table` lays out rows of cells: package text/tabwriter.
module _ (d : Disk) (json : Json) (table : List (List Text) → Text) where
  unfoldable pub run_host_add : d.State → List Text → Outcome d.State
  run_host_add s args = elim (pair_args (config_flag ∷ check_flag ∷ []) args) [
    | err e ↦ failed s e
    | ok (flags, name, addr) ↦
        load_and_mutate d json s (config_path flags)
          (add_peer (new_peer name addr (checks_or_default (all_values check_flag flags))))
  ]

  unfoldable pub run_host_remove : d.State → List Text → Outcome d.State
  run_host_remove s args = elim (name_args (config_flag ∷ []) args) [
    | err e ↦ failed s e
    | ok (flags, name) ↦ load_and_mutate d json s (config_path flags) (remove_peer name)
  ]

  abbrev pub peer_rows : List Peer → List (List Text)
  peer_rows [] = []
  peer_rows (p ∷ peers) =
      (p.name ∷ p.addr ∷ (codes "[" ++ (words p.checks ++ codes "]")) ∷ []) ∷ peer_rows peers

  -- Arguments behind the flags are ignored.
  unfoldable pub run_host_list : d.State → List Text → Outcome d.State
  run_host_list s args = elim (parse_flags (config_flag ∷ []) args) [
    | err e ↦ failed s (flag_error e)
    | ok (flags, rest) ↦ elim (load d json s (config_path flags)) [
      | err e ↦ failed s (file_error e)
      | ok c ↦ record {
        files = s;
        out = table ((codes "NAME" ∷ codes "ADDR" ∷ codes "CHECKS" ∷ []) ∷ peer_rows c.peers) ∷ [];
        error = none;
      }
    ]
  ]

  unfoldable pub run_host : d.State → List Text → Outcome d.State
  unfolding text_eq
  run_host s [] = failed s missing_subcommand
  run_host s (sub ∷ args) =
      if sub == codes "add"
      then run_host_add s args
      else if sub == codes "remove"
      then run_host_remove s args
      else if sub == codes "list"
      then run_host_list s args
      else failed s (unknown_subcommand sub)
