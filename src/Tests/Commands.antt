-- ===== src/Tests/Commands.antt =====
-- The theorems on saving and on the subcommands, at concrete inputs.
use mesh_checker.Base.{
  ◌≡◌, refl, false, none, [], ◌∷◌, ◌++◌, Text, text_eq, nat_eq, codes, ok, arith,
}
use mesh_checker.Base.Dict.{Dict}
use mesh_checker.Config.{Config, Peer, User}
use mesh_checker.Config.Validate.{validate}
use mesh_checker.Config.Files.{save}
use mesh_checker.Config.Files.Atomic.{Saved, save-Saved}
use mesh_checker.Cli.Flags.{is_plain}
use mesh_checker.Cli.Named.{exists}
use mesh_checker.Cli.Mutate.{load_and_mutate}
use mesh_checker.Cli.Mutate.Laws.{AllOrNothing, load_and_mutate-AllOrNothing}
use mesh_checker.Cli.Host.{
  new_peer, peer_name, with_peers, add_peer, remove_peer, added_line, removed_line, run_host_add,
}
use mesh_checker.Cli.Host.Laws.{add_peer-IsSound, remove_peer-IsSound, run_host_add-order}
use mesh_checker.Cli
use mesh_checker.Tests.Instances.{map_disk, map_disk-IsDisk, plain_json}
use mesh_checker.Tests.Nodes.{config_a, valid_a, decode}

abbrev pub config_path : Text
config_path = codes "/etc/config.json"

abbrev files_a : Dict Text Text
files_a = (config_path, codes "old") ∷ []

save-Saved_example :
    Saved map_disk plain_json map_disk-IsDisk config_path files_a config_a
      (save map_disk plain_json files_a config_path config_a)
save-Saved_example = save-Saved map_disk plain_json map_disk-IsDisk config_path files_a config_a

abbrev saved_files : Dict Text Text
saved_files = (save map_disk plain_json files_a config_path config_a).0

abbrev pub text_a : Text
text_a = mesh_checker.Tests.Instances.config_codec.put config_a

abbrev peer_c : Peer
peer_c = new_peer (codes "c") (codes "10.0.0.3") (codes "tcp" ∷ [])

load_and_mutate-AllOrNothing_example :
    AllOrNothing map_disk plain_json map_disk-IsDisk saved_files config_path
      (add_peer peer_c)
      (load_and_mutate map_disk plain_json saved_files config_path (add_peer peer_c))
load_and_mutate-AllOrNothing_example =
    load_and_mutate-AllOrNothing map_disk plain_json map_disk-IsDisk saved_files config_path
      (add_peer peer_c)

abbrev config_ac : Config
config_ac = with_peers config_a (config_a.peers ++ (peer_c ∷ []))

added_c : add_peer peer_c config_a ≡ ok (config_ac, added_line peer_c)
unfolding add_peer exists text_eq nat_eq
added_c = refl

removed_c : remove_peer (codes "c") config_ac ≡ ok (config_a, removed_line (codes "c"))
unfolding remove_peer mesh_checker.Cli.Named.cut_out text_eq nat_eq
removed_c = refl

valid_ac : validate decode config_ac ≡ none
unfolding validate mesh_checker.Config.Validate.validate_with_warnings
    mesh_checker.Config.Validate.check_secret mesh_checker.Config.Validate.check_peers text_eq
    nat_eq
valid_ac = refl

add_peer-IsSound_example : validate decode config_ac ≡ none
add_peer-IsSound_example =
    add_peer-IsSound decode peer_c config_a config_ac (added_line peer_c) valid_a added_c

remove_peer-IsSound_example :
    (validate decode config_a ≡ none) × (exists peer_name (codes "c") config_a.peers ≡ false)
remove_peer-IsSound_example =
    remove_peer-IsSound decode (codes "c") config_ac config_a (removed_line (codes "c")) valid_ac
      removed_c

run_host_add-order_example :
    run_host_add map_disk plain_json
      (λ rows. [])
      saved_files
      (codes "c"
        ∷ codes "10.0.0.3"
        ∷ codes "--config"
        ∷ config_path
        ∷ codes "--check"
        ∷ codes "tcp"
        ∷ [])
    ≡ run_host_add map_disk plain_json
        (λ rows. [])
        saved_files
        (codes "--config"
          ∷ config_path
          ∷ codes "--check"
          ∷ codes "tcp"
          ∷ codes "c"
          ∷ codes "10.0.0.3"
          ∷ [])
unfolding is_plain text_eq nat_eq
run_host_add-order_example =
    run_host_add-order map_disk plain_json (λ rows. []) saved_files (codes "c") (codes "10.0.0.3")
      ((codes "config", config_path) ∷ (codes "check", codes "tcp") ∷ []) (ground arith) refl refl
