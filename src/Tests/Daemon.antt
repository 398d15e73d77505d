-- ===== src/Tests/Daemon.antt =====
-- The theorems on the start of a node, `config validate`, the HTTPS probe and the event stream, at
-- concrete inputs.
use mesh_checker.Base.{
  ℕ, zero, suc, subst, ◌≡◌, ◌↔◌, refl, true, Option, none, some, List, [], ◌∷◌, ◌++◌, Text, text_eq,
  nat_eq, codes, ok, err, arith,
}
use mesh_checker.Base.Int.{pos}
use mesh_checker.Base.Dict
use mesh_checker.Base.Dict.{Dict}
use mesh_checker.Probe.{Target}
use mesh_checker.Probe.Https
use mesh_checker.Probe.Https.Reach.{probe-new_mux}
use mesh_checker.Config.{Config}
use mesh_checker.Config.Files.{check_mode, load}
use mesh_checker.Config.Validate.{validate_with_warnings, check_secret, check_peers}
use mesh_checker.Store.{new}
use mesh_checker.Scheduler.{new_scheduler}
use mesh_checker.Echo.{new_udp_echo}
use mesh_checker.Serve.{build_jobs, workers_for, peer_names, peer_names_list}
use mesh_checker.Serve.Prepare.{
  Platform, Plan, seconds, probers_for, peer_urls, add_addrs, same_name, assemble, decode_secrets,
  check_pair, prepare_config, prepare, prepare_args,
}
use mesh_checker.Serve.Prepare.Ready.{IsReady, prepare-IsReady}
use mesh_checker.Serve.Prepare.Mesh.{fetch-prepare}
use mesh_checker.Aggregator.{ObserverView}
use mesh_checker.Interhost
use mesh_checker.Interhost.{status_path, fetch}
use mesh_checker.Cli.Flags.{parse_flags, classify_arg, last_value}
use mesh_checker.Cli.ConfigCommand.{run_config_validate}
use mesh_checker.Cli.ConfigCommand.Agreement.{PastChecks, run_config_validate-prepare}
use mesh_checker.Ui.Http.{Request}
use mesh_checker.Ui.Mux.{new_mux}
use mesh_checker.Ui.Events.{tick, done, serve_events}
use mesh_checker.Ui.Events.Stream.{IsLine, read_events, read_events-serve_events}
use mesh_checker.Tests.Instances.{map_disk, plain_json, checksums, plain64, config_codec}
use mesh_checker.Tests.Nodes.{config_a, peer_b, decode, secret}
use mesh_checker.Tests.Views.{views}
use mesh_checker.Tests.Access.{deps_a, status_request}
use mesh_checker.Tests.Commands.{text_a}

-- The host that a file of a key pair is for.
abbrev named_by : Text → Text
named_by [] = codes "a"
named_by (c ∷ cs) = c ∷ cs

-- Certificates as texts; the host's certificate names it.
abbrev platform_a : Platform (Dict Text Text)
platform_a = record {
  CaPool = Text;
  KeyPair = Text;
  certs_from_pem = λ b. some b;
  load_key_pair = λ s cert key. ok (named_by cert);
  leaf_common_name = λ pair. ok pair;
  decode_std = decode;
  split_host_port = λ addr. ok ([], codes "8443");
  join_host_port = λ host port. host ++ (b':' ∷ port);
  icmp_socket = err (codes "operation not permitted");
  listen_udp = λ addr. none;
}

abbrev config_file : Text
config_file = codes "/etc/config.json"

-- The configuration, and the CA, whose path is empty.
abbrev node_files : Dict Text Text
node_files = (config_file, text_a) ∷ ([], codes "ca") ∷ []

abbrev plan_of : Config → Plan map_disk plain_json platform_a
plan_of c =
    let st = new (pos 100) in
    let jobs = build_jobs (probers_for map_disk plain_json platform_a (codes "ca") secret c) c in
    record {
      config = c;
      mesh_ca = codes "ca";
      host_cert = c.host.name;
      scheduler =
          new_scheduler
            (record {
              interval = seconds (pos 10);
              jitter_percent = pos 10;
              workers = workers_for jobs;
              timeout = seconds (pos 3);
            })
            jobs st;
      allowed_names = peer_names c;
      urls = peer_urls platform_a.join_host_port (codes "8443") c;
      aggregator = record {
        store = st;
        local_host = c.host.name;
        peers = peer_names_list c.peers;
        window = pos 5;
        threshold = pos 3;
      };
      session = record { secret = secret; ttl = seconds (pos 3600) };
      users = c.ui.users;
      echo = new_udp_echo secret (add_addrs [] c.peers);
    }

abbrev plan_a : Plan map_disk plain_json platform_a
plan_a = plan_of config_a

prepare-IsReady_example : IsReady map_disk plain_json platform_a node_files config_file plan_a
unfolding prepare prepare_config check_pair decode_secrets assemble same_name check_mode load
    Dict.lookup validate_with_warnings check_secret check_peers text_eq nat_eq
prepare-IsReady_example =
    prepare-IsReady map_disk plain_json platform_a node_files config_file {plan = plan_a} refl

-- The node `b`, which has `a` as its peer.
abbrev config_b : Config
config_b = record config_a {
  host = record { name = codes "b"; advertise_addr = codes "10.0.0.2" };
  pki = record config_a.pki { host_cert_path = codes "b" };
  peers = record peer_b { name = codes "a"; addr = codes "10.0.0.1" } ∷ [];
}

abbrev files_b : Dict Text Text
files_b = (config_file, config_codec.put config_b) ∷ ([], codes "ca") ∷ []

abbrev view_b : ObserverView
view_b = record { host = codes "b"; samples = []; reachable = true; reason = codes "up" }

-- The server of `b`, where the certificate of `a` is verified.
abbrev answer_b : Interhost.Response
answer_b =
    Interhost.new_mux views (plan_of config_b).allowed_names view_b (codes "dev")
      (record { path = status_path; tls = some (record { common_name = codes "a" } ∷ []) })

fetch-prepare_example : fetch views plan_a.urls (λ url. ok answer_b) (codes "b") ≡ ok view_b
unfolding prepare prepare_config check_pair decode_secrets assemble same_name check_mode load
    Dict.lookup validate_with_warnings check_secret check_peers text_eq nat_eq
fetch-prepare_example =
    fetch-prepare map_disk plain_json platform_a views node_files files_b config_file config_file
      plan_a (plan_of config_b) [] [] peer_b [] (codes "8443") (codes "a") (codes "dev") [] view_b
      (λ url. ok answer_b) refl refl refl refl refl refl

abbrev flags_a : List (Text × Text)
flags_a = (codes "config", config_file) ∷ []

abbrev words_a : List Text
words_a = codes "--config" ∷ config_file ∷ []

run_config_validate-prepare_example :
    ((run_config_validate map_disk plain_json decode node_files words_a).error ≡ none)
    ↔ PastChecks map_disk plain_json platform_a
        (prepare_args map_disk plain_json platform_a node_files words_a)
unfolding parse_flags classify_arg check_mode last_value nat_eq text_eq
run_config_validate-prepare_example =
    run_config_validate-prepare map_disk plain_json platform_a node_files words_a flags_a [] refl
      refl

abbrev probe_request : Request
probe_request = record status_request { path = codes "/probe"; cookie = none }

abbrev client_a : Https.Client
client_a = record {
  Request = Text;
  new_get = λ url. ok url;
  send = λ url.
      ok (new_mux checksums plain64 (λ name. none) (codes "dev") deps_a probe_request (pos 9));
  elapsed = pos 4;
}

abbrev target_a : Target
target_a = record {
  name = codes "a";
  addr = codes "10.0.0.1";
  tcp_port = pos 0;
  udp_port = pos 0;
  https_url = codes "https://10.0.0.1/probe";
}

probe-new_mux_example : (Https.probe client_a (pos 5) target_a).is_ok ≡ true
probe-new_mux_example =
    probe-new_mux checksums plain64 (λ name. none) client_a (pos 5) target_a
      (codes "https://10.0.0.1/probe") (codes "dev") deps_a probe_request (pos 9) refl refl refl

-- Views as single digits.
abbrev digit : ℕ → Option Text
digit zero = none
digit (suc n) = some (b'1' ∷ [])

digit-IsLine : (n : ℕ) (b : Text) → digit n ≡ some b → IsLine b
digit-IsLine zero b h = cc
digit-IsLine (suc n) b h =
    subst IsLine (Dict.some_injective (b'1' ∷ []) b h) ((λ e. absurd (omega (arith, e))), tt)

read_events-serve_events_example :
    read_events (serve_events digit true 1 (tick 0 ∷ tick 2 ∷ done ∷ [])).body
    ≡ (b'1' ∷ []) ∷ (b'1' ∷ []) ∷ []
read_events-serve_events_example =
    read_events-serve_events digit 1 (tick 0 ∷ tick 2 ∷ done ∷ []) digit-IsLine
