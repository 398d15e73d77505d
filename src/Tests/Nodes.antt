-- ===== src/Tests/Nodes.antt =====
-- The theorems on the configuration and the sessions, at concrete inputs.
use mesh_checker.Base.{
  ℕ, ◌+◌, ◌≡◌, ◌≢◌, refl, ◌↔◌, ◌⊎◌, inl, inr, Bool, true, false, Option, none, some, List, [], ◌∷◌,
  ◌++◌, Text, text_eq, nat_eq, codes, replicate, All, Fallible, ok, err, length, ◌<◌, ◌≤◌, arith,
  ◌==◌, if◌then◌else◌, ◌||◌,
}
use mesh_checker.Base.Int.{ℤ, pos, ◌+ℤ◌, leb_ℤ, ◌≤ℤ◌, ◌<ℤ◌}
use mesh_checker.Base.Dict.{Dict}
use mesh_checker.Probe.{icmp, udp}
use mesh_checker.Store.{key_eq}
use mesh_checker.Config.{Config, Peer, User}
use mesh_checker.Config.Validate.{validate, validate_with_warnings, Warning}
use mesh_checker.Config.Validate.Laws.{IsSound, validate-IsSound}
use mesh_checker.Decimal.{parse_int, format_int}
use mesh_checker.Ui.Session.{Session, expired, unix, issue, verify, has_forbidden}
use mesh_checker.Ui.Session.Laws.{Lacks, seal, verify-issue, verify_sound}
use mesh_checker.Serve.{must_probers, build_jobs}
use mesh_checker.Serve.Jobs.{expected, all_checks, build_jobs-warnings}
use mesh_checker.Tests.Instances.{checksums, plain64}

abbrev pub secret : Text
secret = replicate 32 65

-- The secrets of the configuration stand as they are.
abbrev pub decode : Text → Option Text
decode b = some b

abbrev pub peer_b : Peer
peer_b = record {
  name = codes "b";
  addr = codes "10.0.0.2";
  checks = icmp ∷ codes "dns" ∷ udp ∷ [];
  tcp_port = pos 0;
  udp_port = pos 7100;
  https_url = [];
}

abbrev pub user_ann : User
user_ann = record { name = codes "ann"; password_hash = codes "hash" }

abbrev pub config_a : Config
config_a = record {
  version = pos 1;
  host = record { name = codes "a"; advertise_addr = codes "10.0.0.1" };
  pki = record { ca_cert_path = []; ca_key_path = []; host_cert_path = []; host_key_path = [] };
  listeners = record {
    inter_host = record { addr = [] };
    ui = record { addr = [] };
    probe = record { http_addr = []; udp_addr = [] };
  };
  probe = record {
    interval_seconds = pos 10;
    jitter_percent = pos 10;
    timeout_seconds = pos 3;
    failure_window = pos 5;
    failure_threshold = pos 3;
    ringbuffer_size = pos 100;
    udp_shared_secret = secret;
  };
  peers = peer_b ∷ [];
  ui = record { users = user_ann ∷ []; session_secret = secret; session_ttl_seconds = pos 3600 };
  log = record { level = codes "info" };
}

pub valid_a : validate decode config_a ≡ none
unfolding validate validate_with_warnings mesh_checker.Config.Validate.check_secret
    mesh_checker.Config.Validate.check_peers text_eq nat_eq
valid_a = refl

validate-IsSound_example : (validate decode config_a ≡ none) ↔ IsSound decode config_a
validate-IsSound_example = validate-IsSound decode config_a

-- Numbers in place of the probers.
abbrev probers : Dict Text ℕ
probers = must_probers 1 2 3 (some 4)

build_jobs-warnings_example :
    (build_jobs probers config_a ≡ (expected {P = ℕ} 1 2 3 4 (all_checks config_a.peers)).0)
    × ((validate_with_warnings decode config_a).0
        ≡ (expected {P = ℕ} 1 2 3 4 (all_checks config_a.peers)).1)
build_jobs-warnings_example = build_jobs-warnings 1 2 3 4 decode config_a valid_a

abbrev pub session_a : Session
session_a = record { secret = secret; ttl = pos 3600000000000 }

abbrev pub token_ann : Text
token_ann =
    seal checksums plain64 session_a
      (codes "ann" ++ (b':' ∷ format_int (unix (pos 5000000000 +ℤ session_a.ttl))))

issued_ann : issue checksums plain64 session_a (codes "ann") (pos 5000000000) ≡ ok token_ann
unfolding issue has_forbidden nat_eq
issued_ann = refl

verify-issue_example :
    verify checksums plain64 session_a token_ann (pos 9000000000) ≡ ok (codes "ann")
unfolding unix mesh_checker.Base.Int.floor_div ◌+ℤ◌
verify-issue_example =
    verify-issue checksums plain64 session_a (codes "ann") (pos 5000000000) (pos 9000000000)
      (omega arith) (omega arith) (omega arith) issued_ann

verified_ann : verify checksums plain64 session_a token_ann (pos 9000000000) ≡ ok (codes "ann")
unfolding verify unix mesh_checker.Base.Int.floor_div ◌+ℤ◌ mesh_checker.Ui.Session.split_colon
    text_eq nat_eq format_int parse_int
verified_ann = refl

verify_sound_example :
    (rest : Text) × (exp : ℤ) × (plain64.decode token_ann
      ≡ some (seal checksums plain64 session_a (codes "ann" ++ (b':' ∷ rest))))
    × Lacks b':' (codes "ann")
    × (parse_int rest ≡ some exp)
    × (unix (pos 9000000000) <ℤ exp)
verify_sound_example =
    verify_sound checksums plain64 session_a token_ann (pos 9000000000) verified_ann
