-- ===== src/Cli/ConfigCommand.antt =====
-- internal/pkg/cli/config_cmd.go: `config validate`; and the skeleton of a configuration and the
-- strict save of internal/pkg/cli/configio.go.
pub mod Agreement
use mesh_checker.Base.{
  ◌++◌, Option, none, some, List, [], ◌∷◌, Text, text_eq, codes, ◌==◌, if◌then◌else◌, Fallible, ok,
  err, map,
}
use mesh_checker.Base.Int.{ℤ, pos}
use mesh_checker.Decimal.{format_int}
use mesh_checker.Config.{Config}
use mesh_checker.Config.Files.{Json, Disk, FileError, load, save, strict_mode}
use mesh_checker.Config.Validate.{ConfigError, Warning, validate_with_warnings}
use mesh_checker.Cli.Args.{config_flag, config_path}
use mesh_checker.Cli.Flags.{FlagError, parse_flags}

pub data CheckError : Type 0 where
  bad_flags : FlagError → CheckError
  not_loaded : FileError → CheckError
  invalid : ConfigError → CheckError
  missing_subcommand : CheckError
  unknown_subcommand : Text → CheckError

-- The warnings on stderr, the lines on stdout, and the error.
pub record Report : Type 0 where
  pub warnings : List Warning
  pub out : List Text
  pub error : Option CheckError

abbrev pub refused : CheckError → Report
refused e = record { warnings = []; out = []; error = some e }

abbrev pub report_of : List Warning × Option ConfigError → Report
report_of (w, none) = record { warnings = w; out = codes "OK" ∷ []; error = none }
report_of (w, some e) = record { warnings = w; out = []; error = some (invalid e) }

-- `decode` is `base64.StdEncoding.DecodeString`.
module _ (d : Disk) (json : Json) (decode : Text → Option Text) where
  abbrev pub report_on : Fallible FileError Config → Report
  report_on (err e) = refused (not_loaded e)
  report_on (ok c) = report_of (validate_with_warnings decode c)

  -- Arguments behind the flags are ignored.
  unfoldable pub run_config_validate : d.State → List Text → Report
  run_config_validate s args = elim (parse_flags (config_flag ∷ []) args) [
    | err e ↦ refused (bad_flags e)
    | ok (flags, rest) ↦ report_on (load d json s (config_path flags))
  ]

  unfoldable pub run_config : d.State → List Text → Report
  unfolding text_eq
  run_config s [] = refused missing_subcommand
  run_config s (sub ∷ args) =
      if sub == codes "validate"
      then run_config_validate s args
      else refused (unknown_subcommand sub)

-- 32 bytes, from 0 on.
abbrev pub skeleton_secret : Text
skeleton_secret = codes "AAECAwQFBgcICQoLDA0ODxAREhMUFRYXGBkaGxwdHh8="

abbrev pub local_addr : ℤ → Text
local_addr port = codes "127.0.0.1:" ++ format_int port

-- `newConfigSkeleton`
unfoldable pub new_config_skeleton : Text → Text → Text → Text → Text → ℤ → ℤ → ℤ → ℤ → Config
new_config_skeleton host_name addr ca_cert host_cert host_key ih_port ui_port probe_http probe_udp =
    record {
      version = pos 1;
      host = record { name = host_name; advertise_addr = addr };
      pki = record {
        ca_cert_path = ca_cert;
        ca_key_path = [];
        host_cert_path = host_cert;
        host_key_path = host_key;
      };
      listeners = record {
        inter_host = record { addr = local_addr ih_port };
        ui = record { addr = local_addr ui_port };
        probe = record { http_addr = local_addr probe_http; udp_addr = local_addr probe_udp };
      };
      probe = record {
        interval_seconds = pos 10;
        jitter_percent = pos 10;
        timeout_seconds = pos 3;
        failure_window = pos 5;
        failure_threshold = pos 3;
        ringbuffer_size = pos 100;
        udp_shared_secret = skeleton_secret;
      };
      peers = [];
      ui = record { users = []; session_secret = skeleton_secret; session_ttl_seconds = pos 3600 };
      log = record { level = codes "info" };
    }
