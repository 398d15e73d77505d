-- ===== src/Cli/Pki.antt =====
-- internal/pkg/cli/pki.go: `pki init` and `pki cert`. `parse_duration` is `time.ParseDuration`. What
-- package flag prints is not modelled.
pub mod Pair
pub mod Written
use mesh_checker.Base.{
  ℕ, ◌≡◌, ◌≢◌, ◌++◌, Bool, ◌||◌, Option, none, some, List, [], ◌∷◌, Text, text_eq, codes, ◌==◌,
  if◌then◌else◌, Fallible, ok, err, ◌>>=◌,
}
use mesh_checker.Base.Int.{pos}
use mesh_checker.Probe.{Time, Duration}
use mesh_checker.Pki.{
  Crypto, PkiError, Material, Random, generate_ca, generate_host_cert, encode, decode,
}
use mesh_checker.Cli.Args.{split_name}
use mesh_checker.Cli.Files.{Files}
use mesh_checker.Cli.Flags.{parse_flags, last_value, all_values}

pub data CommandError : Type 0 where
  bad_flags missing_subcommand missing_paths no_host_name extra_arguments : CommandError
  unknown_subcommand : Text → CommandError
  pki_error : PkiError → CommandError
  read_failed write_failed : Text → CommandError

-- 0o644 and 0o600
abbrev pub cert_mode : ℕ
cert_mode = 420

abbrev pub key_mode : ℕ
key_mode = 384

-- The flag names, and the default durations in nanoseconds: ten years and one.
abbrev pub init_flags : List Text
init_flags = codes "ca-cert" ∷ codes "ca-key" ∷ codes "cn" ∷ codes "lifetime" ∷ []

abbrev pub cert_flags : List Text
cert_flags =
    codes "ca-cert"
    ∷ codes "ca-key"
    ∷ codes "out-cert"
    ∷ codes "out-key"
    ∷ codes "san"
    ∷ codes "lifetime"
    ∷ []

abbrev pub ca_lifetime : Duration
ca_lifetime = pos 315360000000000000

abbrev pub host_lifetime : Duration
host_lifetime = pos 31536000000000000

module _ (d : Files) where
  -- What is left: the files, and the error.
  abbrev pub Done : Type 0
  Done = d.State × Option CommandError

  -- From the write on: its mode is that of a file that is new, so the mode is set once more.
  abbrev pub set_mode : Text → ℕ → d.State × Option Text → d.State × Option Text
  set_mode path perm (s, none) = d.chmod s path perm
  set_mode path perm (s, some e) = (s, some e)

  unfoldable pub write_strict : d.State → Text → Text → ℕ → d.State × Option Text
  write_strict s path bytes perm = set_mode path perm (d.write_file s path bytes perm)

  abbrev pub written : d.State × Option Text → Done
  written (s, none) = (s, none)
  written (s, some e) = (s, some (write_failed e))

  -- The key after the certificate, if that was written.
  abbrev pub then_key : Text → Text → d.State × Option Text → Done
  then_key key_path key_pem (s, none) = written (write_strict s key_path key_pem key_mode)
  then_key key_path key_pem (s, some e) = (s, some (write_failed e))

  -- The end of both commands. The line on stdout is not modelled.
  unfoldable pub write_pair : d.State → Text → Text → Text × Text → Done
  write_pair s cert_path key_path pems =
      then_key key_path pems.1 (write_strict s cert_path pems.0 cert_mode)

module _ (parse_duration : Text → Option Duration) where
  -- The value of a duration flag after parsing; one that is none is an error.
  unfoldable pub lifetime_value : Duration → List (Text × Text) → Option Duration
  unfolding text_eq
  lifetime_value v [] = some v
  lifetime_value v ((n, s) ∷ flags) =
      elim (if n == codes "lifetime" then parse_duration s else some v) [
        | none ↦ none
        | some w ↦ lifetime_value w flags
      ]

  -- `fs.Parse(args)`
  abbrev pub parse_with :
      List Text
      → Duration
      → List Text
      → Fallible CommandError (List (Text × Text) × Duration × List Text)
  parse_with known default args = elim (parse_flags known args) [
    | err _ ↦ err bad_flags
    | ok (flags, rest) ↦ elim (lifetime_value default flags) [
      | none ↦ err bad_flags
      | some l ↦ ok (flags, l, rest)
    ]
  ]

abbrev pub as_pki : {A : Type 0} → Fallible PkiError A → Fallible CommandError A
as_pki (ok a) = ok a
as_pki (err e) = err (pki_error e)

abbrev pub as_read : Fallible Text Text → Fallible CommandError Text
as_read (ok b) = ok b
as_read (err e) = err (read_failed e)

abbrev pub given : Text → Text → Fallible CommandError (Unit {0})
given a b = if a == [] || b == [] then err missing_paths else ok tt

-- The arguments of `pki init`: where the certificate and the key go, the common name and the
-- lifetime. Arguments behind the flags are ignored.
pub record InitArgs : Type 0 where
  pub ca_cert : Text
  pub ca_key : Text
  pub common_name : Text
  pub lifetime : Duration

unfoldable pub init_args : (Text → Option Duration) → List Text → Fallible CommandError InitArgs
unfolding text_eq
init_args parse_duration args = do
  (flags, lifetime, rest) ← parse_with parse_duration init_flags ca_lifetime args
  let ca_cert = last_value (codes "ca-cert") [] flags
  let ca_key = last_value (codes "ca-key") [] flags
  _ ← given ca_cert ca_key
  ok (record {
    ca_cert = ca_cert;
    ca_key = ca_key;
    common_name = last_value (codes "cn") (codes "mesh-checker CA") flags;
    lifetime = lifetime;
  })

-- The host name stands in front of the flags or behind them.
abbrev pub host_name_of : Text → List Text → Fallible CommandError Text
host_name_of [] (n ∷ []) = ok n
host_name_of [] rest = err no_host_name
host_name_of (c ∷ s) [] = ok (c ∷ s)
host_name_of (c ∷ s) (n ∷ rest) = err extra_arguments

-- The arguments of `pki cert`.
pub record CertArgs : Type 0 where
  pub host_name : Text
  pub ca_cert : Text
  pub ca_key : Text
  pub out_cert : Text
  pub out_key : Text
  pub sans : List Text
  pub lifetime : Duration

unfoldable pub cert_args : (Text → Option Duration) → List Text → Fallible CommandError CertArgs
unfolding text_eq
cert_args parse_duration args = do
  let (front_name, flag_args) = split_name args
  (flags, lifetime, rest) ← parse_with parse_duration cert_flags host_lifetime flag_args
  host_name ← host_name_of front_name rest
  let ca_cert = last_value (codes "ca-cert") [] flags
  let ca_key = last_value (codes "ca-key") [] flags
  let out_cert = last_value (codes "out-cert") [] flags
  let out_key = last_value (codes "out-key") [] flags
  _ ← given ca_cert ca_key
  _ ← given out_cert out_key
  ok (record {
    host_name = host_name;
    ca_cert = ca_cert;
    ca_key = ca_key;
    out_cert = out_cert;
    out_key = out_key;
    sans = all_values (codes "san") flags;
    lifetime = lifetime;
  })

module _ (x : Crypto) where
  -- From the flags of `pki init` to the two PEM texts.
  unfoldable pub make_ca : Random x → Time → Time → InitArgs → Fallible CommandError (Text × Text)
  make_ca r now later a = do
    ca ← as_pki (generate_ca x r now later a.common_name a.lifetime)
    as_pki (encode x ca)

  -- The same of `pki cert`, for the two texts of the CA.
  unfoldable pub make_host :
      Random x → Time → Time → CertArgs → Text → Text → Fallible CommandError (Text × Text)
  make_host r now later a ca_cert_pem ca_key_pem = do
    ca ← as_pki (decode x ca_cert_pem (some ca_key_pem))
    host ← as_pki (generate_host_cert x r now later (some ca) a.host_name a.sans a.lifetime)
    as_pki (encode x host)

  unfoldable pub read_and_make :
      (d : Files)
      → d.State
      → Random x
      → Time
      → Time
      → CertArgs
      → Fallible CommandError (Text × Text)
  read_and_make d s r now later a = do
    ca_cert_pem ← as_read (d.read_file s a.ca_cert)
    ca_key_pem ← as_read (d.read_file s a.ca_key)
    make_host r now later a ca_cert_pem ca_key_pem

  module _ (d : Files) (parse_duration : Text → Option Duration) where
    unfoldable pub run_pki_init : d.State → Random x → Time → Time → List Text → Done d
    run_pki_init s r now later args = elim (init_args parse_duration args) [
      | err e ↦ (s, some e)
      | ok a ↦ elim (make_ca r now later a) [
        | err e ↦ (s, some e)
        | ok pems ↦ write_pair d s a.ca_cert a.ca_key pems
      ]
    ]

    unfoldable pub run_pki_cert : d.State → Random x → Time → Time → List Text → Done d
    run_pki_cert s r now later args = elim (cert_args parse_duration args) [
      | err e ↦ (s, some e)
      | ok a ↦ elim (read_and_make d s r now later a) [
        | err e ↦ (s, some e)
        | ok pems ↦ write_pair d s a.out_cert a.out_key pems
      ]
    ]

    unfoldable pub run_pki : d.State → Random x → Time → Time → List Text → Done d
    unfolding text_eq
    run_pki s r now later [] = (s, some missing_subcommand)
    run_pki s r now later (sub ∷ args) =
        if sub == codes "init"
        then run_pki_init s r now later args
        else if sub == codes "cert"
        then run_pki_cert s r now later args
        else (s, some (unknown_subcommand sub))
