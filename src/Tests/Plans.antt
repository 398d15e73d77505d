-- ===== src/Tests/Plans.antt =====
-- The theorems on `pki init` and `pki cert`, at concrete inputs.
use mesh_checker.Base.{
  ℕ, ◌≡◌, ◌≢◌, refl, false, Option, none, some, List, [], ◌∷◌, Text, text_eq, nat_eq, codes, ◌==◌,
  Fallible, ok, err, arith,
}
use mesh_checker.Base.Int.{pos}
use mesh_checker.Base.Dict
use mesh_checker.Base.Dict.{Dict}
use mesh_checker.Probe.{Duration}
use mesh_checker.Pki.{Random, Material, decode, encode, generate_ca, certify, new_serial}
use mesh_checker.Pki.RoundTrip.{SignsOthers}
use mesh_checker.Cli.Files.{Files, IsFiles}
use mesh_checker.Cli.Flags.{classify_arg, parse_flags, last_value}
use mesh_checker.Cli.Pki.{
  InitArgs, CertArgs, init_args, run_pki_init, lifetime_value, write_pair, write_strict, make_ca,
}
use mesh_checker.Cli.Pki.Pair.{HoldsPair}
use mesh_checker.Cli.Pki.Written.{SelfSigned, run_pki_init-HoldsPair}
use mesh_checker.Tests.Issued.{plain_crypto, plain_crypto-IsCrypto}

-- Files as two maps.
pub record Held : Type 0 where
  pub contents : Dict Text Text
  pub modes : Dict Text ℕ

abbrev read_held : Option Text → Fallible Text Text
read_held none = err (codes "no such file")
read_held (some b) = ok b

abbrev held_files : Files
held_files = record {
  State = Held;
  content = λ s path. Dict.lookup path s.contents;
  mode = λ s path. Dict.lookup path s.modes;
  read_file = λ s path. read_held (Dict.lookup path s.contents);
  write_file = λ s path b perm. (
    record { contents = Dict.insert path b s.contents; modes = Dict.insert path perm s.modes },
    none,
  );
  chmod = λ s path perm. (record s { modes = Dict.insert path perm s.modes }, none);
}

read_held_lem : (o : Option Text) {b : Text} → read_held o ≡ ok b → o ≡ some b
read_held_lem none h = cc
read_held_lem (some c) h = ground arith

held_files-IsFiles : IsFiles held_files
held_files-IsFiles = record {
  read_content = λ s path h. read_held_lem (Dict.lookup path s.contents) h;
  write_done = λ s path b perm h. ground (arith, Dict.lookup-insert path path b s.contents);
  write_other = λ s path b other perm n. ground (arith, Dict.lookup-insert other path b s.contents);
  write_other_mode =
      λ s path b other perm n. ground (arith, Dict.lookup-insert other path perm s.modes);
  chmod_done = λ s path perm h. ground (arith, Dict.lookup-insert path path perm s.modes);
  chmod_content = λ s path other perm. refl;
  chmod_other = λ s path other perm n. ground (arith, Dict.lookup-insert other path perm s.modes);
}

abbrev nothing : Held
nothing = record { contents = []; modes = [] }

abbrev random : Random plain_crypto
random = record { generate_key = ok (3, 4); int_below = λ n. ok 17 }

abbrev no_duration : Text → Option Duration
no_duration s = none

abbrev init_words : List Text
init_words = codes "--ca-cert=ca.pem" ∷ codes "--ca-key" ∷ codes "ca.key" ∷ []

abbrev init_a : InitArgs
init_a = record {
  ca_cert = codes "ca.pem";
  ca_key = codes "ca.key";
  common_name = codes "mesh-checker CA";
  lifetime = pos 315360000000000000;
}

abbrev after_init : Held
after_init =
    (run_pki_init plain_crypto held_files no_duration nothing random (pos 5) (pos 6) init_words).0

apart : (a b : Text) → (a == b) ≡ false → a ≢ b
apart a b h e = ground (arith, h, e)

run_pki_init-HoldsPair_example :
    (pems : Text × Text) × (ca : Material plain_crypto) × SignsOthers plain_crypto
      (codes "mesh-checker CA")
      ca.cert
    × SelfSigned plain_crypto ca
    × (decode plain_crypto pems.0 (some pems.1) ≡ ok ca)
    × HoldsPair held_files after_init (codes "ca.pem") (codes "ca.key") pems
unfolding init_args classify_arg parse_flags last_value lifetime_value nat_eq text_eq run_pki_init
    write_pair write_strict make_ca generate_ca certify new_serial encode
run_pki_init-HoldsPair_example =
    run_pki_init-HoldsPair plain_crypto held_files no_duration held_files-IsFiles
      plain_crypto-IsCrypto nothing random (pos 5) (pos 6) init_words init_a refl
      (apart (codes "ca.pem") (codes "ca.key") refl) refl

abbrev cert_words : List Text
cert_words =
    codes "b"
    ∷ codes "--ca-cert=ca.pem"
    ∷ codes "--ca-key=ca.key"
    ∷ codes "--out-cert=b.pem"
    ∷ codes "--out-key=b.key"
    ∷ codes "--san=10.0.0.2"
    ∷ codes "--san=b.lan"
    ∷ []

abbrev cert_b : CertArgs
cert_b = record {
  host_name = codes "b";
  ca_cert = codes "ca.pem";
  ca_key = codes "ca.key";
  out_cert = codes "b.pem";
  out_key = codes "b.key";
  sans = codes "10.0.0.2" ∷ codes "b.lan" ∷ [];
  lifetime = pos 31536000000000000;
}
