-- ===== src/Tests/Instances.antt =====
-- Concrete instances of the code, the encoding, the files and the JSON, and a configuration.
use mesh_checker.Base.{
  ℕ, sym, subst, ◌∙◌, ◌+◌, ◌%◌, ◌≡◌, ◌<◌, zero, suc, refl, ap, Option, none, some, List, [], ◌∷◌,
  Text, text_eq, codes, length-replicate, replicate, All, Fallible, ok, err, arith, append-nil,
}
use mesh_checker.Base.Int.{ℤ}
use mesh_checker.Base.Dict
use mesh_checker.Base.Dict.{Dict}
use mesh_checker.Udp.Mac.{MacScheme}
use mesh_checker.Ui.Base64.{Base64}
use mesh_checker.Config.{
  Config, Peer, User, HostInfo, PkiPaths, ListenerAddr, ProbeListener, Listeners, ProbeSettings, Ui,
  Log,
}
use mesh_checker.Config.Files.{Json, Disk, IsDisk}
use mesh_checker.Tests.Codec.{Codec, text_codec, int_codec, list_codec, pair_codec, as_codec, whole}

abbrev pub sum : Text → ℕ
sum [] = 0
sum (c ∷ s) = c + sum s

All-replicate : (n b : ℕ) → b < 256 → All (λ x. x < 256) (replicate n b)
All-replicate zero b h = tt
All-replicate (suc n) b h = (h, All-replicate n b h)

-- A checksum in place of the code.
abbrev pub checksum : Text → Text → Text
checksum secret message = replicate 32 ((sum secret + sum message) % 256)

pub checksum-bytes : (secret message : Text) → All (λ x. x < 256) (checksum secret message)
checksum-bytes secret message = All-replicate 32 ((sum secret + sum message) % 256) (omega arith)

abbrev pub checksums : MacScheme
checksums = record {
  mac = checksum;
  length-mac = λ secret message. length-replicate 32 ((sum secret + sum message) % 256);
  bytes-mac = checksum-bytes;
}

abbrev pub plain64 : Base64
plain64 = record { encode = λ b. b; decode = λ b. some b; decode-encode = λ b h. refl }

-- Files as a map from paths to contents.
abbrev pub read_map : Option Text → Fallible Text Text
read_map none = err (codes "no such file")
read_map (some b) = ok b

abbrev pub rename_map : Dict Text Text → Text → Text → Option Text → Dict Text Text × Option Text
rename_map s from to none = (s, some (codes "no such file"))
rename_map s from to (some b) = (Dict.insert to b (Dict.delete from s), none)

abbrev pub map_disk : Disk
map_disk = record {
  State = Dict Text Text;
  content = λ s path. Dict.lookup path s;
  mode = λ s path. some 384;
  read_file = λ s path. read_map (Dict.lookup path s);
  write_file = λ s path b. (Dict.insert path b s, none);
  rename = λ s from to. rename_map s from to (Dict.lookup from s);
  remove = λ s path. Dict.delete path s;
  stat_mode = λ s path. ok 384;
}

read_map_lem : (o : Option Text) {b : Text} → read_map o ≡ ok b → o ≡ some b
read_map_lem none h = cc
read_map_lem (some c) h = ground arith

rename_map-done :
    (s : Dict Text Text) (from to : Text) (o : Option Text)
    → (rename_map s from to o).1 ≡ none
    → Dict.lookup to (rename_map s from to o).0 ≡ o
rename_map-done s from to none h = cc
rename_map-done s from to (some b) h =
    ground (arith, Dict.lookup-insert to to b (Dict.delete from s))

rename_map-failed :
    (s : Dict Text Text) (from to : Text) (o : Option Text) {e : Text}
    → (rename_map s from to o).1 ≡ some e
    → Dict.lookup to (rename_map s from to o).0 ≡ Dict.lookup to s
rename_map-failed s from to none h = refl
rename_map-failed s from to (some b) h = cc

pub map_disk-IsDisk : IsDisk map_disk
map_disk-IsDisk = record {
  read_content = λ s path h. read_map_lem (Dict.lookup path s) h;
  write_done = λ s path b h. ground (arith, Dict.lookup-insert path path b s);
  write_other = λ s path b other n. ground (arith, Dict.lookup-insert other path b s);
  rename_done = λ s from to h. rename_map-done s from to (Dict.lookup from s) h;
  rename_failed = λ s from to h. rename_map-failed s from to (Dict.lookup from s) h;
  remove_other = λ s path other n. ground (arith, Dict.lookup-delete other path s);
}

abbrev pub to_peer : Text × (Text × ((List Text) × (ℤ × (ℤ × Text)))) → Peer
to_peer (x0, (x1, (x2, (x3, (x4, x5))))) = record {
  name = x0;
  addr = x1;
  checks = x2;
  tcp_port = x3;
  udp_port = x4;
  https_url = x5;
}

abbrev pub peer_codec : Codec Peer
peer_codec =
    as_codec
      (pair_codec text_codec (
        pair_codec text_codec (
          pair_codec (list_codec text_codec)
            (pair_codec int_codec (pair_codec int_codec text_codec)))))
      to_peer (λ r. (r.name, (r.addr, (r.checks, (r.tcp_port, (r.udp_port, r.https_url))))))
      (λ r. refl)

abbrev pub to_user : Text × Text → User
to_user (x0, x1) = record { name = x0; password_hash = x1 }

abbrev pub user_codec : Codec User
user_codec =
    as_codec (pair_codec text_codec text_codec) to_user (λ r. (r.name, r.password_hash)) (λ r. refl)

abbrev pub to_host : Text × Text → HostInfo
to_host (x0, x1) = record { name = x0; advertise_addr = x1 }

abbrev pub host_codec : Codec HostInfo
host_codec =
    as_codec (pair_codec text_codec text_codec) to_host (λ r. (r.name, r.advertise_addr))
      (λ r. refl)

abbrev pub to_pki : Text × (Text × (Text × Text)) → PkiPaths
to_pki (x0, (x1, (x2, x3))) = record {
  ca_cert_path = x0;
  ca_key_path = x1;
  host_cert_path = x2;
  host_key_path = x3;
}

abbrev pub pki_codec : Codec PkiPaths
pki_codec =
    as_codec (pair_codec text_codec (pair_codec text_codec (pair_codec text_codec text_codec)))
      to_pki (λ r. (r.ca_cert_path, (r.ca_key_path, (r.host_cert_path, r.host_key_path))))
      (λ r. refl)

abbrev pub to_addr : Text → ListenerAddr
to_addr x0 = record { addr = x0 }

abbrev pub addr_codec : Codec ListenerAddr
addr_codec = as_codec text_codec to_addr (λ r. r.addr) (λ r. refl)

abbrev pub to_probe_listener : Text × Text → ProbeListener
to_probe_listener (x0, x1) = record { http_addr = x0; udp_addr = x1 }

abbrev pub probe_listener_codec : Codec ProbeListener
probe_listener_codec =
    as_codec (pair_codec text_codec text_codec) to_probe_listener (λ r. (r.http_addr, r.udp_addr))
      (λ r. refl)

abbrev pub to_listeners : ListenerAddr × (ListenerAddr × ProbeListener) → Listeners
to_listeners (x0, (x1, x2)) = record { inter_host = x0; ui = x1; probe = x2 }

abbrev pub listeners_codec : Codec Listeners
listeners_codec =
    as_codec (pair_codec addr_codec (pair_codec addr_codec probe_listener_codec)) to_listeners
      (λ r. (r.inter_host, (r.ui, r.probe))) (λ r. refl)

abbrev pub to_settings : ℤ × (ℤ × (ℤ × (ℤ × (ℤ × (ℤ × Text))))) → ProbeSettings
to_settings (x0, (x1, (x2, (x3, (x4, (x5, x6)))))) = record {
  interval_seconds = x0;
  jitter_percent = x1;
  timeout_seconds = x2;
  failure_window = x3;
  failure_threshold = x4;
  ringbuffer_size = x5;
  udp_shared_secret = x6;
}

abbrev pub settings_codec : Codec ProbeSettings
settings_codec =
    as_codec
      (pair_codec int_codec (
        pair_codec int_codec (
          pair_codec int_codec
            (pair_codec int_codec (pair_codec int_codec (pair_codec int_codec text_codec))))))
      to_settings
      (λ r. (
        r.interval_seconds,
        (
          r.jitter_percent,
          (
            r.timeout_seconds,
            (r.failure_window, (r.failure_threshold, (r.ringbuffer_size, r.udp_shared_secret))),
          ),
        ),
      ))
      (λ r. refl)

abbrev pub to_ui : (List User) × (Text × ℤ) → Ui
to_ui (x0, (x1, x2)) = record { users = x0; session_secret = x1; session_ttl_seconds = x2 }

abbrev pub ui_codec : Codec Ui
ui_codec =
    as_codec (pair_codec (list_codec user_codec) (pair_codec text_codec int_codec)) to_ui
      (λ r. (r.users, (r.session_secret, r.session_ttl_seconds))) (λ r. refl)

abbrev pub to_log : Text → Log
to_log x0 = record { level = x0 }

abbrev pub log_codec : Codec Log
log_codec = as_codec text_codec to_log (λ r. r.level) (λ r. refl)

abbrev pub to_config :
    ℤ × (HostInfo × (PkiPaths × (Listeners × (ProbeSettings × ((List Peer) × (Ui × Log))))))
    → Config
to_config (x0, (x1, (x2, (x3, (x4, (x5, (x6, x7))))))) = record {
  version = x0;
  host = x1;
  pki = x2;
  listeners = x3;
  probe = x4;
  peers = x5;
  ui = x6;
  log = x7;
}

abbrev pub config_codec : Codec Config
config_codec =
    as_codec
      (pair_codec int_codec (
        pair_codec host_codec (
          pair_codec pki_codec (
            pair_codec listeners_codec (
              pair_codec settings_codec
                (pair_codec (list_codec peer_codec) (pair_codec ui_codec log_codec)))))))
      to_config
      (λ r. (r.version, (r.host, (r.pki, (r.listeners, (r.probe, (r.peers, (r.ui, r.log))))))))
      (λ r. refl)

pub whole-put : {A : Type 0} (a : Codec A) (x : A) → whole (a.get (a.put x)) ≡ ok x
whole-put a x = ap whole (ap a.get (sym (append-nil (a.put x))) ∙ a.get-put x [])

put_same : {a b : Text} → Path (Fallible Text Text) (ok a) (ok b) → a ≡ b
put_same h = ground arith

pub unmarshal-marshal_lem :
    (c : Config) {b : Text}
    → Path (Fallible Text Text) (ok (config_codec.put c)) (ok b)
    → whole (config_codec.get b) ≡ ok c
unmarshal-marshal_lem c h =
    subst (λ x. whole (config_codec.get x) ≡ ok c) (put_same h) (whole-put config_codec c)

abbrev pub plain_json : Json
plain_json = record {
  marshal = λ c. ok (config_codec.put c);
  unmarshal = λ b. whole (config_codec.get b);
  unmarshal-marshal = unmarshal-marshal_lem;
}
