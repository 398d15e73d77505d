-- ===== src/Serve/Prepare.antt =====
-- internal/pkg/cli/serve.go, `runServe` up to the start of its goroutines: everything that is read,
-- checked and put together before the node listens.
pub mod Assembled
pub mod Urls
pub mod Mesh
pub mod Ready
use mesh_checker.Base.{
  ◌++◌, Bool, true, false, not, Option, none, some, List, [], ◌∷◌, Text, text_eq, codes, ◌==◌,
  if◌then◌else◌, Fallible, ok, err, ◌>>=◌,
}
use mesh_checker.Base.Int.{ℤ, pos, ◌*ℤ◌, wrap_int64}
use mesh_checker.Base.Dict
use mesh_checker.Base.Dict.{Dict}
use mesh_checker.Probe.{Duration, Protocol}
use mesh_checker.Probe.Tcp
use mesh_checker.Udp
use mesh_checker.Icmp
use mesh_checker.Config.{Config, Peer, User}
use mesh_checker.Config.Files.{Json, Disk, FileError, check_mode, load}
use mesh_checker.Config.Validate.{ConfigError, validate_with_warnings}
use mesh_checker.Store.{Store, new}
use mesh_checker.Scheduler.{Job, Scheduler, new_scheduler}
use mesh_checker.Aggregator.{Aggregator}
use mesh_checker.Ui.Session.{Session}
use mesh_checker.Echo.{UdpEcho, new_udp_echo}
use mesh_checker.Cli.Args.{config_flag, config_path}
use mesh_checker.Cli.Flags.{FlagError, parse_flags}
use mesh_checker.Serve.{must_probers, build_jobs, workers_for, peer_names, peer_names_list}

-- Packages crypto/tls, crypto/x509, encoding/base64 and net, as `runServe` calls them.
-- `load_key_pair` gives the key pair that two files hold, `leaf_common_name` the common name of its
-- first certificate, and `listen_udp` the error of opening the socket of the echo server.
pub record Platform (S : Type 0) : Type 1 where
  pub CaPool : Type 0
  pub KeyPair : Type 0
  pub certs_from_pem : Text → Option CaPool
  pub load_key_pair : S → Text → Text → Fallible Text KeyPair
  pub leaf_common_name : KeyPair → Fallible Text Text
  pub decode_std : Text → Option Text
  pub split_host_port : Text → Fallible Text (Text × Text)
  pub join_host_port : Text → Text → Text
  pub icmp_socket : Fallible Text Icmp.Prober
  pub listen_udp : Text → Option Text

pub data ServeError : Type 0 where
  bad_flags : FlagError → ServeError
  mode_refused load_failed : FileError → ServeError
  invalid : ConfigError → ServeError
  no_ca no_key_pair no_leaf bad_addr no_socket : Text → ServeError
  empty_ca bad_secret : ServeError
  other_common_name : Text → Text → ServeError

-- The probers, by protocol.
pub data AnyProber (CaPool : Type 0) : Type 0 where
  tcp_prober : Tcp.Prober → AnyProber CaPool
  https_prober : CaPool → Duration → AnyProber CaPool
  udp_prober : Udp.Prober.Prober → AnyProber CaPool
  icmp_prober : Icmp.Prober → AnyProber CaPool

-- `time.Duration(n) * time.Second`
abbrev pub seconds : ℤ → Duration
seconds n = wrap_int64 (n *ℤ pos 1000000000)

abbrev pub with_error : {A : Type 0} → (Text → ServeError) → Fallible Text A → Fallible ServeError A
with_error f (ok a) = ok a
with_error f (err e) = err (f e)

abbrev pub or_error : {A : Type 0} → ServeError → Option A → Fallible ServeError A
or_error e (some a) = ok a
or_error e none = err e

-- The calls whose only result is an error.
abbrev pub checked : {E : Type 0} → (E → ServeError) → Option E → Fallible ServeError (Unit {0})
checked f none = ok tt
checked f (some e) = err (f e)

unfoldable pub same_name : Text → Text → Fallible ServeError (Unit {0})
unfolding text_eq
same_name name cn = if not (cn == name) then err (other_common_name name cn) else ok tt

-- `peerURLs`
unfoldable pub add_urls : (Text → Text → Text) → Text → Dict Text Text → List Peer → Dict Text Text
add_urls join port urls [] = urls
add_urls join port urls (p ∷ peers) =
    add_urls join port (Dict.insert p.name (codes "https://" ++ join p.addr port) urls) peers

unfoldable pub peer_urls : (Text → Text → Text) → Text → Config → Dict Text Text
peer_urls join port c =
    add_urls join port
      (Dict.insert c.host.name (codes "https://" ++ join c.host.advertise_addr port) []) c.peers

-- `allowed` of the echo server.
unfoldable pub add_addrs : Dict Text Bool → List Peer → Dict Text Bool
add_addrs allowed [] = allowed
add_addrs allowed (p ∷ peers) = add_addrs (Dict.insert p.addr true allowed) peers

module _ (d : Disk) (json : Json) (p : Platform d.State) where
  -- What `runServe` has put together when it starts its goroutines; the servers are kept by what
  -- they are made from.
  pub record Plan : Type 0 where
    pub config : Config
    pub mesh_ca : p.CaPool
    pub host_cert : p.KeyPair
    pub scheduler : Scheduler (AnyProber p.CaPool)
    pub allowed_names : Dict Text Bool
    pub urls : Dict Text Text
    pub aggregator : Aggregator
    pub session : Session
    pub users : List User
    pub echo : UdpEcho

  -- `mustProbers`: without a raw socket there is no ICMP prober.
  unfoldable pub probers_for : p.CaPool → Text → Config → Dict Protocol (AnyProber p.CaPool)
  probers_for pool udp_secret c =
      let timeout = seconds c.probe.timeout_seconds in
      must_probers (tcp_prober (record { timeout = timeout })) (https_prober pool timeout)
        (udp_prober (record { secret = udp_secret; host_name = c.host.name; timeout = timeout }))
        (elim p.icmp_socket [ err _ ↦ none | ok q ↦ some (icmp_prober q) ])

  -- From the decoded secrets on.
  unfoldable pub assemble : Config → p.CaPool → p.KeyPair → Text → Text → Fallible ServeError Plan
  assemble c pool pair udp_secret session_secret = do
    let st = new c.probe.ringbuffer_size
    let jobs = build_jobs (probers_for pool udp_secret c) c
    (_, port) ← with_error bad_addr (p.split_host_port c.listeners.inter_host.addr)
    _ ← checked no_socket (p.listen_udp c.listeners.probe.udp_addr)
    ok (record {
      config = c;
      mesh_ca = pool;
      host_cert = pair;
      scheduler =
          new_scheduler
            (record {
              interval = seconds c.probe.interval_seconds;
              jitter_percent = c.probe.jitter_percent;
              workers = workers_for jobs;
              timeout = seconds c.probe.timeout_seconds;
            })
            jobs st;
      allowed_names = peer_names c;
      urls = peer_urls p.join_host_port port c;
      aggregator = record {
        store = st;
        local_host = c.host.name;
        peers = peer_names_list c.peers;
        window = c.probe.failure_window;
        threshold = c.probe.failure_threshold;
      };
      session = record { secret = session_secret; ttl = seconds c.ui.session_ttl_seconds };
      users = c.ui.users;
      echo = new_udp_echo udp_secret (add_addrs [] c.peers);
    })

  -- From the checked certificate on.
  unfoldable pub decode_secrets : Config → p.CaPool → p.KeyPair → Fallible ServeError Plan
  decode_secrets c pool pair = do
    udp_secret ← or_error bad_secret (p.decode_std c.probe.udp_shared_secret)
    session_secret ← or_error bad_secret (p.decode_std c.ui.session_secret)
    assemble c pool pair udp_secret session_secret

  -- The key pair, and the name in it.
  unfoldable pub check_pair : d.State → Config → p.CaPool → Fallible ServeError Plan
  check_pair s c pool = do
    pair ← with_error no_key_pair (p.load_key_pair s c.pki.host_cert_path c.pki.host_key_path)
    cn ← with_error no_leaf (p.leaf_common_name pair)
    _ ← same_name c.host.name cn
    decode_secrets c pool pair

  -- The CA, for a configuration that passed its checks.
  unfoldable pub prepare_config : d.State → Config → Fallible ServeError Plan
  prepare_config s c = do
    ca_pem ← with_error no_ca (d.read_file s c.pki.ca_cert_path)
    pool ← or_error empty_ca (p.certs_from_pem ca_pem)
    check_pair s c pool

  abbrev pub loaded : Fallible FileError Config → Fallible ServeError Config
  loaded (ok c) = ok c
  loaded (err e) = err (load_failed e)

  -- The file, its mode first.
  unfoldable pub prepare : d.State → Text → Fallible ServeError Plan
  prepare s path = do
    _ ← checked mode_refused (check_mode d s path)
    c ← loaded (load d json s path)
    _ ← checked invalid (validate_with_warnings p.decode_std c).1
    prepare_config s c

  -- From the arguments; those behind the flags are ignored.
  unfoldable pub prepare_args : d.State → List Text → Fallible ServeError Plan
  prepare_args s args = elim (parse_flags (config_flag ∷ []) args) [
    | err e ↦ err (bad_flags e)
    | ok (flags, rest) ↦ prepare s (config_path flags)
  ]
