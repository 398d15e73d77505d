-- ===== src/Serve/Prepare/Ready.antt =====
-- What holds of a node that starts to listen.
use mesh_checker.Base.{
  ◌≡◌, ◌||◌, nat_eq, sym, subst, ap, ◌∙◌, ◌*◌, Bool-cases, none, some, [], Text, text_eq, ◌==◌,
  length, ok, arith, Fallible-cases, Option-cases, inl, inr, ==→eq,
}
use mesh_checker.Base.Int.{pos, ◌≤ℤ◌}
use mesh_checker.Base.Dict
use mesh_checker.Base.Dict.{contains, some_injective}
use mesh_checker.Config.{Config}
use mesh_checker.Config.Files.{Json, Disk, check_mode, load}
use mesh_checker.Config.Validate.{validate, validate_with_warnings}
use mesh_checker.Config.Validate.Laws.{names, IsSecret, IsSound, validate-IsSound}
use mesh_checker.Interhost.{is_allowed}
use mesh_checker.Interhost.Exchange.{is_allowed-peer_names}
use mesh_checker.Serve.Prepare.Urls.{url_by_name, peer_urls-url_by_name}
use mesh_checker.Serve.{peer_names}
use mesh_checker.Serve.Prepare.{
  peer_urls, Platform, Plan, same_name, add_addrs, decode_secrets, check_pair, prepare_config,
  prepare,
}
use mesh_checker.Serve.Prepare.Assembled.{
  addrs, is_allowed-add_addrs, Assembled, assemble-Assembled,
}

module _ (d : Disk) (json : Json) (p : Platform d.State) where
  -- The checks that a plan has behind it, for the file and the two decoded secrets.
  pub record IsReady (s : d.State) (path : Text) (plan : Plan d json p) : Type 0 where
    pub strict : d.stat_mode s path ≡ ok 384
    pub read : load d json s path ≡ ok plan.config
    pub sound : IsSound p.decode_std plan.config
    pub own_name : p.leaf_common_name plan.host_cert ≡ ok plan.config.host.name
    pub echo_secret : p.decode_std plan.config.probe.udp_shared_secret ≡ some plan.echo.secret
    pub session_secret : p.decode_std plan.config.ui.session_secret ≡ some plan.session.secret
    pub echo_length : length plan.echo.secret ≡ 32
    pub session_length : length plan.session.secret ≡ 32
    pub echo_allowed :
        (a : Text) → is_allowed plan.echo.allowed a ≡ contains a (addrs plan.config.peers)
    pub host_part : Text
    pub port : Text
    pub addr_split : p.split_host_port plan.config.listeners.inter_host.addr ≡ ok (host_part, port)
    pub urls :
        (n : Text) → Dict.lookup n plan.urls ≡ url_by_name p.join_host_port port plan.config n
    pub allowed_names :
        (n : Text)
        → is_allowed plan.allowed_names n
          ≡ (n == plan.config.host.name || contains n (names plan.config.peers))
    pub workers_low : pos 4 ≤ℤ plan.scheduler.cfg.workers
    pub workers_jobs : pos (2 * length plan.scheduler.jobs) ≤ℤ plan.scheduler.cfg.workers

  -- The key material that a plan was made from.
  pub record Prepared (s : d.State) (c : Config) (plan : Plan d json p) : Type 0 where
    pub pair : p.KeyPair
    pub udp_secret : Text
    pub session_secret : Text
    pub own_name : p.leaf_common_name pair ≡ ok c.host.name
    pub udp_decoded : p.decode_std c.probe.udp_shared_secret ≡ some udp_secret
    pub session_decoded : p.decode_std c.ui.session_secret ≡ some session_secret
    pub assembled : Assembled d json p c pair udp_secret session_secret plan

  secrets-Prepared :
      (s : d.State) (c : Config) (pool : p.CaPool) (pair : p.KeyPair) {plan : Plan d json p}
      → p.leaf_common_name pair ≡ ok c.host.name
      → decode_secrets d json p c pool pair ≡ ok plan
      → Prepared s c plan
  unfolding decode_secrets
  secrets-Prepared s c pool pair own h =
      elim (Option-cases (p.decode_std c.probe.udp_shared_secret)) [
        | inl q ↦ absurd (ground (arith, q))
        | inr (udp_secret, q) ↦ elim (Option-cases (p.decode_std c.ui.session_secret)) [
          | inl r ↦ absurd (ground (arith, q, r))
          | inr (session_secret, r) ↦ record {
            pair = pair;
            udp_secret = udp_secret;
            session_secret = session_secret;
            own_name = own;
            udp_decoded = q;
            session_decoded = r;
            assembled =
                assemble-Assembled d json p c pool pair udp_secret session_secret
                  (rw (decode_secrets, q, r) at h);
          }
        ]
      ]

  same_name-eq : (name cn : Text) {u : Unit {0}} → same_name name cn ≡ ok u → cn ≡ name
  unfolding same_name
  same_name-eq name cn h = elim (Bool-cases (cn == name)) [
    | inl e ↦ ==→eq cn name e
    | inr e ↦ absurd (ground (arith, e))
  ]

  check_pair-Prepared :
      (s : d.State) (c : Config) (pool : p.CaPool) {plan : Plan d json p}
      → check_pair d json p s c pool ≡ ok plan
      → Prepared s c plan
  unfolding check_pair
  check_pair-Prepared s c pool h =
      elim (Fallible-cases (p.load_key_pair s c.pki.host_cert_path c.pki.host_key_path)) [
        | inl (e, q) ↦ absurd (ground (arith, q))
        | inr (pair, q) ↦ elim (Fallible-cases (p.leaf_common_name pair)) [
          | inl (e, r) ↦ absurd (ground (arith, q, r))
          | inr (cn, r) ↦ elim (Fallible-cases (same_name c.host.name cn)) [
            | inl (e, t) ↦ absurd (ground (arith, q, r, t))
            | inr (_, t) ↦
                secrets-Prepared s c pool pair (r ∙ ap ok (same_name-eq c.host.name cn t))
                  (rw (check_pair, q, r, t) at h)
          ]
        ]
      ]

  prepare_config-Prepared :
      (s : d.State) (c : Config) {plan : Plan d json p}
      → prepare_config d json p s c ≡ ok plan
      → Prepared s c plan
  unfolding prepare_config
  prepare_config-Prepared s c h = elim (Fallible-cases (d.read_file s c.pki.ca_cert_path)) [
    | inl (e, q) ↦ absurd (ground (arith, q))
    | inr (ca_pem, q) ↦ elim (Option-cases (p.certs_from_pem ca_pem)) [
      | inl r ↦ absurd (ground (arith, q, r))
      | inr (pool, r) ↦ check_pair-Prepared s c pool (rw (prepare_config, q, r) at h)
    ]
  ]

  prepare-prepare_config :
      (s : d.State) (path : Text) {plan : Plan d json p}
      → prepare d json p s path ≡ ok plan
      → (c : Config) × (check_mode d s path ≡ none)
        × (load d json s path ≡ ok c)
        × (validate p.decode_std c ≡ none)
        × (prepare_config d json p s c ≡ ok plan)
  unfolding prepare validate
  prepare-prepare_config s path h = elim (Option-cases (check_mode d s path)) [
    | inr (e, q) ↦ absurd (ground (arith, q))
    | inl q ↦ elim (Fallible-cases (load d json s path)) [
      | inl (e, r) ↦ absurd (ground (arith, q, r))
      | inr (c, r) ↦ elim (Option-cases (validate_with_warnings p.decode_std c).1) [
        | inr (e, t) ↦ absurd (ground (arith, q, r, t))
        | inl t ↦ (c, q, r, t, rw (prepare, q, r, t) at h)
      ]
    ]
  ]

  check_mode-strict :
      (s : d.State) (path : Text) → check_mode d s path ≡ none → d.stat_mode s path ≡ ok 384
  unfolding check_mode nat_eq
  check_mode-strict s path h = elim (Fallible-cases (d.stat_mode s path)) [
    | inl (e, q) ↦ absurd (ground (arith, q))
    | inr (perm, q) ↦ q ∙ ap ok (ground (arith, q, h))
  ]

  secret_length :
      (b64 raw : Text) → IsSecret p.decode_std b64 → p.decode_std b64 ≡ some raw → length raw ≡ 32
  secret_length b64 raw (secret, decoded, long) e =
      subst (λ (t : Text). length t ≡ 32) (some_injective secret raw (sym decoded ∙ e)) long

  -- A node that comes to start its listeners has a configuration file with the mode 0600, which
  -- passes all checks, a host certificate with the host's name as its common name, two decoded
  -- secrets of 32 bytes, and an echo server whose allowed hosts are exactly the configured
  -- addresses. Each of its peers has the URL of its address, with the port of the node's own
  -- inter-host listener, the node itself that of its advertised address unless a peer has its name,
  -- and no other name has a URL; those that may ask it are exactly its peers and itself, by name.
  -- Its scheduler has at least four workers, and at least two for each job.
  pub prepare-IsReady :
      (s : d.State) (path : Text) {plan : Plan d json p}
      → prepare d json p s path ≡ ok plan
      → IsReady s path plan
  prepare-IsReady s path {plan} h =
      let (c, strict, read, valid, rest) = prepare-prepare_config s path h in
      let r = prepare_config-Prepared s c rest in
      let a = r.assembled in
      let sound = (validate-IsSound p.decode_std c).0 valid in
      let back : c ≡ plan.config = sym a.config in
      let urls : plan.urls ≡ peer_urls p.join_host_port a.port plan.config =
        a.urls ∙ ap (peer_urls p.join_host_port a.port) back in
      record {
        strict = check_mode-strict s path strict;
        read = read ∙ ap ok back;
        sound = subst (IsSound p.decode_std) back sound;
        own_name =
            ap p.leaf_common_name a.host_cert
            ∙ r.own_name
            ∙ ap (λ (k : Config). ok k.host.name) back;
        echo_secret =
            ap p.decode_std (ap (λ (k : Config). k.probe.udp_shared_secret) a.config)
            ∙ r.udp_decoded
            ∙ ap some (sym a.echo_secret);
        session_secret =
            ap p.decode_std (ap (λ (k : Config). k.ui.session_secret) a.config)
            ∙ r.session_decoded
            ∙ ap some (sym a.session_secret_kept);
        echo_length =
            secret_length c.probe.udp_shared_secret plan.echo.secret sound.udp_key
              (r.udp_decoded ∙ ap some (sym a.echo_secret));
        session_length =
            secret_length c.ui.session_secret plan.session.secret sound.session_key
              (r.session_decoded ∙ ap some (sym a.session_secret_kept));
        echo_allowed = λ addr.
            ap (λ t. is_allowed t addr)
              (a.echo_allowed ∙ ap (λ (k : Config). add_addrs [] k.peers) back)
            ∙ is_allowed-add_addrs plan.config.peers addr;
        host_part = a.host_part;
        port = a.port;
        addr_split =
            ap (λ (k : Config). p.split_host_port k.listeners.inter_host.addr) a.config
            ∙ a.addr_split;
        urls = λ n.
            ap (Dict.lookup n) urls
            ∙ peer_urls-url_by_name p.join_host_port a.port plan.config n
                (subst (IsSound p.decode_std) back sound).distinct;
        allowed_names = λ n.
            ap (λ t. is_allowed t n) (a.allowed_names ∙ ap peer_names back)
            ∙ is_allowed-peer_names plan.config n;
        workers_low = a.workers_low;
        workers_jobs = a.workers_jobs;
      }
