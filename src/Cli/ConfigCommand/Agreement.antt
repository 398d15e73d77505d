-- ===== src/Cli/ConfigCommand/Agreement.antt =====
-- `config validate` and `serve` accept the same configurations.
use mesh_checker.Base.{
  ◌≡◌, ◌≢◌, ◌↔◌, refl, Option, none, some, List, [], ◌∷◌, Text, text_eq, length, ok, arith,
  Fallible, err, ◌>>=◌, ◌==◌, Bool-cases, Option-cases, Fallible-cases, inl, inr,
}
use mesh_checker.Base.Int.{ℤ}
use mesh_checker.Config.{Config}
use mesh_checker.Config.Files.{Json, Disk, check_mode, load}
use mesh_checker.Config.Validate.{Warning, ConfigError, validate, validate_with_warnings}
use mesh_checker.Config.Validate.Laws.{IsSound, validate-IsSound}
use mesh_checker.Cli.Args.{config_flag, config_path}
use mesh_checker.Cli.Flags.{parse_flags}
use mesh_checker.Cli.ConfigCommand.{
  report_of, report_on, run_config_validate, skeleton_secret, new_config_skeleton,
}
use mesh_checker.Serve.Prepare.{
  Platform, Plan, ServeError, bad_flags, mode_refused, load_failed, invalid, no_ca, no_key_pair,
  no_leaf, bad_addr, no_socket, empty_ca, bad_secret, other_common_name, same_name, assemble,
  decode_secrets, check_pair, prepare, prepare_args, prepare_config,
}

-- The skeleton is a configuration that passes all checks, if the host has a name and its secret
-- decodes to 32 bytes.
pub new_config_skeleton-IsSound :
    (decode : Text → Option Text) (raw host_name addr ca_cert host_cert host_key : Text)
    (ih_port ui_port probe_http probe_udp : ℤ)
    → decode skeleton_secret ≡ some raw
    → length raw ≡ 32
    → host_name ≢ []
    → IsSound decode (
        new_config_skeleton host_name addr ca_cert host_cert host_key ih_port ui_port probe_http
          probe_udp)
unfolding new_config_skeleton
new_config_skeleton-IsSound decode raw host_name addr ca_cert host_cert host_key ih_port ui_port
      probe_http probe_udp decoded long named =
    record {
      versioned = refl;
      named = named;
      threshold = omega arith;
      udp_key = (raw, decoded, long);
      session_key = (raw, decoded, long);
      distinct = tt;
    }

report_of-none :
    (r : List Warning × Option ConfigError) → ((report_of r).error ≡ none) ↔ (r.1 ≡ none)
report_of-none (w, none) = (λ e. refl, λ e. refl)
report_of-none (w, some e) = (λ h. cc, λ h. cc)

module _ (d : Disk) (json : Json) (p : Platform d.State) where
  -- What `config validate` says of a file.
  report_on-IsSound :
      (s : d.State) (path : Text)
      → ((report_on d json p.decode_std (load d json s path)).error ≡ none)
        ↔ ((c : Config) × (load d json s path ≡ ok c) × IsSound p.decode_std c)
  unfolding validate
  report_on-IsSound s path = (
    λ e. elim (Fallible-cases (load d json s path)) [
      | inl (x, q) ↦ absurd (ground (arith, q, e))
      | inr (c, q) ↦ (
        c,
        q,
        (validate-IsSound p.decode_std c).0
            ((report_of-none (validate_with_warnings p.decode_std c)).0 (rw q at e)),
      )
    ],
    λ (c, q, sound). rw q (
        (report_of-none (validate_with_warnings p.decode_std c)).1
          ((validate-IsSound p.decode_std c).1 sound)),
  )

  -- That `serve` came past its own checks of the file: it goes on to the certificates and sockets,
  -- or fails there.
  abbrev pub PastChecks : Fallible ServeError (Plan d json p) → Type 0
  PastChecks (ok plan) = Unit
  PastChecks (err (bad_flags e)) = ⊥
  PastChecks (err (mode_refused e)) = ⊥
  PastChecks (err (load_failed e)) = ⊥
  PastChecks (err (invalid e)) = ⊥
  PastChecks (err (no_ca e)) = Unit
  PastChecks (err (no_key_pair e)) = Unit
  PastChecks (err (no_leaf e)) = Unit
  PastChecks (err (bad_addr e)) = Unit
  PastChecks (err (no_socket e)) = Unit
  PastChecks (err empty_ca) = Unit
  PastChecks (err bad_secret) = Unit
  PastChecks (err (other_common_name a b)) = Unit

  assemble-PastChecks :
      (c : Config) (pool : p.CaPool) (pair : p.KeyPair) (udp_secret session_secret : Text)
      → PastChecks (assemble d json p c pool pair udp_secret session_secret)
  unfolding assemble
  assemble-PastChecks c pool pair udp_secret session_secret =
      elim (Fallible-cases (p.split_host_port c.listeners.inter_host.addr)) [
        | inl (e, q) ↦ rw (assemble, q) tt
        | inr (x, q) ↦ elim (Option-cases (p.listen_udp c.listeners.probe.udp_addr)) [
          | inl r ↦ rw (assemble, q, r) tt
          | inr (e, r) ↦ rw (assemble, q, r) tt
        ]
      ]

  decode_secrets-PastChecks :
      (c : Config) (pool : p.CaPool) (pair : p.KeyPair)
      → PastChecks (decode_secrets d json p c pool pair)
  unfolding decode_secrets
  decode_secrets-PastChecks c pool pair =
      elim (Option-cases (p.decode_std c.probe.udp_shared_secret)) [
        | inl q ↦ rw (decode_secrets, q) tt
        | inr (a, q) ↦ elim (Option-cases (p.decode_std c.ui.session_secret)) [
          | inl r ↦ rw (decode_secrets, q, r) tt
          | inr (b, r) ↦ rw (decode_secrets, q, r) (assemble-PastChecks c pool pair a b)
        ]
      ]

  same_name-PastChecks :
      (name cn : Text) (next : Fallible ServeError (Plan d json p))
      → PastChecks next
      → PastChecks (same_name name cn >>= λ _. next)
  unfolding same_name
  same_name-PastChecks name cn next past = elim (Bool-cases (cn == name)) [
    | inl e ↦ rw (same_name, e) past
    | inr e ↦ rw (same_name, e) tt
  ]

  check_pair-PastChecks :
      (s : d.State) (c : Config) (pool : p.CaPool) → PastChecks (check_pair d json p s c pool)
  unfolding check_pair
  check_pair-PastChecks s c pool =
      elim (Fallible-cases (p.load_key_pair s c.pki.host_cert_path c.pki.host_key_path)) [
        | inl (e, q) ↦ rw (check_pair, q) tt
        | inr (pair, q) ↦ elim (Fallible-cases (p.leaf_common_name pair)) [
          | inl (e, r) ↦ rw (check_pair, q, r) tt
          | inr (cn, r) ↦
              rw (check_pair, q, r)
                (same_name-PastChecks c.host.name cn (decode_secrets d json p c pool pair)
                  (decode_secrets-PastChecks c pool pair))
        ]
      ]

  prepare_config-PastChecks : (s : d.State) (c : Config) → PastChecks (prepare_config d json p s c)
  unfolding prepare_config
  prepare_config-PastChecks s c = elim (Fallible-cases (d.read_file s c.pki.ca_cert_path)) [
    | inl (e, q) ↦ rw (prepare_config, q) tt
    | inr (ca_pem, q) ↦ elim (Option-cases (p.certs_from_pem ca_pem)) [
      | inl r ↦ rw (prepare_config, q, r) tt
      | inr (pool, r) ↦ rw (prepare_config, q, r) (check_pair-PastChecks s c pool)
    ]
  ]

  -- `serve` comes past its checks exactly for files of sound configurations.
  prepare-IsSound :
      (s : d.State) (path : Text)
      → check_mode d s path ≡ none
      → PastChecks (prepare d json p s path)
        ↔ ((c : Config) × (load d json s path ≡ ok c) × IsSound p.decode_std c)
  unfolding prepare validate
  prepare-IsSound s path strict = (
    λ past. elim (Fallible-cases (load d json s path)) [
      | inl (x, q) ↦ absurd (rw (prepare, strict, q) at past)
      | inr (c, q) ↦ elim (Option-cases (validate_with_warnings p.decode_std c).1) [
        | inl r ↦ (c, q, (validate-IsSound p.decode_std c).0 r)
        | inr (x, r) ↦ absurd (rw (prepare, strict, q, r) at past)
      ]
    ],
    λ (c, q, sound).
        rw (prepare, strict, q, (validate-IsSound p.decode_std c).1 sound)
          (prepare_config-PastChecks s c),
  )

  -- For arguments that are flags, of a file that only its owner can read, `config validate` reports
  -- no error exactly when `serve`, for the same arguments, comes past its own checks of the
  -- configuration, that is, ends with a node or with an error of a certificate, a key, a secret, an
  -- address or a socket.
  pub run_config_validate-prepare :
      (s : d.State) (args : List Text) (flags : List (Text × Text)) (rest : List Text)
      → parse_flags (config_flag ∷ []) args ≡ ok (flags, rest)
      → check_mode d s (config_path flags) ≡ none
      → ((run_config_validate d json p.decode_std s args).error ≡ none)
        ↔ PastChecks (prepare_args d json p s args)
  unfolding run_config_validate prepare_args
  run_config_validate-prepare s args flags rest parsed strict =
      let validated = report_on-IsSound s (config_path flags) in
      let prepared = prepare-IsSound s (config_path flags) strict in
      (
        λ e.
            rw (prepare_args, parsed)
              (prepared.1 (validated.0 (rw (run_config_validate, parsed) at e))),
        λ past.
            rw (run_config_validate, parsed)
              (validated.1 (prepared.0 (rw (prepare_args, parsed) at past))),
      )
