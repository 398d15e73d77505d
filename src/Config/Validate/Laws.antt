-- ===== src/Config/Validate/Laws.antt =====
-- What a validated configuration satisfies, and which warnings it comes with.
use mesh_checker.Base.{
  ◌≡◌, ◌≢◌, refl, ap, sym, ◌∙◌, ◌↔◌, inl, inr, ◌++◌, ◌&&◌, true, false, Option, none, some, List,
  [], ◌∷◌, Text, text_eq, nat_eq, if◌then◌else◌, length, arith, append-nil, append_assoc,
  Bool-cases, Option-cases,
}
use mesh_checker.Base.Int.{ℤ, leb_ℤ, ◌≤ℤ◌}
use mesh_checker.Base.Dict.{contains, Distinct}
use mesh_checker.Config.{Config, Peer, schema_version}
use mesh_checker.Config.Validate.{
  SecretField, udp_shared_secret, session_secret, Warning, is_valid_check, check_warnings,
  check_peers, check_secret, check_rest, validate_with_warnings, validate,
}

-- The warnings that a peer deserves: one for each check that is not known.
abbrev pub unknown_checks : Text → List Text → List Warning
unknown_checks name [] = []
unknown_checks name (ch ∷ checks) =
    if is_valid_check ch
    then unknown_checks name checks
    else record { peer = name; check = ch } ∷ unknown_checks name checks

abbrev pub warnings_of : List Peer → List Warning
warnings_of [] = []
warnings_of (p ∷ peers) = unknown_checks p.name p.checks ++ warnings_of peers

abbrev pub names : List Peer → List Text
names [] = []
names (p ∷ peers) = p.name ∷ names peers

check_warnings_lem :
    (name : Text) (warnings : List Warning) (checks : List Text)
    → check_warnings name warnings checks ≡ warnings ++ unknown_checks name checks
unfolding check_warnings
check_warnings_lem name warnings [] = sym (append-nil warnings)
check_warnings_lem name warnings (ch ∷ checks) = elim (Bool-cases (is_valid_check ch)) [
  | inl e ↦ rw e (check_warnings_lem name warnings checks)
  | inr e ↦ rw e (
      check_warnings_lem name (warnings ++ (record { peer = name; check = ch } ∷ [])) checks
      ∙ append_assoc warnings (record { peer = name; check = ch } ∷ [])
          (unknown_checks name checks))
]

-- No name stands in `seen`, and none twice.
abbrev AllNew : List Text → List Peer → Type 0
AllNew seen [] = Unit
AllNew seen (p ∷ peers) = (contains p.name seen ≡ false) × AllNew (p.name ∷ seen) peers

check_peers_lem :
    (seen : List Text) (warnings : List Warning) (peers : List Peer)
    → ((check_peers seen warnings peers).1 ≡ none) ↔ AllNew seen peers
unfolding check_peers
check_peers_lem seen warnings [] = (λ e. tt, λ u. refl)
check_peers_lem seen warnings (p ∷ peers) =
    ground (arith, check_peers_lem (p.name ∷ seen) (check_warnings p.name warnings p.checks) peers)

check_peers-warnings :
    (seen : List Text) (warnings : List Warning) (peers : List Peer)
    → AllNew seen peers
    → (check_peers seen warnings peers).0 ≡ warnings ++ warnings_of peers
unfolding check_peers
check_peers-warnings seen warnings [] u = sym (append-nil warnings)
check_peers-warnings seen warnings (p ∷ peers) u = rw u.0 (
    check_peers-warnings (p.name ∷ seen) (check_warnings p.name warnings p.checks) peers u.1
    ∙ (ap (λ w. w ++ warnings_of peers) (check_warnings_lem p.name warnings p.checks)
        ∙ append_assoc warnings (unknown_checks p.name p.checks) (warnings_of peers)))

abbrev Apart : List Text → List Text → Type 0
Apart seen [] = Unit
Apart seen (x ∷ xs) = (contains x seen ≡ false) × Apart seen xs

Apart-nil : (xs : List Text) → Apart [] xs
Apart-nil [] = tt
Apart-nil (x ∷ xs) = (refl, Apart-nil xs)

Apart-cons :
    (x : Text) (seen xs : List Text)
    → Apart (x ∷ seen) xs ↔ ((contains x xs ≡ false) × Apart seen xs)
Apart-cons x seen [] = (λ u. (refl, tt), λ u. tt)
Apart-cons x seen (y ∷ xs) = ground (arith, Apart-cons x seen xs)

AllNew-Apart :
    (seen : List Text) (peers : List Peer)
    → AllNew seen peers ↔ (Apart seen (names peers) × Distinct (names peers))
AllNew-Apart seen [] = (λ u. (tt, tt), λ u. tt)
AllNew-Apart seen (p ∷ peers) =
    ground (arith, AllNew-Apart (p.name ∷ seen) peers, Apart-cons p.name seen (names peers))

-- Looking back over the names seen is the same as looking ahead over those to come.
AllNew-Distinct : (peers : List Peer) → AllNew [] peers ↔ Distinct (names peers)
AllNew-Distinct peers =
    let e = AllNew-Apart [] peers in (λ u. (e.0 u).1, λ d. e.1 (Apart-nil (names peers), d))

module _ (decode : Text → Option Text) where
  abbrev pub IsSecret : Text → Type 0
  IsSecret b64 = (raw : Text) × (decode b64 ≡ some raw) × (length raw ≡ 32)

  -- The rules that a configuration must meet.
  pub record IsSound (c : Config) : Type 0 where
    pub versioned : c.version ≡ schema_version
    pub named : c.host.name ≢ []
    pub threshold : c.probe.failure_threshold ≤ℤ c.probe.failure_window
    pub udp_key : IsSecret c.probe.udp_shared_secret
    pub session_key : IsSecret c.ui.session_secret
    pub distinct : Distinct (names c.peers)

  check_secret_lem :
      (field : SecretField) (b64 : Text) → (check_secret decode field b64 ≡ none) ↔ IsSecret b64
  unfolding check_secret nat_eq
  check_secret_lem field b64 = (
    λ e. elim (Option-cases (decode b64)) [
      | inl q ↦ ground (arith, q)
      | inr (raw, q) ↦ (raw, q, ground (arith, q))
    ],
    λ (raw, q, n). ground (arith, q, n),
  )

  check_rest_lem :
      (c : Config)
      → ((check_rest decode c).1 ≡ none) ↔ (
          (check_secret decode udp_shared_secret c.probe.udp_shared_secret ≡ none)
          × (check_secret decode session_secret c.ui.session_secret ≡ none)
          × ((check_peers [] [] c.peers).1 ≡ none))
  unfolding check_rest
  check_rest_lem c = ground arith

  version_test :
      (v : ℤ) → ((leb_ℤ v schema_version && leb_ℤ schema_version v) ≡ true) ↔ (v ≡ schema_version)
  version_test v = ground arith

  -- The first three rules lead to the rest of the checks.
  validate-check_rest :
      (c : Config)
      → (validate decode c ≡ none) ↔ (
          (c.version ≡ schema_version)
          × (c.host.name ≢ [])
          × (c.probe.failure_threshold ≤ℤ c.probe.failure_window)
          × ((check_rest decode c).1 ≡ none))
  unfolding validate validate_with_warnings
  validate-check_rest c = ground (arith, version_test c.version)

  -- `Validate` accepts exactly the configurations of schema version 1 with a host name, a failure
  -- threshold that is not above the window, two secrets that decode to 32 bytes, and no two peers
  -- of the same name.
  pub validate-IsSound : (c : Config) → (validate decode c ≡ none) ↔ IsSound c
  validate-IsSound c = (
    λ e.
        let (v, n, t, more) = (validate-check_rest c).0 e in
        let (a, b, d) = (check_rest_lem c).0 more in
        record {
          versioned = v;
          named = n;
          threshold = t;
          udp_key = (check_secret_lem udp_shared_secret c.probe.udp_shared_secret).0 a;
          session_key = (check_secret_lem session_secret c.ui.session_secret).0 b;
          distinct = (AllNew-Distinct c.peers).0 ((check_peers_lem [] [] c.peers).0 d);
        },
    λ r. (validate-check_rest c).1 (
      r.versioned,
      r.named,
      r.threshold,
      (check_rest_lem c).1 (
        (check_secret_lem udp_shared_secret c.probe.udp_shared_secret).1 r.udp_key,
        (check_secret_lem session_secret c.ui.session_secret).1 r.session_key,
        (check_peers_lem [] [] c.peers).1 ((AllNew-Distinct c.peers).1 r.distinct),
      ),
    ),
  )

  -- An accepted configuration comes with one warning for each unknown check, in file order.
  pub validate-warnings :
      (c : Config)
      → validate decode c ≡ none
      → (validate_with_warnings decode c).0 ≡ warnings_of c.peers
  unfolding validate_with_warnings
  validate-warnings c e =
      let r = (validate-IsSound c).0 e in
      ground (
        arith,
        version_test c.version,
        (check_secret_lem udp_shared_secret c.probe.udp_shared_secret).1 r.udp_key,
        (check_secret_lem session_secret c.ui.session_secret).1 r.session_key,
        check_peers-warnings [] [] c.peers ((AllNew-Distinct c.peers).1 r.distinct),
        r.versioned,
        r.named,
        r.threshold,
      )
