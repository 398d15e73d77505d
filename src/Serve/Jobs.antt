-- ===== src/Serve/Jobs.antt =====
-- The jobs of a configuration, and what the scheduler makes of them.
use mesh_checker.Base.{
  ◌≡◌, refl, sym, ap, ◌∙◌, Option, none, some, List, [], ◌∷◌, ◌++◌, append-nil, ap₂, codes, ◌==◌,
  Bool, true, false, append_assoc, Text, text_eq, if◌then◌else◌, arith, inl, inr, Option-cases,
}
use mesh_checker.Base.Dict
use mesh_checker.Base.Dict.{Dict}
use mesh_checker.Probe.{Protocol}
use mesh_checker.Config.{Config, Peer}
use mesh_checker.Config.Validate.{Warning, validate, validate_with_warnings, is_valid_check}
use mesh_checker.Config.Validate.Laws.{unknown_checks, warnings_of, validate-warnings}
use mesh_checker.Scheduler.{Job}
use mesh_checker.Serve.{must_probers, target_of, add_checks, add_peers, build_jobs}

-- One job for each check of a peer that has a prober.
module _ {P : Type 0} (pr : Dict Protocol P) where
  abbrev pub job_for : Peer → Text → Option P → List (Job P)
  job_for p ch none = []
  job_for p ch (some prober) =
      record { peer = p.name; protocol = ch; target = target_of p; prober = prober } ∷ []

  abbrev pub jobs_of : Peer → List Text → List (Job P)
  jobs_of p [] = []
  jobs_of p (ch ∷ checks) = job_for p ch (Dict.lookup ch pr) ++ jobs_of p checks

  abbrev pub all_jobs : List Peer → List (Job P)
  all_jobs [] = []
  all_jobs (p ∷ peers) = jobs_of p p.checks ++ all_jobs peers

  add_checks_lem :
      (p : Peer) (jobs : List (Job P)) (checks : List Text)
      → add_checks pr p jobs checks ≡ jobs ++ jobs_of p checks
  unfolding add_checks
  add_checks_lem p jobs [] = sym (append-nil jobs)
  add_checks_lem p jobs (ch ∷ checks) = elim (Option-cases (Dict.lookup ch pr)) [
    | inl q ↦ rw (q, add_checks) (add_checks_lem p jobs checks)
    | inr (prober, q) ↦
        let j : Job P = record {
          peer = p.name;
          protocol = ch;
          target = target_of p;
          prober = prober;
        } in
        rw (q, add_checks)
          (add_checks_lem p (jobs ++ (j ∷ [])) checks
            ∙ append_assoc jobs (j ∷ []) (jobs_of p checks))
  ]

  add_peers_lem :
      (jobs : List (Job P)) (peers : List Peer) → add_peers pr jobs peers ≡ jobs ++ all_jobs peers
  unfolding add_peers
  add_peers_lem jobs [] = sym (append-nil jobs)
  add_peers_lem jobs (p ∷ peers) =
      add_peers_lem (add_checks pr p jobs p.checks) peers
      ∙ (ap (λ js. js ++ all_jobs peers) (add_checks_lem p jobs p.checks)
          ∙ append_assoc jobs (jobs_of p p.checks) (all_jobs peers))

  -- The jobs are those of the peers in file order, one for each check that has a prober.
  pub build_jobs_lem : (c : Config) → build_jobs pr c ≡ all_jobs c.peers
  unfolding build_jobs
  build_jobs_lem c = add_peers_lem [] c.peers

lookup_nil : {V : Type 0} (ch : Text) → Path (Option V) (Dict.lookup ch []) none
unfolding Dict.lookup
lookup_nil ch = refl

-- A check of a configuration, with its peer; all of them, in the order of the file.
abbrev pub checks_of : Peer → List Text → List (Peer × Text)
checks_of p [] = []
checks_of p (ch ∷ checks) = (p, ch) ∷ checks_of p checks

abbrev pub all_checks : List Peer → List (Peer × Text)
all_checks [] = []
all_checks (p ∷ peers) = checks_of p p.checks ++ all_checks peers

module _ {P : Type 0} (tcp_p https_p udp_p icmp_p : P) where
  probers : Dict Protocol P
  unfolding must_probers
  probers = must_probers tcp_p https_p udp_p (some icmp_p)

  -- The prober of a check, by its four names.
  unfoldable pub prober_for : Text → Option P
  prober_for ch =
      if ch == codes "icmp"
      then some icmp_p
      else if ch == codes "udp"
      then some udp_p
      else if ch == codes "https"
      then some https_p
      else if ch == codes "tcp"
      then some tcp_p
      else none

  -- What a check with this prober, or with none, adds to the jobs and the warnings.
  abbrev pub expect :
      Peer → Text → Option P → List (Job P) × List Warning → List (Job P) × List Warning
  expect p ch none (jobs, warnings) = (jobs, record { peer = p.name; check = ch } ∷ warnings)
  expect p ch (some prober) (jobs, warnings) = (
    record {
      peer = p.name;
      protocol = ch;
      target = record {
        name = p.name;
        addr = p.addr;
        tcp_port = p.tcp_port;
        udp_port = p.udp_port;
        https_url = p.https_url;
      };
      prober = prober;
    }
        ∷ jobs,
    warnings,
  )

  abbrev pub expected : List (Peer × Text) → List (Job P) × List Warning
  expected [] = ([], [])
  expected ((p, ch) ∷ checks) = expect p ch (prober_for ch) (expected checks)

  abbrev both :
      List (Job P) × List Warning → List (Job P) × List Warning → List (Job P) × List Warning
  both (jobs, warnings) (jobs', warnings') = (jobs ++ jobs', warnings ++ warnings')

  expect-both :
      (p : Peer) (ch : Text) (o : Option P) (a b : List (Job P) × List Warning)
      → expect p ch o (both a b) ≡ both (expect p ch o a) b
  expect-both p ch none a b = refl
  expect-both p ch (some prober) a b = refl

  expected-append :
      (xs ys : List (Peer × Text)) → expected (xs ++ ys) ≡ both (expected xs) (expected ys)
  expected-append [] ys = refl
  expected-append ((p, ch) ∷ xs) ys =
      ap (expect p ch (prober_for ch)) (expected-append xs ys)
      ∙ expect-both p ch (prober_for ch) (expected xs) (expected ys)

  lookup-probers : (ch : Text) → Dict.lookup ch probers ≡ prober_for ch
  unfolding probers prober_for
  lookup-probers ch = simp (Dict.lookup-insert, lookup_nil) (ground arith)

  abbrev is_some : Option P → Bool
  is_some none = false
  is_some (some _) = true

  is_valid_check-prober_for : (ch : Text) → is_valid_check ch ≡ is_some (prober_for ch)
  unfolding is_valid_check prober_for
  is_valid_check-prober_for ch = ground arith

  expect-job_for :
      (p : Peer) (ch : Text) (o : Option P) (jobs : List (Job P)) (warnings : List Warning)
      → expect p ch o (jobs, warnings) ≡ (
        job_for probers p ch o ++ jobs,
        if is_some o then warnings else record { peer = p.name; check = ch } ∷ warnings,
      )
  expect-job_for p ch none jobs warnings = refl
  expect-job_for p ch (some prober) jobs warnings = refl

  expected-checks_of :
      (p : Peer) (checks : List Text)
      → expected (checks_of p checks) ≡ (jobs_of probers p checks, unknown_checks p.name checks)
  expected-checks_of p [] = refl
  expected-checks_of p (ch ∷ checks) =
      ap (expect p ch (prober_for ch)) (expected-checks_of p checks)
      ∙ expect-job_for p ch (prober_for ch) (jobs_of probers p checks)
          (unknown_checks p.name checks)
      ∙ ap₂ (λ jobs warnings. (jobs, warnings))
          (ap (λ o. job_for probers p ch o ++ jobs_of probers p checks) (sym (lookup-probers ch)))
          (ap
            (λ b.
              if b
              then unknown_checks p.name checks
              else record { peer = p.name; check = ch } ∷ unknown_checks p.name checks)
            (sym (is_valid_check-prober_for ch)))

  expected-all_checks :
      (peers : List Peer)
      → expected (all_checks peers) ≡ (all_jobs probers peers, warnings_of peers)
  expected-all_checks [] = refl
  expected-all_checks (p ∷ peers) =
      expected-append (checks_of p p.checks) (all_checks peers)
      ∙ ap₂ both (expected-checks_of p p.checks) (expected-all_checks peers)

  -- When all four probers are there, in a configuration that passes validation, the jobs and the
  -- warnings are exactly those of the configured checks, in the order of the file: a check `icmp`,
  -- `udp`, `https` or `tcp` is a job with the peer's name and addresses, with its own name as the
  -- protocol and with the prober for it, and any other check has its warning.
  pub build_jobs-warnings :
      (decode : Text → Option Text) (c : Config)
      → validate decode c ≡ none
      → (build_jobs (must_probers tcp_p https_p udp_p (some icmp_p)) c
          ≡ (expected (all_checks c.peers)).0)
        × ((validate_with_warnings decode c).0 ≡ (expected (all_checks c.peers)).1)
  unfolding probers
  build_jobs-warnings decode c v =
      let whole = sym (expected-all_checks c.peers) in
      (
        build_jobs_lem (must_probers tcp_p https_p udp_p (some icmp_p)) c ∙ ap (λ e. e.0) whole,
        validate-warnings decode c v ∙ ap (λ e. e.1) whole,
      )
