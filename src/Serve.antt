-- ===== src/Serve.antt =====
-- internal/pkg/cli/serve.go: which probes a configuration asks for, and who may ask this node.
pub mod Jobs
pub mod Lifetime
pub mod Prepare
use mesh_checker.Base.{
  ℕ, ◌*◌, Bool, true, false, Option, none, some, List, [], ◌∷◌, ◌++◌, Text, text_eq, if◌then◌else◌,
  length, leb,
}
use mesh_checker.Base.Int.{ℤ, pos, ltb_ℤ}
use mesh_checker.Base.Dict
use mesh_checker.Base.Dict.{Dict}
use mesh_checker.Probe.{Protocol, Target, icmp, tcp, udp, https}
use mesh_checker.Config.{Config, Peer}
use mesh_checker.Scheduler.{Job}

-- `mustProbers`, for the probers of the protocols. The ICMP prober may be missing: its socket may
-- be refused.
unfoldable pub must_probers : {P : Type 0} → P → P → P → Option P → Dict Protocol P
must_probers tcp_p https_p udp_p icmp_p =
    let pr = Dict.insert udp udp_p (Dict.insert https https_p (Dict.insert tcp tcp_p [])) in
    elim icmp_p [ none ↦ pr | some p ↦ Dict.insert icmp p pr ]

abbrev pub target_of : Peer → Target
target_of p = record {
  name = p.name;
  addr = p.addr;
  tcp_port = p.tcp_port;
  udp_port = p.udp_port;
  https_url = p.https_url;
}

module _ {P : Type 0} (pr : Dict Protocol P) where
  -- The inner loop of `buildJobs`; `jobs` holds those so far.
  unfoldable pub add_checks : Peer → List (Job P) → List Text → List (Job P)
  add_checks p jobs [] = jobs
  add_checks p jobs (ch ∷ checks) = elim (Dict.lookup ch pr) [
    | none ↦ add_checks p jobs checks
    | some prober ↦
        add_checks p
          (jobs
            ++ (record { peer = p.name; protocol = ch; target = target_of p; prober = prober }
                ∷ []))
          checks
  ]

  unfoldable pub add_peers : List (Job P) → List Peer → List (Job P)
  add_peers jobs [] = jobs
  add_peers jobs (p ∷ peers) = add_peers (add_checks p jobs p.checks) peers

  unfoldable pub build_jobs : Config → List (Job P)
  build_jobs c = add_peers [] c.peers

-- `peerNamesList`
unfoldable pub peer_names_list : List Peer → List Text
peer_names_list [] = []
peer_names_list (p ∷ peers) = p.name ∷ peer_names_list peers

unfoldable pub max_int : ℤ → ℤ → ℤ
max_int a b = if ltb_ℤ b a then a else b

-- `Workers` of the scheduler.
abbrev pub workers_for : {P : Type 0} → List (Job P) → ℤ
workers_for jobs = max_int (pos (2 * length jobs)) (pos 4)

-- `peerNames`: who may ask this node for its view.
unfoldable pub add_names : Dict Text Bool → List Peer → Dict Text Bool
add_names names [] = names
add_names names (p ∷ peers) = add_names (Dict.insert p.name true names) peers

unfoldable pub peer_names : Config → Dict Text Bool
peer_names c = add_names (Dict.insert c.host.name true []) c.peers
