-- ===== src/Serve/Prepare/Assembled.antt =====
-- What a plan is assembled from.
use mesh_checker.Base.{
  ◌≡◌, refl, subst, ◌∙◌, ◌*◌, Bool, true, List, [], ◌∷◌, Text, text_eq, ◌||◌, length, ok,
  ok_injective, arith, Fallible-cases, Option-cases, inl, inr,
}
use mesh_checker.Base.Int.{pos, ◌≤ℤ◌}
use mesh_checker.Base.Dict
use mesh_checker.Base.Dict.{Dict, contains, some_injective}
use mesh_checker.Config.{Config, Peer}
use mesh_checker.Config.Files.{Json, Disk}
use mesh_checker.Echo.{new_udp_echo}
use mesh_checker.Interhost.{is_allowed}
use mesh_checker.Scheduler.{Job, new_scheduler}
use mesh_checker.Scheduler.Next
use mesh_checker.Store.{Store, new}
use mesh_checker.Serve.{peer_names, max_int, workers_for, build_jobs}
use mesh_checker.Serve.Prepare.{
  peer_urls, seconds, probers_for, Platform, Plan, add_addrs, assemble,
}

abbrev pub addrs : List Peer → List Text
addrs [] = []
addrs (q ∷ peers) = q.addr ∷ addrs peers

is_allowed-more :
    (allowed : Dict Text Bool) (peers : List Peer) (a : Text)
    → is_allowed (add_addrs allowed peers) a ≡ (contains a (addrs peers) || is_allowed allowed a)
unfolding add_addrs is_allowed
is_allowed-more allowed [] a = refl
is_allowed-more allowed (q ∷ peers) a =
    is_allowed-more (Dict.insert q.addr true allowed) peers a
    ∙ ground (arith, Dict.lookup-insert a q.addr true allowed)

pub is_allowed-add_addrs :
    (peers : List Peer) (a : Text) → is_allowed (add_addrs [] peers) a ≡ contains a (addrs peers)
unfolding is_allowed Dict.lookup
is_allowed-add_addrs peers a = ground (arith, is_allowed-more [] peers a)

workers_enough :
    {P : Type 0} (cfg : Next.Config) (jobs : List (Job P)) (st : Store)
    → cfg.workers ≡ workers_for jobs
    → let s = new_scheduler cfg jobs st in
      (pos 4 ≤ℤ s.cfg.workers) × (pos (2 * length s.jobs) ≤ℤ s.cfg.workers)
unfolding new_scheduler max_int
workers_enough cfg jobs st e = ground (arith, e)

module _ (d : Disk) (json : Json) (p : Platform d.State) where
  -- A plan that was assembled from a configuration, a key pair and two decoded secrets.
  pub record Assembled (c : Config) (pair : p.KeyPair) (udp_secret session_secret : Text)
      (plan : Plan d json p) : Type 0 where
    pub config : plan.config ≡ c
    pub host_cert : plan.host_cert ≡ pair
    pub echo_secret : plan.echo.secret ≡ udp_secret
    pub echo_allowed : plan.echo.allowed ≡ add_addrs [] c.peers
    pub host_part : Text
    pub port : Text
    pub addr_split : p.split_host_port c.listeners.inter_host.addr ≡ ok (host_part, port)
    pub urls : plan.urls ≡ peer_urls p.join_host_port port c
    pub allowed_names : plan.allowed_names ≡ peer_names c
    pub session_secret_kept : plan.session.secret ≡ session_secret
    pub workers_low : pos 4 ≤ℤ plan.scheduler.cfg.workers
    pub workers_jobs : pos (2 * length plan.scheduler.jobs) ≤ℤ plan.scheduler.cfg.workers

  pub assemble-Assembled :
      (c : Config) (pool : p.CaPool) (pair : p.KeyPair) (udp_secret session_secret : Text)
      {plan : Plan d json p}
      → assemble d json p c pool pair udp_secret session_secret ≡ ok plan
      → Assembled c pair udp_secret session_secret plan
  unfolding assemble new_udp_echo
  assemble-Assembled c pool pair udp_secret session_secret {plan} h =
      elim (Fallible-cases (p.split_host_port c.listeners.inter_host.addr)) [
        | inl (e, q) ↦ absurd (ground (arith, q))
        | inr ((host, port), q) ↦ elim (Option-cases (p.listen_udp c.listeners.probe.udp_addr)) [
          | inr (e, r) ↦ absurd (ground (arith, q, r))
          | inl r ↦
              let enough =
                workers_enough
                  (record {
                    interval = seconds c.probe.interval_seconds;
                    jitter_percent = c.probe.jitter_percent;
                    workers = workers_for (build_jobs (probers_for d json p pool udp_secret c) c);
                    timeout = seconds c.probe.timeout_seconds;
                  })
                  (build_jobs (probers_for d json p pool udp_secret c) c)
                  (new c.probe.ringbuffer_size) refl in
              subst (Assembled c pair udp_secret session_secret)
                (ok_injective _ plan (rw (assemble, q, r) at h))
                (record {
                  config = refl;
                  host_cert = refl;
                  echo_secret = refl;
                  echo_allowed = refl;
                  host_part = host;
                  port = port;
                  addr_split = q;
                  urls = refl;
                  allowed_names = refl;
                  session_secret_kept = refl;
                  workers_low = enough.0;
                  workers_jobs = enough.1;
                })
        ]
      ]
