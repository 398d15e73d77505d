-- ===== src/Scheduler/Runs.antt =====
-- What holds of the scheduler's state in every interleaving.
use mesh_checker.Base.{
  ◌≤◌, ◌≡◌, ◌≢◌, if_neg, refl, sym, ap, subst, ◌∙◌, true, List, [], ◌∷◌, ◌++◌, length,
  length-append, append_assoc, All, All-append, All-cut, arith,
}
use mesh_checker.Base.Int.{ℤ, pos_part}
use mesh_checker.Base.Dict.{contains}
use mesh_checker.Store.{Key, key_eq, Store, new, append, keys}
use mesh_checker.Store.History.{Entry, append_all, results_for, keys-append_all}
use mesh_checker.Scheduler.{
  Job, Scheduler, State, Step, tick, take, finish, crash, cancel, stop, panic, close, leave, start,
  Reaches, begin, after,
}

append_all-append :
    (s : Store) (log : List Entry) (a : Entry)
    → append_all s (log ++ (a ∷ [])) ≡ append (append_all s log) a.key.peer a.key.protocol a.sample
append_all-append s [] a = refl
append_all-append s (b ∷ log) a =
    append_all-append (append s b.key.peer b.key.protocol b.sample) log a

module _ {Prober : Type 0} (s : Scheduler Prober) where
  abbrev pub job_key : Job Prober → Key
  job_key j = record { peer = j.peer; protocol = j.protocol }

  abbrev pub job_keys : List (Job Prober) → List Key
  job_keys [] = []
  job_keys (j ∷ jobs) = job_key j ∷ job_keys jobs

  abbrev pub IsJobKey : Key → Type 0
  IsJobKey k = contains k (job_keys s.jobs) ≡ true

  contains-middle :
      (front back : List (Job Prober)) (j : Job Prober)
      → contains (job_key j) (job_keys (front ++ (j ∷ back))) ≡ true
  contains-middle [] back j = ground arith
  contains-middle (i ∷ front) back j = ground (arith, contains-middle front back j)

  -- The channel, the workers and the tickers hold configured jobs within their bounds, no ticker is
  -- left when the channel is closed, and the store is what the finished probes of configured jobs
  -- have made of the first one.
  pub record IsRun (x : State Prober) : Type 0 where
    pub queue_jobs : All (λ j. IsJobKey (job_key j)) x.queue
    pub queue_bound : length x.queue ≤ length s.jobs
    pub running_jobs : All (λ j. IsJobKey (job_key j)) x.running
    pub running_bound : length x.running ≤ x.workers
    pub workers_bound : x.workers ≤ pos_part s.cfg.workers
    pub log : List Entry
    pub tickers_jobs : All (λ j. IsJobKey (job_key j)) x.tickers
    pub closed_tickers : x.closed ≡ true → x.tickers ≡ []
    pub log_jobs : All (λ (a : Entry). IsJobKey a.key) log
    pub logged : x.store ≡ append_all s.store log

  fewer_tickers :
      (x : State Prober) (front back : List (Job Prober)) (j : Job Prober)
      → x.tickers ≡ front ++ (j ∷ back)
      → IsRun x
      → IsRun (record x { tickers = front ++ back })
  fewer_tickers x front back j here r = record {
    queue_jobs = r.queue_jobs;
    queue_bound = r.queue_bound;
    running_jobs = r.running_jobs;
    running_bound = r.running_bound;
    workers_bound = r.workers_bound;
    log = r.log;
    tickers_jobs =
        (All-cut (λ j. IsJobKey (job_key j)) front back j
          (subst (All (λ j. IsJobKey (job_key j))) here r.tickers_jobs)).1;
    closed_tickers = λ e.
        absurd (
          omega (arith, length-append front (j ∷ back), ap length (sym here ∙ r.closed_tickers e)));
    log_jobs = r.log_jobs;
    logged = r.logged;
  }

  -- Each job of the scheduler has a configured key.
  configured :
      (back front : List (Job Prober))
      → s.jobs ≡ front ++ back
      → All (λ j. IsJobKey (job_key j)) back
  configured [] front e = tt
  configured (j ∷ back) front e = (
    rw e (contains-middle front back j),
    configured back (front ++ (j ∷ [])) (e ∙ sym (append_assoc front (j ∷ []) back)),
  )

  Step-IsRun : {x y : State Prober} → Step s x y → IsRun x → IsRun y
  Step-IsRun (tick x front back j int63n wait here waits room) r = record {
    queue_jobs =
        All-append (λ j. IsJobKey (job_key j)) x.queue (j ∷ []) r.queue_jobs
          (
            (All-cut (λ j. IsJobKey (job_key j)) front back j
                (subst (All (λ j. IsJobKey (job_key j))) here r.tickers_jobs)).0,
            tt,
          );
    queue_bound = omega (arith, length-append x.queue (j ∷ []), room);
    running_jobs = r.running_jobs;
    running_bound = r.running_bound;
    workers_bound = r.workers_bound;
    log = r.log;
    tickers_jobs = r.tickers_jobs;
    closed_tickers = r.closed_tickers;
    log_jobs = r.log_jobs;
    logged = r.logged;
  }
  Step-IsRun (take x rest j here room) r =
      let held = subst (All (λ j. IsJobKey (job_key j))) here r.queue_jobs in
      record {
        queue_jobs = held.1;
        queue_bound = omega (arith, ap length here, r.queue_bound);
        running_jobs = (held.0, r.running_jobs);
        running_bound = omega (arith, room);
        workers_bound = r.workers_bound;
        log = r.log;
        tickers_jobs = r.tickers_jobs;
        closed_tickers = r.closed_tickers;
        log_jobs = r.log_jobs;
        logged = r.logged;
      }
  Step-IsRun (finish x front back j sample here) r =
      let (known, held) =
        All-cut (λ j. IsJobKey (job_key j)) front back j
          (subst (All (λ j. IsJobKey (job_key j))) here r.running_jobs) in
      let a : Entry = record { key = job_key j; sample = sample } in
      record {
        queue_jobs = r.queue_jobs;
        queue_bound = r.queue_bound;
        running_jobs = held;
        running_bound = omega (
          arith,
          ap length here,
          length-append front (j ∷ back),
          length-append front back,
          r.running_bound,
        );
        workers_bound = r.workers_bound;
        log = r.log ++ (a ∷ []);
        tickers_jobs = r.tickers_jobs;
        closed_tickers = r.closed_tickers;
        log_jobs = All-append (λ (a : Entry). IsJobKey a.key) r.log (a ∷ []) r.log_jobs (known, tt);
        logged =
            ap (λ t. append t j.peer j.protocol sample) r.logged
            ∙ sym (append_all-append s.store r.log a);
      }
  Step-IsRun (crash x front back j here) r =
      let (known, held) =
        All-cut (λ j. IsJobKey (job_key j)) front back j
          (subst (All (λ j. IsJobKey (job_key j))) here r.running_jobs) in
      record {
        queue_jobs = r.queue_jobs;
        queue_bound = r.queue_bound;
        running_jobs = held;
        running_bound = omega (
          arith,
          ap length here,
          length-append front (j ∷ back),
          length-append front back,
          r.running_bound,
        );
        workers_bound = omega (arith, r.workers_bound);
        log = r.log;
        tickers_jobs = r.tickers_jobs;
        closed_tickers = r.closed_tickers;
        log_jobs = r.log_jobs;
        logged = r.logged;
      }
  Step-IsRun (cancel x before) r = record {
    queue_jobs = r.queue_jobs;
    queue_bound = r.queue_bound;
    running_jobs = r.running_jobs;
    running_bound = r.running_bound;
    workers_bound = r.workers_bound;
    log = r.log;
    tickers_jobs = r.tickers_jobs;
    closed_tickers = r.closed_tickers;
    log_jobs = r.log_jobs;
    logged = r.logged;
  }
  Step-IsRun (stop x front back j here ended) r = fewer_tickers x front back j here r
  Step-IsRun (panic x front back j int63n here panics) r = fewer_tickers x front back j here r
  Step-IsRun (close x none_left before) r = record {
    queue_jobs = r.queue_jobs;
    queue_bound = r.queue_bound;
    running_jobs = r.running_jobs;
    running_bound = r.running_bound;
    workers_bound = r.workers_bound;
    log = r.log;
    tickers_jobs = r.tickers_jobs;
    closed_tickers = λ e. none_left;
    log_jobs = r.log_jobs;
    logged = r.logged;
  }
  Step-IsRun (leave x shut empty free) r = record {
    queue_jobs = r.queue_jobs;
    queue_bound = r.queue_bound;
    running_jobs = r.running_jobs;
    running_bound = omega (arith, free);
    workers_bound = omega (arith, r.workers_bound);
    log = r.log;
    tickers_jobs = r.tickers_jobs;
    closed_tickers = r.closed_tickers;
    log_jobs = r.log_jobs;
    logged = r.logged;
  }

  -- In every state of a run the channel holds at most as many jobs as there are, the workers that
  -- no panic has ended hold at most one each, all of them configured, there are at most as many
  -- workers as configured, no ticker is left when the channel is closed, so that nothing is sent on
  -- it then, and the store is the first one with the results of configured jobs appended.
  pub Reaches-IsRun : {x : State Prober} → Reaches s x → IsRun x
  unfolding start
  Reaches-IsRun begin = record {
    queue_jobs = tt;
    queue_bound = omega arith;
    running_jobs = tt;
    running_bound = omega arith;
    workers_bound = omega arith;
    log = [];
    tickers_jobs = configured s.jobs [] refl;
    closed_tickers = λ e. absurd (ground (arith, e));
    log_jobs = tt;
    logged = refl;
  }
  Reaches-IsRun (after x y reached step) = Step-IsRun step (Reaches-IsRun reached)

  results_for-job :
      (k : Key) (log : List Entry)
      → All (λ (a : Entry). IsJobKey a.key) log
      → results_for k log ≢ []
      → IsJobKey k
  results_for-job k [] h some_result = absurd (some_result refl)
  results_for-job k (a ∷ log) h some_result = elim (key_eq.dec k a.key) [
    | yes e ↦ subst IsJobKey (sym e) h.0
    | no n ↦ results_for-job k log h.1 (λ e. some_result (rw (if_neg _ n) e))
  ]

  -- A scheduler that started on an empty store never has samples of anything but a configured job,
  -- in whatever order its tickers and workers run.
  pub keys-Reaches :
      (c : ℤ) {x : State Prober} (k : Key)
      → s.store ≡ new c
      → Reaches s x
      → contains k (keys x.store) ≡ true
      → contains k (job_keys s.jobs) ≡ true
  keys-Reaches c {x} k empty reached h =
      let r = Reaches-IsRun reached in
      let whole : x.store ≡ append_all (new c) r.log =
        r.logged ∙ ap (λ t. append_all t r.log) empty in
      results_for-job k r.log r.log_jobs
        (((keys-append_all c r.log).1 k).0 (subst (λ t. contains k (keys t) ≡ true) whole h))
