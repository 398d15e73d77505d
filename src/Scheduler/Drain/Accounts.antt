-- ===== src/Scheduler/Drain/Accounts.antt =====
-- What becomes of each job, and how many steps there still are, when no ticker is left.
use mesh_checker.Base.{
  ℕ, suc, refl, sym, ap, ap₂, subst, ◌∙◌, ◌⊎◌, inl, inr, ◌+◌, ◌*◌, ◌<◌, ◌≤◌, ◌≡◌, Bool, true, false,
  List, [], ◌∷◌, ◌++◌, length, length-append, ◌==◌, if◌then◌else◌, arith,
}
use mesh_checker.Store.{Key, key_eq}
use mesh_checker.Store.History.{Entry, append_all, results_for}
use mesh_checker.Scheduler.{
  Job, Scheduler, State, Step, tick, take, finish, crash, cancel, stop, panic, close, leave,
}
use mesh_checker.Scheduler.Runs.{job_key}

-- `n` steps, one after the other.
pub data Steps {Prober : Type 0} (s : Scheduler Prober)
    : ℕ → State Prober → State Prober → Type 0 where
  idle : (x : State Prober) → Steps s 0 x x
  more : (n : ℕ) (x y z : State Prober) → Step s x y → Steps s n y z → Steps s (suc n) x z

module _ {Prober : Type 0} (s : Scheduler Prober) where
  abbrev open_bit : Bool → ℕ
  open_bit true = 0
  open_bit false = 1

  -- A bound of the steps that are left when no ticker is: two for each queued job, one for each held
  -- one, one for each worker to leave, the end of the context and the closing of the channel.
  abbrev pub left : State Prober → ℕ
  left x =
      2 * length x.queue + length x.running + x.workers + open_bit x.cancelled + open_bit x.closed

  -- How many of the jobs have the key.
  abbrev pub count : Key → List (Job Prober) → ℕ
  count k [] = 0
  count k (j ∷ jobs) = (if k == job_key s j then 1 else 0) + count k jobs

  count-middle :
      (k : Key) (front back : List (Job Prober)) (j : Job Prober)
      → count k (front ++ (j ∷ back))
        ≡ (if k == job_key s j then 1 else 0) + count k (front ++ back)
  count-middle k [] back j = refl
  count-middle k (i ∷ front) back j = omega (arith, count-middle k front back j)

  no_middle : (front back : List (Job Prober)) (j : Job Prober) → ¬ ([] ≡ front ++ (j ∷ back))
  no_middle front back j e = omega (arith, length-append front (j ∷ back), ap length e)

  -- What became of the jobs that `x` holds by the time of `y`: each was finished, so its result is in
  -- the log, or lost by a panic, or is still there. Each worker that ended did so by a panic, or when
  -- the channel was closed and empty.
  pub record Accounts (x y : State Prober) : Type 0 where
    pub log : List Entry
    pub lost : List (Job Prober)
    pub logged : y.store ≡ append_all x.store log
    pub counted :
        (k : Key)
        → count k x.queue + count k x.running
          ≡ count k y.queue + count k y.running + length (results_for k log) + count k lost
    pub workers : (x.workers ≤ y.workers + length lost) ⊎ (y.queue ≡ [])
    pub empty : x.queue ≡ [] → y.queue ≡ []

  -- One step, when no ticker is left: it uses up some of `left`, and keeps account of the jobs.
  Step-left : {x y : State Prober} → Step s x y → x.tickers ≡ [] → left y < left x
  Step-left (tick x front back j int63n wait here waits room) t =
      absurd (no_middle front back j (sym t ∙ here))
  Step-left (take x rest j here room) t = omega (arith, ap length here)
  Step-left (finish x front back j r here) t =
      omega (arith, ap length here, length-append front (j ∷ back), length-append front back)
  Step-left (crash x front back j here) t =
      omega (arith, ap length here, length-append front (j ∷ back), length-append front back)
  Step-left (cancel x before) t = ground (arith, before)
  Step-left (stop x front back j here ended) t = absurd (no_middle front back j (sym t ∙ here))
  Step-left (panic x front back j int63n here now) t =
      absurd (no_middle front back j (sym t ∙ here))
  Step-left (close x none_left before) t = ground (arith, before)
  Step-left (leave x shut empty free) t = omega (arith, free)

  length-results_for :
      (k : Key) (a : Entry) (log : List Entry)
      → length (results_for k (a ∷ log))
        ≡ (if k == a.key then 1 else 0) + length (results_for k log)
  length-results_for k a log = ground arith

  -- A step that leaves the jobs, the store and the workers as they are.
  unchanged :
      (x y z : State Prober)
      → y.queue ≡ x.queue
      → y.running ≡ x.running
      → y.store ≡ x.store
      → y.workers ≡ x.workers
      → Accounts y z
      → Accounts x z
  unchanged x y z q r st w a = record {
    log = a.log;
    lost = a.lost;
    logged = a.logged ∙ ap (λ t. append_all t a.log) st;
    counted = λ k. ap₂ (λ m n. count k m + count k n) (sym q) (sym r) ∙ a.counted k;
    workers = subst (λ n. (n ≤ z.workers + length a.lost) ⊎ (z.queue ≡ [])) w a.workers;
    empty = λ e. a.empty (q ∙ e);
  }

  Step-Accounts :
      {x y : State Prober} (z : State Prober)
      → Step s x y
      → x.tickers ≡ []
      → Accounts y z
      → Accounts x z
  Step-Accounts z (tick x front back j int63n wait here waits room) t a =
      absurd (no_middle front back j (sym t ∙ here))
  Step-Accounts z (take x rest j here room) t a = record {
    log = a.log;
    lost = a.lost;
    logged = a.logged;
    counted = λ k. omega (arith, ap (count k) here, a.counted k);
    workers = a.workers;
    empty = λ e. absurd (no_middle [] rest j (sym e ∙ here));
  }
  Step-Accounts z (finish x front back j r here) t a =
      let done : Entry = record { key = job_key s j; sample = r } in
      record {
        log = done ∷ a.log;
        lost = a.lost;
        logged = a.logged;
        counted = λ k. omega (
          arith,
          ap (count k) here,
          count-middle k front back j,
          length-results_for k done a.log,
          a.counted k,
        );
        workers = a.workers;
        empty = a.empty;
      }
  Step-Accounts z (crash x front back j here) t a = record {
    log = a.log;
    lost = j ∷ a.lost;
    logged = a.logged;
    counted = λ k. omega (arith, ap (count k) here, count-middle k front back j, a.counted k);
    workers = elim a.workers [ inl w ↦ inl (omega (arith, w)) | inr e ↦ inr e ];
    empty = a.empty;
  }
  Step-Accounts z (cancel x before) t a = unchanged x _ z refl refl refl refl a
  Step-Accounts z (stop x front back j here ended) t a = unchanged x _ z refl refl refl refl a
  Step-Accounts z (panic x front back j int63n here now) t a = unchanged x _ z refl refl refl refl a
  Step-Accounts z (close x none_left before) t a = unchanged x _ z refl refl refl refl a
  Step-Accounts z (leave x shut empty free) t a = record {
    log = a.log;
    lost = a.lost;
    logged = a.logged;
    counted = a.counted;
    workers = inr (a.empty empty);
    empty = a.empty;
  }

  Step-tickers : {x y : State Prober} → Step s x y → x.tickers ≡ [] → y.tickers ≡ []
  Step-tickers (tick x front back j int63n wait here waits room) t = t
  Step-tickers (take x rest j here room) t = t
  Step-tickers (finish x front back j r here) t = t
  Step-tickers (crash x front back j here) t = t
  Step-tickers (cancel x before) t = t
  Step-tickers (stop x front back j here ended) t = absurd (no_middle front back j (sym t ∙ here))
  Step-tickers (panic x front back j int63n here now) t =
      absurd (no_middle front back j (sym t ∙ here))
  Step-tickers (close x none_left before) t = t
  Step-tickers (leave x shut empty free) t = t

  pub Steps-Accounts :
      (n : ℕ) {x z : State Prober}
      → Steps s n x z
      → x.tickers ≡ []
      → (n + left z ≤ left x) × (z.tickers ≡ []) × Accounts x z
  Steps-Accounts n (idle x) t = (
    omega arith,
    t,
    record {
      log = [];
      lost = [];
      logged = refl;
      counted = λ k. omega arith;
      workers = inl (omega arith);
      empty = λ e. e;
    },
  )
  Steps-Accounts (suc n) (more _ x y z step rest) t =
      let (fewer, none_left, a) = Steps-Accounts n rest (Step-tickers step t) in
      (omega (arith, fewer, Step-left step t), none_left, Step-Accounts z step t a)
