-- ===== src/Scheduler.antt =====
-- internal/pkg/scheduler/scheduler.go: tickers that put jobs on a channel, and workers that take
-- them, probe, and append the result to the store. The goroutines interleave, so a run is a
-- sequence of steps of the shared state.
pub mod Drain
pub mod Next
pub mod Runs
pub mod Silent
use mesh_checker.Base.{
  ℕ, ◌<◌, ◌-◌, Option, none, some, Bool, true, false, ◌≡◌, List, [], ◌∷◌, ◌++◌, length,
  if◌then◌else◌,
}
use mesh_checker.Base.Int.{ℤ, pos, pos_part, ltb_ℤ}
use mesh_checker.Base.Dict.{contains}
use mesh_checker.Probe.{Protocol, Result, Target, Duration}
use mesh_checker.Scheduler.Next.{Config, next}
use mesh_checker.Base.{Text}
use mesh_checker.Store.{Key, Store, append}

-- `Prober` stands for the probers, which the scheduler only calls.
pub record Job (Prober : Type 0) : Type 0 where
  pub peer : Text
  pub protocol : Protocol
  pub target : Target
  pub prober : Prober

pub record Scheduler (Prober : Type 0) : Type 0 where
  pub cfg : Config
  pub jobs : List (Job Prober)
  pub store : Store

-- `New`
unfoldable pub new_scheduler :
    {Prober : Type 0} → Config → List (Job Prober) → Store → Scheduler Prober
new_scheduler cfg jobs st = record {
  cfg = if ltb_ℤ cfg.workers (pos 1) then record cfg { workers = pos 1 } else cfg;
  jobs = jobs;
  store = st;
}

-- What the goroutines share: the channel, the jobs that workers hold, the store, how many workers
-- there still are, the jobs whose tickers still run, and whether the context has ended and the
-- channel is closed.
pub record State (Prober : Type 0) : Type 0 where
  pub queue : List (Job Prober)
  pub running : List (Job Prober)
  pub store : Store
  pub workers : ℕ
  pub tickers : List (Job Prober)
  pub cancelled : Bool
  pub closed : Bool

unfoldable pub start : {Prober : Type 0} → Scheduler Prober → State Prober
start s = record {
  queue = [];
  running = [];
  store = s.store;
  workers = pos_part s.cfg.workers;
  tickers = s.jobs;
  cancelled = false;
  closed = false;
}

-- The channel holds as many jobs as there are, and a ticker waits while it is full. A ticker whose
-- wait has passed may still send after the end of the context, or stop; it also stops by a panic of
-- `next`. When no ticker is left the channel is closed, and a worker leaves when it is closed and
-- empty; `Run` returns when no worker is left. A worker holds one job at a time, and its probe may
-- give any result at any time. A panic of a probe is recovered around the worker's loop and not in
-- it, so the worker ends.
pub data Step {Prober : Type 0} (s : Scheduler Prober) : State Prober → State Prober → Type 0 where
  tick :
      (x : State Prober) (front back : List (Job Prober)) (j : Job Prober) (int63n : ℤ → ℤ)
      (wait : Duration)
      → x.tickers ≡ front ++ (j ∷ back)
      → next s.cfg int63n ≡ some wait
      → length x.queue < length s.jobs
      → Step s x (record x { queue = x.queue ++ (j ∷ []) })
  take :
      (x : State Prober) (rest : List (Job Prober)) (j : Job Prober)
      → x.queue ≡ j ∷ rest
      → length x.running < x.workers
      → Step s x (record x { queue = rest; running = j ∷ x.running })
  finish :
      (x : State Prober) (front back : List (Job Prober)) (j : Job Prober) (r : Result)
      → x.running ≡ front ++ (j ∷ back)
      → Step s x (record x { running = front ++ back; store = append x.store j.peer j.protocol r })
  crash :
      (x : State Prober) (front back : List (Job Prober)) (j : Job Prober)
      → x.running ≡ front ++ (j ∷ back)
      → Step s x (record x { running = front ++ back; workers = x.workers - 1 })
  cancel : (x : State Prober) → x.cancelled ≡ false → Step s x (record x { cancelled = true })
  stop :
      (x : State Prober) (front back : List (Job Prober)) (j : Job Prober)
      → x.tickers ≡ front ++ (j ∷ back)
      → x.cancelled ≡ true
      → Step s x (record x { tickers = front ++ back })
  panic :
      (x : State Prober) (front back : List (Job Prober)) (j : Job Prober) (int63n : ℤ → ℤ)
      → x.tickers ≡ front ++ (j ∷ back)
      → next s.cfg int63n ≡ none
      → Step s x (record x { tickers = front ++ back })
  close :
      (x : State Prober) → x.tickers ≡ [] → x.closed ≡ false → Step s x (record x { closed = true })
  leave :
      (x : State Prober)
      → x.closed ≡ true
      → x.queue ≡ []
      → length x.running < x.workers
      → Step s x (record x { workers = x.workers - 1 })

-- The states that a run comes to.
pub data Reaches {Prober : Type 0} (s : Scheduler Prober) : State Prober → Type 0 where
  begin : Reaches s (start s)
  after : (x y : State Prober) → Reaches s x → Step s x y → Reaches s y
