-- ===== src/Scheduler/Drain.antt =====
-- How `Run` ends: what the workers still do when no ticker is left.
pub mod Accounts
use mesh_checker.Base.{
  ℕ, zero, suc, refl, ap, ◌⊎◌, inl, inr, ◌+◌, ◌≤◌, ◌≡◌, true, List, [], ◌∷◌, length, Bool-cases,
  arith,
}
use mesh_checker.Probe.{zero_result}
use mesh_checker.Store.{Key}
use mesh_checker.Store.History.{Entry, append_all, results_for}
use mesh_checker.Scheduler.{Job, Scheduler, State, Step, take, finish, close, leave}
use Accounts.{Steps, left, count, Steps-Accounts}

module _ {Prober : Type 0} (s : Scheduler Prober) where
  -- A further step is possible.
  abbrev pub CanStep : State Prober → Type 0
  CanStep z = (y : State Prober) × Step s z y

  -- Where no ticker is left, a step is possible or `Run` returns.
  next_step :
      (z : State Prober) (queue running : List (Job Prober)) (workers : ℕ)
      → z.queue ≡ queue
      → z.running ≡ running
      → z.workers ≡ workers
      → z.tickers ≡ []
      → CanStep z ⊎ ((z.closed ≡ true) × (z.running ≡ []) × (z.workers ≡ 0))
  next_step z queue (j ∷ rest) workers q r w t = inl (_, finish z [] rest j zero_result r)
  next_step z (j ∷ rest) [] (suc n) q r w t =
      inl (_, take z rest j q (omega (arith, ap length r, w)))
  next_step z [] [] (suc n) q r w t = elim (Bool-cases z.closed) [
    | inr before ↦ inl (_, close z t before)
    | inl shut ↦ inl (_, leave z shut q (omega (arith, ap length r, w)))
  ]
  next_step z queue [] zero q r w t = elim (Bool-cases z.closed) [
    | inr before ↦ inl (_, close z t before)
    | inl shut ↦ inr (shut, r, w)
  ]

  -- A state `z` in which `Run` returns, and what became of the jobs that `x` held: the results of
  -- the log were stored, the lost ones fell to a panic, and none is left unless there were as many
  -- panics as workers.
  pub record Returned (x z : State Prober) : Type 0 where
    pub closed : z.closed ≡ true
    pub no_worker : z.workers ≡ 0
    pub log : List Entry
    pub lost : List (Job Prober)
    pub logged : z.store ≡ append_all x.store log
    pub counted :
        (k : Key)
        → count s k x.queue + count s k x.running
          ≡ count s k z.queue + length (results_for k log) + count s k lost
    pub worked_off : (z.queue ≡ []) ⊎ (x.workers ≤ length lost)

  -- When no ticker is left, every sequence of steps is at most as long as `left` says, and at its end
  -- a further step is possible or `Run` returns: the channel is closed and no worker is left. Then,
  -- for each key, each job that was queued or held has had its result stored, fell to a panic of its
  -- probe, or is still queued, and the last only if there were at least as many panics as workers.
  pub Steps-returns :
      (n : ℕ) {x z : State Prober}
      → x.tickers ≡ []
      → Steps s n x z
      → (n ≤ left s x) × (CanStep z ⊎ Returned x z)
  Steps-returns n {x} {z} t run =
      let (bound, none_left, a) = Steps-Accounts s n run t in
      (
        omega (arith, bound),
        elim (next_step z z.queue z.running z.workers refl refl refl none_left) [
          | inl step ↦ inl step
          | inr (shut, no_running, no_worker) ↦ inr (record {
            closed = shut;
            no_worker = no_worker;
            log = a.log;
            lost = a.lost;
            logged = a.logged;
            counted = λ k. omega (arith, a.counted k, ap (count s k) no_running);
            worked_off = elim a.workers [
              | inl w ↦ inr (omega (arith, w, no_worker))
              | inr e ↦ inl e
            ];
          })
        ],
      )
