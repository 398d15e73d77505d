-- ===== src/Scheduler/Next.antt =====
-- internal/pkg/scheduler/scheduler.go, `next`: how long a ticker waits. Durations are int64, so each
-- product, sum and difference keeps 64 bits.
pub mod Bounds
use mesh_checker.Base.{Bool, true, false, Option, none, some, nat_eq, ◌==◌, if◌then◌else◌}
use mesh_checker.Base.Int.{ℤ, pos, negsuc, ◌+ℤ◌, ◌-ℤ◌, ◌*ℤ◌, trunc_div, wrap_int64, ltb_ℤ, leb_ℤ}
use mesh_checker.Probe.{Duration}

pub record Config : Type 0 where
  pub interval : Duration
  pub jitter_percent : ℤ
  pub workers : ℤ
  pub timeout : Duration

-- `delta == 0`
abbrev pub is_zero : ℤ → Bool
is_zero (pos n) = n == 0
is_zero (negsuc n) = false

unfoldable pub delta : Config → Duration
delta cfg = trunc_div (wrap_int64 (cfg.interval *ℤ cfg.jitter_percent)) 100

-- `2*delta + 1`
unfoldable pub spread : Duration → ℤ
spread d = wrap_int64 (wrap_int64 (pos 2 *ℤ d) +ℤ pos 1)

-- `none` is the panic of `rand.Int63n` for an argument that is not positive.
unfoldable pub next : Config → (ℤ → ℤ) → Option Duration
unfolding nat_eq
next cfg int63n =
    let d = delta cfg in
    let n = spread d in
    if leb_ℤ cfg.jitter_percent (pos 0)
    then some cfg.interval
    else if is_zero d
    then some cfg.interval
    else if ltb_ℤ (pos 0) n
    then some (wrap_int64 (cfg.interval +ℤ wrap_int64 (int63n n -ℤ d)))
    else none
