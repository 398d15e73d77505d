-- ===== src/Classifier/Laws.antt =====
-- When `Classify` returns, and which state.
use mesh_checker.Base.{
  ℕ, suc, ◌+◌, ◌-◌, ◌≤◌, ◌<◌, ◌≡◌, refl, ◌↔◌, true, none, some, List, [], ◌∷◌, ◌++◌, arith, nat_eq,
  if◌then◌else◌, length, trailing, trailing-append, length-append, All, ltb,
}
use mesh_checker.Base.Int.{ℤ, pos, negsuc, ◌-ℤ◌, ◌≤ℤ◌, ◌<ℤ◌}
use mesh_checker.Probe.{Result}
use mesh_checker.Classifier.{unknown, up, degraded, down, count_fails, decide_state, classify}

-- How many of the samples failed.
abbrev pub failures : List Result → ℕ
failures [] = 0
failures (r ∷ rs) = if r.is_ok then failures rs else suc (failures rs)

count_fails-failures : (k : ℕ) (rs : List Result) → count_fails k rs ≡ k + failures rs
count_fails-failures k [] = omega arith
count_fails-failures k (r ∷ rs) =
    ground (arith, count_fails-failures k rs, count_fails-failures (k + 1) rs)

pub failures_zero : (rs : List Result) → (failures rs ≡ 0) ↔ All (λ r. r.is_ok ≡ true) rs
failures_zero [] = (λ h. tt, λ h. refl)
failures_zero (r ∷ rs) = ground (arith, failures_zero rs)

pub failures-le-length : (rs : List Result) → failures rs ≤ length rs
failures-le-length [] = omega arith
failures-le-length (r ∷ rs) = ground (arith, failures-le-length rs)

start_lem : (n w : ℕ) → w ≤ n → pos n -ℤ pos w ≡ pos (n - w)
unfolding ◌-ℤ◌
start_lem n w h = ground arith

-- With a window that is not negative the slice is in range.
classify_lem :
    (rs : List Result) (w : ℕ) (t : ℤ)
    → classify rs (pos w) t ≡ (
        if ltb (length rs) w
        then some unknown
        else some (decide_state t (failures (trailing w rs))))
unfolding classify ◌-ℤ◌
classify_lem rs w t =
    ground (arith, count_fails-failures 0 (trailing w rs), start_lem (length rs) w)

-- `Classify` panics exactly for a negative window.
pub classify_panics : (rs : List Result) (w t : ℤ) → (classify rs w t ≡ none) ↔ (w <ℤ pos 0)
unfolding classify ◌-ℤ◌
classify_panics rs (pos n) t = ground arith
classify_panics rs (negsuc n) t = ground arith

-- The four states for a window of `w` samples, each under its exact condition on the last `w`
-- samples: too few, at least `t` failures, no failure, anything else.
pub classify_states :
    (rs : List Result) (w : ℕ) (t : ℤ)
    → let last = trailing w rs in
      ((classify rs (pos w) t ≡ some unknown) ↔ (length rs < w))
      × ((classify rs (pos w) t ≡ some down) ↔ ((w ≤ length rs) × (t ≤ℤ pos (failures last))))
      × ((classify rs (pos w) t ≡ some up)
          ↔ ((w ≤ length rs) × (pos 0 <ℤ t) × All (λ r. r.is_ok ≡ true) last))
      × ((classify rs (pos w) t ≡ some degraded)
          ↔ ((w ≤ length rs) × (0 < failures last) × (pos (failures last) <ℤ t)))
unfolding decide_state nat_eq
classify_states rs w t = rw (classify_lem rs w t) (ground (arith, failures_zero (trailing w rs)))

-- Samples older than the window do not change the state.
pub classify-append :
    (xs ys : List Result) (w : ℕ) (t : ℤ)
    → w ≤ length ys
    → classify (xs ++ ys) (pos w) t ≡ classify ys (pos w) t
classify-append xs ys w t h =
    rw (classify_lem (xs ++ ys) w t, classify_lem ys w t, trailing-append w xs ys h)
      (ground (arith, length-append xs ys))
