-- ===== src/Scheduler/Next/Bounds.antt =====
-- The waiting time of a ticker lies around the interval; a negative interval has none.
use mesh_checker.Base.{
  ℕ, ◌+◌, ◌-◌, ◌*◌, ◌/◌, ◌^◌, ◌≤◌, ◌<◌, ◌≡◌, refl, ap, sym, ◌∙◌, Bool, true, false, ◌||◌, some,
  nat_eq, arith, inl, inr, Bool-cases,
}
use mesh_checker.Base.Int.{
  ℤ, pos, ◌+ℤ◌, ◌-ℤ◌, trunc_div, wrap_int64, wrap_int64_id, *ℤ_pos, leb_ℤ, ◌≤ℤ◌, ◌<ℤ◌, int_laws,
  +ℤ_pos,
}
use mesh_checker.Probe.{Duration}
use mesh_checker.Scheduler.Next.{Config, is_zero, delta, spread, next}

or_left : (a b : Bool) → (a || b) ≡ false → a ≡ false
or_left a b e = ground arith

or_right : (a b : Bool) → (a || b) ≡ false → b ≡ false
or_right a b e = ground arith

-- What `rand.Int63n` documents: a number below its argument, if that is positive.
abbrev pub DrawsBelow : (ℤ → ℤ) → Type 0
DrawsBelow int63n = (n : ℤ) → pos 0 <ℤ n → (pos 0 ≤ℤ int63n n) × (int63n n <ℤ n)

mul_percent : (b j : ℕ) → j ≤ 100 → b * j ≤ b * 100
mul_percent b j h = grind arith

wrap_pos : (n : ℕ) → n < 2 ^ 63 → wrap_int64 (pos n) ≡ pos n
wrap_pos n h = wrap_int64_id (pos n) (omega arith) (omega arith)

-- The share of the interval that the jitter may add or take.
abbrev pub share : ℕ → ℕ → ℕ
share b j = b * j / 100

delta-pos :
    (cfg : Config) (b j : ℕ)
    → cfg.interval ≡ pos b
    → cfg.jitter_percent ≡ pos j
    → b * j < 2 ^ 63
    → delta cfg ≡ pos (share b j)
unfolding delta trunc_div
delta-pos cfg b j p q small = rw (delta, p, q, *ℤ_pos b j, wrap_pos (b * j) small) refl

spread-pos : (d : ℕ) → d < 2 ^ 61 → spread (pos d) ≡ pos (2 * d + 1)
unfolding spread
spread-pos d small =
    rw (spread, *ℤ_pos 2 d, wrap_pos (2 * d) (omega arith), +ℤ_pos (2 * d) 1)
      (wrap_pos (2 * d + 1) (omega arith))

-- The wait that a draw gives: at most `d` away from the interval.
drawn_bounds :
    (b d : ℕ) (z : ℤ)
    → b < 2 ^ 60
    → d ≤ b
    → pos 0 ≤ℤ z
    → z <ℤ pos (2 * d + 1)
    → let w = wrap_int64 (pos b +ℤ wrap_int64 (z -ℤ pos d)) in
      (pos (b - d) ≤ℤ w) × (w ≤ℤ pos (b + d))
drawn_bounds b d z small share_le lo hi =
    let inner : wrap_int64 (z -ℤ pos d) ≡ z -ℤ pos d =
      wrap_int64_id (z -ℤ pos d) (omega int_laws) (omega int_laws) in
    let outer : wrap_int64 (pos b +ℤ (z -ℤ pos d)) ≡ pos b +ℤ (z -ℤ pos d) =
      wrap_int64_id (pos b +ℤ (z -ℤ pos d)) (omega int_laws) (omega int_laws) in
    rw (inner, outer) (omega int_laws, omega int_laws)

-- Without a jitter, or with one that rounds to nothing, the wait is the interval.
next_still :
    (cfg : Config) (int63n : ℤ → ℤ)
    → (leb_ℤ cfg.jitter_percent (pos 0) || is_zero (delta cfg)) ≡ true
    → next cfg int63n ≡ some cfg.interval
unfolding next
next_still cfg int63n e = ground arith

next_drawn :
    (cfg : Config) (int63n : ℤ → ℤ) (b d : ℕ)
    → cfg.interval ≡ pos b
    → delta cfg ≡ pos d
    → spread (pos d) ≡ pos (2 * d + 1)
    → (leb_ℤ cfg.jitter_percent (pos 0) || is_zero (delta cfg)) ≡ false
    → next cfg int63n ≡ some (wrap_int64 (pos b +ℤ wrap_int64 (int63n (pos (2 * d + 1)) -ℤ pos d)))
unfolding next
next_drawn cfg int63n b d p delta_eq spread_eq e =
    let jitter = or_left (leb_ℤ cfg.jitter_percent (pos 0)) (is_zero (delta cfg)) e in
    let some_delta : is_zero (pos d) ≡ false =
      sym (ap is_zero delta_eq)
      ∙ or_right (leb_ℤ cfg.jitter_percent (pos 0)) (is_zero (delta cfg)) e in
    simp (next, jitter, delta_eq, spread_eq, p) (ground (arith, some_delta))

-- For an interval below 2^56 nanoseconds, which is more than two years, and a jitter from 0 to 100
-- percent, `next` does not panic, and the wait differs from the interval by at most that share of
-- it; so it is never negative.
pub next_bounds :
    (cfg : Config) (int63n : ℤ → ℤ) (b j : ℕ)
    → DrawsBelow int63n
    → cfg.interval ≡ pos b
    → cfg.jitter_percent ≡ pos j
    → b < 2 ^ 56
    → j ≤ 100
    → (d : Duration) × (next cfg int63n ≡ some d)
      × (pos (b - share b j) ≤ℤ d)
      × (d ≤ℤ pos (b + share b j))
next_bounds cfg int63n b j draws p q small percent =
    let product : b * j ≤ b * 100 = mul_percent b j percent in
    let d = share b j in
    let d_le : d ≤ b = omega (arith, product) in
    let delta_eq = delta-pos cfg b j p q (omega (arith, product)) in
    let spread_eq = spread-pos d (omega (arith, d_le)) in
    elim (Bool-cases (leb_ℤ cfg.jitter_percent (pos 0) || is_zero (delta cfg))) [
      | inl e ↦ (pos b, next_still cfg int63n e ∙ ap some p, omega arith, omega arith)
      | inr e ↦
          let z = int63n (pos (2 * d + 1)) in
          let (lo, hi) = draws (pos (2 * d + 1)) (omega arith) in
          let (lo', hi') = drawn_bounds b d z (omega arith) d_le lo hi in
          (
            wrap_int64 (pos b +ℤ wrap_int64 (z -ℤ pos d)),
            next_drawn cfg int63n b d p delta_eq spread_eq e,
            lo',
            hi',
          )
    ]
