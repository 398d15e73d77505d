-- ===== src/Scheduler/Silent.antt =====
-- A scheduler whose `next` panics: every ticker is recovered and ends, and nothing is probed.
use mesh_checker.Base.{
  some-none, ℕ, zero, suc, ◌*◌, ◌/◌, ◌-◌, ◌^◌, ◌+◌, true, ap, length, length-append, ◌≤◌, ◌<◌, ◌≡◌,
  ◌≢◌, refl, sym, ◌∙◌, none, List, [], ◌∷◌, ◌++◌, arith,
}
use mesh_checker.Base.Int.{
  ℤ, pos, negsuc, ◌+ℤ◌, ◌*ℤ◌, wrap_int64, wrap_int64_id, trunc_div, *ℤ_neg, leb_ℤ, int_laws,
}
use mesh_checker.Scheduler.{
  Scheduler, State, Step, tick, take, finish, crash, cancel, stop, panic, close, leave, start,
  Reaches, begin, after,
}
use mesh_checker.Scheduler.Next.{Config, delta, spread, next}

no_middle : {A : Type 0} (front back : List A) (a : A) → [] ≢ front ++ (a ∷ back)
no_middle front back a e = absurd (omega (arith, length-append front (a ∷ back), ap length e))

wrap_neg : (n : ℕ) → n < 2 ^ 63 → wrap_int64 (negsuc n) ≡ negsuc n
wrap_neg n h = wrap_int64_id (negsuc n) (omega arith) (omega arith)

delta-neg :
    (cfg : Config) (b j : ℕ)
    → cfg.interval ≡ negsuc b
    → cfg.jitter_percent ≡ pos j
    → 100 ≤ suc b * j
    → suc b * j < 2 ^ 62
    → 0 < j
    → delta cfg ≡ negsuc (suc b * j / 100 - 1)
unfolding delta trunc_div
delta-neg cfg b j p q some_share small positive =
    rw (delta, p, q, *ℤ_neg b j positive, wrap_neg (suc b * j - 1) (omega (arith, small)))
      (ground (arith, some_share))

spread-neg : (d : ℕ) → d < 2 ^ 61 → leb_ℤ (spread (negsuc d)) (pos 0) ≡ true
unfolding spread ◌*ℤ◌
spread-neg d small =
    let twice : pos 2 *ℤ negsuc d ≡ negsuc (2 * d + 1) = ground arith in
    let next_up : negsuc (2 * d + 1) +ℤ pos 1 ≡ negsuc (2 * d) = omega int_laws in
    rw (spread, twice, wrap_neg (2 * d + 1) (omega arith), next_up, wrap_neg (2 * d) (omega arith))
      (ground arith)

-- A negative interval of which the jitter takes some share: `rand.Int63n` gets an argument that is
-- not positive.
next-none :
    (cfg : Config) (b j : ℕ)
    → cfg.interval ≡ negsuc b
    → cfg.jitter_percent ≡ pos j
    → 100 ≤ suc b * j
    → suc b * j < 2 ^ 62
    → (int63n : ℤ → ℤ) → next cfg int63n ≡ none
unfolding next
next-none cfg b zero p q some_share small int63n = absurd (omega (arith, some_share))
next-none cfg b (suc j) p q some_share small int63n =
    let d = suc b * suc j / 100 - 1 in
    let delta_eq = delta-neg cfg b (suc j) p q some_share small (omega arith) in
    let no_range = spread-neg d (omega (arith, small)) in
    simp (next, q, delta_eq) (ground (arith, no_range))

module _ {Prober : Type 0} (s : Scheduler Prober) where
  -- Nothing is queued or held, and the store is the first one.
  abbrev pub IsIdle : State Prober → Type 0
  IsIdle x = (x.queue ≡ []) × (x.running ≡ []) × (x.store ≡ s.store)

  Step-IsIdle :
      {x y : State Prober}
      → ((int63n : ℤ → ℤ) → next s.cfg int63n ≡ none)
      → Step s x y
      → IsIdle x
      → IsIdle y
  Step-IsIdle panics (tick x front back j int63n wait here waits room) i =
      absurd (some-none wait (sym waits ∙ panics int63n))
  Step-IsIdle panics (take x rest j here room) i = absurd (no_middle [] rest j (sym i.0 ∙ here))
  Step-IsIdle panics (finish x front back j sample here) i =
      absurd (no_middle front back j (sym i.1 ∙ here))
  Step-IsIdle panics (crash x front back j here) i =
      absurd (no_middle front back j (sym i.1 ∙ here))
  Step-IsIdle panics (cancel x before) i = i
  Step-IsIdle panics (stop x front back j here ended) i = i
  Step-IsIdle panics (panic x front back j int63n here now) i = i
  Step-IsIdle panics (close x none_left before) i = i
  Step-IsIdle panics (leave x shut empty free) i = i

  Reaches-IsIdle :
      {x : State Prober} → ((int63n : ℤ → ℤ) → next s.cfg int63n ≡ none) → Reaches s x → IsIdle x
  unfolding start
  Reaches-IsIdle panics begin = (refl, refl, refl)
  Reaches-IsIdle panics (after x y reached step) =
      Step-IsIdle panics step (Reaches-IsIdle panics reached)

  -- With a negative interval of which the jitter takes at least a nanosecond, and products that fit
  -- into 62 bits, nothing is ever queued, probed or stored: each ticker panics before its first
  -- tick, and ends.
  pub silent :
      (b j : ℕ) {x : State Prober}
      → s.cfg.interval ≡ negsuc b
      → s.cfg.jitter_percent ≡ pos j
      → 100 ≤ suc b * j
      → suc b * j < 2 ^ 62
      → Reaches s x
      → IsIdle x
  silent b j p q some_share small reached =
      Reaches-IsIdle (next-none s.cfg b j p q some_share small) reached
