-- ===== src/Aggregator/Local.antt =====
-- The local view against the store.
use mesh_checker.Base.{
  ◌≡◌, ◌≢◌, refl, ap, ◌∙◌, inl, inr, true, Option, none, some, List, [], ◌∷◌, text_eq,
  if◌then◌else◌, ◌==◌, arith, Option-cases, if_pos, if_neg,
}
use mesh_checker.Base.Int.{pos, ◌≤ℤ◌}
use mesh_checker.Base.Dict
use mesh_checker.Base.Dict.{contains}
use mesh_checker.Probe.{Result}
use mesh_checker.Classifier.{State, classify}
use mesh_checker.Classifier.Laws.{classify_panics}
use mesh_checker.Store.{Key, key_eq, key_test, snapshot_of, keys}
use mesh_checker.Aggregator.{
  Aggregator, ObserverView, Sample, Samples, last_timestamp, or_empty, set_sample, add_samples,
  local_view, view_of_samples,
}

-- The entry of a key in the two maps.
abbrev pub sample_at : Key → Samples → Option Sample
sample_at k view = Dict.lookup k.protocol (or_empty (Dict.lookup k.peer view))

sample_at-set_sample :
    (j k : Key) (view : Samples) (x : Sample)
    → sample_at j (set_sample view k x) ≡ (if j == k then some x else sample_at j view)
unfolding set_sample
sample_at-set_sample j k view x =
    rw (key_test j k, Dict.lookup-insert j.peer k.peer)
      (elim (text_eq.dec j.peer k.peer) [
        | yes e ↦ rw (if_pos _ e, Dict.lookup-insert j.protocol k.protocol) (ground (arith, e))
        | no n ↦ rw (if_neg _ n) refl
      ])

-- The entry that the samples of a key make.
abbrev pub sample_of : Aggregator → List Result → Option Sample
sample_of a rs = elim (classify rs a.window a.threshold) [
  | none ↦ none
  | some state ↦ some (record { state = state; last_ts = last_timestamp none rs })
]

abbrev pub stored : Aggregator → Key → List Result
stored a k = snapshot_of a.store k.peer k.protocol

add_samples-cons :
    (a : Aggregator) (k : Key) (ks : List Key) (view : Samples) (state : State)
    → classify (stored a k) a.window a.threshold ≡ some state
    → add_samples a (k ∷ ks) view
      ≡ add_samples a ks
          (set_sample view k (record { state = state; last_ts = last_timestamp none (stored a k) }))
unfolding add_samples
add_samples-cons a k ks view state e = rw (e, add_samples) refl

merge_step :
    (F : Key → Option Sample) (j k : Key) (ks : List Key) (view : Samples) (x : Sample)
    → F k ≡ some x
    → (if contains j ks then F j else sample_at j (set_sample view k x))
      ≡ (if contains j (k ∷ ks) then F j else sample_at j view)
merge_step F j k ks view x e = elim (key_eq.dec j k) [
  | yes p ↦ rw (sample_at-set_sample j k view x, if_pos _ p, p, e) (ground arith)
  | no n ↦ rw (sample_at-set_sample j k view x, if_neg _ n) refl
]

add_samples_lem :
    (a : Aggregator) (ks : List Key) (view : Samples)
    → ((rs : List Result) → classify rs a.window a.threshold ≢ none)
    → (v : Samples) × (add_samples a ks view ≡ some v)
      × ((j : Key)
          → sample_at j v ≡ (if contains j ks then sample_of a (stored a j) else sample_at j view))
unfolding add_samples
add_samples_lem a [] view total = (view, refl, λ j. refl)
add_samples_lem a (k ∷ ks) view total =
    elim (Option-cases (classify (stored a k) a.window a.threshold)) [
      | inl q ↦ absurd (total (stored a k) q)
      | inr (state, q) ↦
          let x : Sample = record { state = state; last_ts = last_timestamp none (stored a k) } in
          let (v, e, at) = add_samples_lem a ks (set_sample view k x) total in
          (
            v,
            add_samples-cons a k ks view state q ∙ e,
            λ j.
                at j
                ∙ merge_step (λ i. sample_of a (stored a i)) j k ks view x (rw (q, sample_of) refl),
          )
    ]

-- With a window that is not negative there is a local view, marked as reachable, and it shows for
-- each stored key the state of its samples with the instant of the last one, and nothing else.
pub local_view_lem :
    (a : Aggregator)
    → pos 0 ≤ℤ a.window
    → (v : ObserverView) × (local_view a ≡ some v)
      × (v.host ≡ a.local_host)
      × (v.reachable ≡ true)
      × ((k : Key)
          → sample_at k v.samples
            ≡ (if contains k (keys a.store) then sample_of a (stored a k) else none))
unfolding local_view Dict.lookup
local_view_lem a h =
    let (v, e, at) = add_samples_lem a (keys a.store) [] total in
    (
      record { host = a.local_host; samples = v; reachable = true; reason = [] },
      ap (view_of_samples a.local_host) e,
      refl,
      refl,
      at,
    )
  where
    total : (rs : List Result) → classify rs a.window a.threshold ≢ none
    total rs e = absurd (negative rs e)
      where
        negative : (rs : List Result) → classify rs a.window a.threshold ≡ none → ⊥
        negative rs e = omega (arith, (classify_panics rs a.window a.threshold).0 e)
