-- ===== src/Aggregator/Starved.antt =====
-- The local view as a function of the probes that were recorded.
use mathlib.Core.List.{cons-ne-nil}
use mathlib.Core.Bool.{true≢false}
use mesh_checker.Base.{
  ℕ, ◌<◌, ◌≡◌, ◌≢◌, refl, ap, sym, ◌∙◌, ◌↔◌, Bool, true, false, Option, none, some, List, [], ◌∷◌,
  subst, if◌then◌else◌, arith, length, trailing, length-trailing,
}
use mesh_checker.Base.Int.{ℤ, pos, ◌≤ℤ◌}
use mesh_checker.Base.Dict.{contains}
use mesh_checker.Probe.{Result}
use mesh_checker.Classifier.{unknown, classify}
use mesh_checker.Classifier.Laws.{classify_states}
use mesh_checker.Store.{Key, key_eq, new, keys, snapshot_of}
use mesh_checker.Store.History.{
  Entry, append_all, results_for, capacity, snapshot_of-append_all, keys-append_all,
}
use mesh_checker.Aggregator.{Aggregator, ObserverView, Sample, local_view}
use mesh_checker.Aggregator.Local.{sample_at, sample_of, stored, local_view_lem}

-- What the store holds for a key, and whether it is listed.
stored_lem :
    (a : Aggregator) (c : ℤ) (log : List Entry) (k : Key)
    → a.store ≡ append_all (new c) log
    → (stored a k ≡ trailing (capacity c) (results_for k log))
      × ((contains k (keys a.store) ≡ true) ↔ (results_for k log ≢ []))
stored_lem a c log k made = (
  ap (λ st. snapshot_of st k.peer k.protocol) made ∙ snapshot_of-append_all c log k.peer k.protocol,
  rw made ((keys-append_all c log).1 k),
)

-- What the results of a key show: nothing if there are none.
abbrev pub sample_for : Aggregator → ℕ → List Result → Option Sample
sample_for a n [] = none
sample_for a n (r ∷ rs) = sample_of a (trailing n (r ∷ rs))

sample_for-listed :
    (a : Aggregator) (n : ℕ) (b : Bool) (rs : List Result)
    → (b ≡ true) ↔ (rs ≢ [])
    → (if b then sample_of a (trailing n rs) else none) ≡ sample_for a n rs
sample_for-listed a n true [] l = absurd (l.0 refl refl)
sample_for-listed a n true (r ∷ rs) l = refl
sample_for-listed a n false [] l = refl
sample_for-listed a n false (r ∷ rs) l = absurd (true≢false (sym (l.1 (cons-ne-nil r rs))))

-- With a window that is not negative and a store that started empty, the local view shows for each
-- key for which probes were recorded the state of its last samples, as many as the ring holds, and
-- nothing for other keys.
pub local_view-append_all :
    (a : Aggregator) (c : ℤ) (log : List Entry)
    → a.store ≡ append_all (new c) log
    → pos 0 ≤ℤ a.window
    → (v : ObserverView) × (local_view a ≡ some v)
      × ((k : Key) → sample_at k v.samples ≡ sample_for a (capacity c) (results_for k log))
local_view-append_all a c log made h =
    let (v, e, _, _, at) = local_view_lem a h in
    (
      v,
      e,
      λ k.
          let (held, listed) = stored_lem a c log k made in
          at k
          ∙ (ap (λ rs. if contains k (keys a.store) then sample_of a rs else none) held
              ∙ sample_for-listed a (capacity c) (contains k (keys a.store)) (results_for k log)
                  listed),
    )

-- A sample, if there is one, has the state unknown.
abbrev pub IsUnknown : Option Sample → Type 0
IsUnknown none = Unit
IsUnknown (some x) = x.state ≡ unknown

sample_of-IsUnknown :
    (a : Aggregator) (rs : List Result)
    → classify rs a.window a.threshold ≡ some unknown
    → IsUnknown (sample_of a rs)
sample_of-IsUnknown a rs q = rw (sample_of, q) refl

if-IsUnknown : (b : Bool) (o : Option Sample) → IsUnknown o → IsUnknown (if b then o else none)
if-IsUnknown true o h = h
if-IsUnknown false o h = tt

-- Where the rings of a store that started empty are smaller than the failure window, there is a
-- local view, and every sample of it has the state unknown, whatever the probes said and however
-- many there were.
pub starved :
    (a : Aggregator) (c : ℤ) (log : List Entry) (w : ℕ)
    → a.store ≡ append_all (new c) log
    → a.window ≡ pos w
    → capacity c < w
    → (v : ObserverView) × (local_view a ≡ some v) × ((k : Key) → IsUnknown (sample_at k v.samples))
starved a c log w made win small =
    let (v, e, _, _, at) = local_view_lem a (rw win (omega arith)) in
    (
      v,
      e,
      λ k.
          let (held, _) = stored_lem a c log k made in
          let few : length (stored a k) < w =
            rw held (omega (arith, length-trailing (capacity c) (results_for k log))) in
          let state_unknown : classify (stored a k) a.window a.threshold ≡ some unknown =
            rw win ((classify_states (stored a k) w a.threshold).0.1 few) in
          subst IsUnknown (sym (at k)) (
            if-IsUnknown (contains k (keys a.store)) (sample_of a (stored a k))
              (sample_of-IsUnknown a (stored a k) state_unknown)),
    )
