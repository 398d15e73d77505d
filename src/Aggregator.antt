-- ===== src/Aggregator.antt =====
-- internal/pkg/aggregator/aggregator.go: this node's view of the mesh, and the merged view.
pub mod Local
pub mod Merge
pub mod Starved
use mesh_checker.Base.{
  ◌≡◌, Bool, true, false, Option, none, some, List, [], ◌∷◌, Text, text_eq, Fallible, ok, err,
  if◌then◌else◌,
}
use mesh_checker.Base.Int.{ℤ}
use mesh_checker.Base.Dict
use mesh_checker.Base.Dict.{Dict}
use mesh_checker.Probe.{Protocol, Result, Time}
use mesh_checker.Classifier.{State, classify}
use mesh_checker.Store.{Store, Key, snapshot_of, keys}

-- `LastTS` is `none` for Go's zero time.
pub record Sample : Type 0 where
  pub state : State
  pub last_ts : Option Time

abbrev pub Samples : Type 0
Samples = Dict Text (Dict Protocol Sample)

pub record ObserverView : Type 0 where
  pub host : Text
  pub samples : Samples
  pub reachable : Bool
  pub reason : Text

-- `Observers` of the merged view; `GeneratedAt` is the clock.
abbrev pub Observers : Type 0
Observers = Dict Text ObserverView

pub record Aggregator : Type 0 where
  pub store : Store
  pub local_host : Text
  pub peers : List Text
  pub window : ℤ
  pub threshold : ℤ

-- The timestamp of the last sample.
abbrev pub last_timestamp : Option Time → List Result → Option Time
last_timestamp ts [] = ts
last_timestamp ts (r ∷ rs) = last_timestamp (some r.timestamp) rs

-- A nil inner map is replaced by a fresh one.
abbrev pub or_empty : Option (Dict Protocol Sample) → Dict Protocol Sample
or_empty none = []
or_empty (some d) = d

unfoldable pub set_sample : Samples → Key → Sample → Samples
set_sample view k sample =
    Dict.insert k.peer (Dict.insert k.protocol sample (or_empty (Dict.lookup k.peer view))) view

-- The loop of `localView` over the keys. `none` is a panic in `Classify`.
unfoldable pub add_samples : Aggregator → List Key → Samples → Option Samples
add_samples a [] view = some view
add_samples a (k ∷ ks) view =
    let samples = snapshot_of a.store k.peer k.protocol in
    elim (classify samples a.window a.threshold) [
      | none ↦ none
      | some state ↦
          add_samples a ks
            (set_sample view k (record { state = state; last_ts = last_timestamp none samples }))
    ]

abbrev pub view_of_samples : Text → Option Samples → Option ObserverView
view_of_samples host none = none
view_of_samples host (some samples) =
    some (record { host = host; samples = samples; reachable = true; reason = [] })

-- `localView`, and `LocalView`, which calls it.
unfoldable pub local_view : Aggregator → Option ObserverView
unfolding add_samples set_sample
local_view a = view_of_samples a.local_host (add_samples a (keys a.store) [])

-- What a finished fetch writes into the observers; a fetch that panicked, and was recovered, writes
-- nothing.
abbrev pub fetched : Text → Option (Fallible Text ObserverView) → Option ObserverView
fetched p none = none
fetched p (some (ok v)) = some (record v { reachable = true })
fetched p (some (err e)) = some (record { host = p; samples = []; reachable = false; reason = e })

abbrev pub write : Text → Option ObserverView → Observers → Observers
write p none mv = mv
write p (some v) mv = Dict.insert p v mv

-- The fetches write under a lock, in the order in which they finish.
unfoldable pub collect :
    (Text → Option (Fallible Text ObserverView)) → List Text → Observers → Observers
collect fetch [] mv = mv
collect fetch (p ∷ finished) mv = collect fetch finished (write p (fetched p (fetch p)) mv)

-- `Aggregate`: `finished` lists the peers in the order in which their fetches finish.
unfoldable pub aggregate :
    Aggregator → (Text → Option (Fallible Text ObserverView)) → List Text → Option Observers
unfolding collect
aggregate a fetch finished = elim (local_view a) [
  | none ↦ none
  | some v ↦ some (collect fetch finished (Dict.insert a.local_host v []))
]
