-- ===== src/Tests/Samples.antt =====
-- The theorems on the store, the classifier and the views, at concrete inputs.
use mesh_checker.Base.{
  ℕ, ◌≡◌, refl, ◌↔◌, true, false, Option, none, some, List, [], ◌∷◌, Text, text_eq, nat_eq, codes,
  trailing, All, Fallible, ok, err, length, ◌<◌, ◌≤◌, arith, ◌==◌, if◌then◌else◌,
}
use mesh_checker.Base.Int.{ℤ, pos, negsuc, ◌≤ℤ◌, ◌<ℤ◌}
use mesh_checker.Base.Dict
use mesh_checker.Base.Dict.{Dict, Distinct, contains}
use mesh_checker.Probe.{Result, icmp, udp}
use mesh_checker.Store.{Key, key_eq, snapshot_of, new, keys}
use mesh_checker.Store.History.{Entry, append_all, results_for, snapshot_of-append_all}
use mesh_checker.Classifier.{classify, unknown, down, up, degraded}
use mesh_checker.Classifier.Laws.{failures, classify_states, classify_panics}
use mesh_checker.Aggregator.{Aggregator, ObserverView, Observers, local_view, aggregate}
use mesh_checker.Aggregator.Local.{sample_at}
use mesh_checker.Aggregator.Merge.{shown, aggregate_lem}
use mesh_checker.Aggregator.Starved.{IsUnknown, sample_for, local_view-append_all, starved}

abbrev passed : ℕ → Result
passed n = record { timestamp = pos n; latency = pos 1; is_ok = true; error = [] }

abbrev lost : ℕ → Result
lost n = record { timestamp = pos n; latency = pos 0; is_ok = false; error = codes "timeout" }

abbrev key_b : Key
key_b = record { peer = codes "b"; protocol = icmp }

abbrev log_b : List Entry
log_b =
    record { key = key_b; sample = passed 1 }
    ∷ record { key = record { peer = codes "c"; protocol = udp }; sample = lost 2 }
    ∷ record { key = key_b; sample = lost 3 }
    ∷ record { key = key_b; sample = passed 4 }
    ∷ []

snapshot_of-append_all_example :
    snapshot_of (append_all (new (pos 2)) log_b) (codes "b") icmp ≡ lost 3 ∷ passed 4 ∷ []
unfolding key_eq text_eq nat_eq
snapshot_of-append_all_example = snapshot_of-append_all (pos 2) log_b (codes "b") icmp

classify_states_example :
    let rs = passed 1 ∷ lost 2 ∷ passed 3 ∷ [] in
    let last = trailing 2 rs in
    ((classify rs (pos 2) (pos 2) ≡ some unknown) ↔ (length rs < 2))
    × ((classify rs (pos 2) (pos 2) ≡ some down)
        ↔ ((2 ≤ length rs) × (pos 2 ≤ℤ pos (failures last))))
    × ((classify rs (pos 2) (pos 2) ≡ some up)
        ↔ ((2 ≤ length rs) × (pos 0 <ℤ pos 2) × All (λ r. r.is_ok ≡ true) last))
    × ((classify rs (pos 2) (pos 2) ≡ some degraded)
        ↔ ((2 ≤ length rs) × (0 < failures last) × (pos (failures last) <ℤ pos 2)))
classify_states_example = classify_states (passed 1 ∷ lost 2 ∷ passed 3 ∷ []) 2 (pos 2)

classify_panics_example : (classify [] (negsuc 0) (negsuc 0) ≡ none) ↔ (negsuc 0 <ℤ pos 0)
classify_panics_example = classify_panics [] (negsuc 0) (negsuc 0)

abbrev node_of : ℤ → Aggregator
node_of capacity_of = record {
  store = append_all (new capacity_of) log_b;
  local_host = codes "a";
  peers = codes "b" ∷ codes "c" ∷ [];
  window = pos 2;
  threshold = pos 2;
}

local_view-append_all_example :
    (v : ObserverView) × (local_view (node_of (pos 2)) ≡ some v)
    × ((k : Key) → sample_at k v.samples ≡ sample_for (node_of (pos 2)) 2 (results_for k log_b))
local_view-append_all_example =
    local_view-append_all (node_of (pos 2)) (pos 2) log_b refl (omega arith)

starved_example :
    (v : ObserverView) × (local_view (node_of (pos 1)) ≡ some v)
    × ((k : Key) → IsUnknown (sample_at k v.samples))
starved_example = starved (node_of (pos 1)) (pos 1) log_b 2 refl refl (omega arith)

abbrev empty_node : Aggregator
empty_node = record {
  store = new (pos 2);
  local_host = codes "a";
  peers = codes "b" ∷ codes "c" ∷ [];
  window = pos 2;
  threshold = pos 2;
}

abbrev empty_view : Text → ObserverView
empty_view host = record { host = host; samples = []; reachable = true; reason = [] }

-- One peer answers, the other does not.
abbrev fetch_bc : Text → Option (Fallible Text ObserverView)
fetch_bc p = if p == codes "b" then some (ok (empty_view p)) else some (err (codes "refused"))

aggregate_lem_example :
    (mv : Observers) × (aggregate empty_node fetch_bc (codes "c" ∷ codes "b" ∷ []) ≡ some mv)
    × ((p : Text)
        → Dict.lookup p mv
          ≡ shown fetch_bc
              (codes "c" ∷ codes "b" ∷ [])
              p
              (if p == codes "a" then some (empty_view (codes "a")) else none))
unfolding local_view new keys Dict.keys
aggregate_lem_example = aggregate_lem empty_node fetch_bc (codes "c" ∷ codes "b" ∷ []) refl
