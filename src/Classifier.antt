-- ===== src/Classifier.antt =====
-- internal/pkg/classifier/classifier.go: the coarse state of a window of samples.
pub mod Laws
use mesh_checker.Base.{
  ℕ, ◌+◌, Bool, Option, none, some, List, [], ◌∷◌, ◌==◌, nat_eq, if◌then◌else◌, length, drop,
}
use mesh_checker.Base.Int.{ℤ, pos, pos_part, ltb_ℤ, leb_ℤ, ◌-ℤ◌}
use mesh_checker.Probe.{Result}

pub data State : Type 0 where
  unknown up degraded down : State

-- The counting loop.
abbrev pub count_fails : ℕ → List Result → ℕ
count_fails fails [] = fails
count_fails fails (r ∷ tail) = count_fails (if r.is_ok then fails else fails + 1) tail

-- The `switch` behind the loop.
pub decide_state : ℤ → ℕ → State
decide_state threshold fails =
    if leb_ℤ threshold (pos fails) then down else if fails == 0 then up else degraded

-- `Classify`. `none` is the panic of `results[len(results)-window:]` with a start past the end,
-- which a negative window brings about; the start is never negative there.
unfoldable pub classify : List Result → ℤ → ℤ → Option State
unfolding decide_state
classify results window threshold =
    let n = length results in
    let start = pos n -ℤ window in
    if ltb_ℤ (pos n) window
    then some unknown
    else if ltb_ℤ (pos n) start
    then none
    else some (decide_state threshold (count_fails 0 (drop (pos_part start) results)))
