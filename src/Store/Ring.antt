-- ===== src/Store/Ring.antt =====
-- internal/pkg/store/store.go, `ring`: a circular buffer of samples.
pub mod Laws
use mesh_checker.Base.{
  ℕ, ◌+◌, ◌-◌, ◌%◌, Bool, true, false, List, ◌==◌, nat_eq, if◌then◌else◌, length, set, take, drop,
  replicate, copy_at,
}
use mesh_checker.Probe.{Result, zero_result}

pub record Ring : Type 0 where
  pub buf : List Result
  pub head : ℕ
  pub full : Bool

pub new_ring : ℕ → Ring
new_ring n = record { buf = replicate n zero_result; head = 0; full = false }

-- `head` is in range for every ring with a slot (`Ring.Laws`), so the write is one.
pub push : Ring → Result → Ring
push r v =
    let next = (r.head + 1) % length r.buf in
    record { buf = set r.buf r.head v; head = next; full = if next == 0 then true else r.full }

-- The two `copy` calls of the full case fill a fresh slice.
pub snapshot : Ring → List Result
snapshot r =
    let n = length r.buf in
    let blank = replicate n zero_result in
    if r.full
    then copy_at (n - r.head) (copy_at 0 blank (drop r.head r.buf)) (take r.head r.buf)
    else copy_at 0 (replicate r.head zero_result) (take r.head r.buf)
