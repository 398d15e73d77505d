-- ===== src/Store.antt =====
-- internal/pkg/store/store.go, `Store`: one ring for each key. Each method runs under the store's
-- lock from its first access to its last, so it is one atomic function of the state.
pub mod Ring
pub mod History
use mathlib.Core.Logic.{dite}
use mesh_checker.Base.{
  ℕ, refl, ap, ◌∙◌, Option, none, some, List, [], ◌∷◌, Text, Eq, text_eq, if◌then◌else◌, ◌≡◌, ◌==◌,
  ◌&&◌, arith,
}
use mesh_checker.Base.Int.{ℤ, pos, pos_part, ltb_ℤ}
use mesh_checker.Base.Dict
use mesh_checker.Base.Dict.{Dict}
use mesh_checker.Probe.{Protocol, Result}
use Ring.{new_ring, push, snapshot}

pub record Key : Type 0 where
  pub peer : Text
  pub protocol : Protocol

key_dec : Discrete Key
key_dec a b =
    dite (text_eq.dec a.peer b.peer)
      (λ p.
        dite (text_eq.dec a.protocol b.protocol)
          (λ q. yes (λ i. record { peer = p i; protocol = q i }))
          (λ n. no (λ e. n (ap (λ (k : Key). k.protocol) e))))
      (λ n. no (λ e. n (ap (λ (k : Key). k.peer) e)))

instance unfoldable pub key_eq : Eq Key
unfolding key_dec
key_eq = record { dec = key_dec }

-- Keys are equal field by field.
pub key_test : (j k : Key) → (j == k) ≡ (j.peer == k.peer && j.protocol == k.protocol)
unfolding key_eq
key_test j k = ground arith

pub record Store : Type 0 where
  pub cap : ℕ
  pub bufs : Dict Key Ring.Ring

-- `New`. The raised capacity is positive, so a natural number.
unfoldable pub new : ℤ → Store
new capacity = record { cap = if ltb_ℤ capacity (pos 1) then 1 else pos_part capacity; bufs = [] }

-- The ring of a key, or a fresh one.
ring_or_new : ℕ → Option Ring.Ring → Ring.Ring
ring_or_new cap none = new_ring cap
ring_or_new cap (some b) = b

-- `Append`. Go stores the fresh ring and then pushes through the pointer; here the pushed ring is
-- what is stored.
pub append : Store → Text → Protocol → Result → Store
unfolding ring_or_new
append s peer p r =
    let k : Key = record { peer = peer; protocol = p } in
    record s { bufs = Dict.insert k (push (ring_or_new s.cap (Dict.lookup k s.bufs)) r) s.bufs }

samples_of : Option Ring.Ring → List Result
samples_of none = []
samples_of (some b) = snapshot b

-- `Snapshot`. Go's nil slice, for an unknown key, is the empty list.
pub snapshot_of : Store → Text → Protocol → List Result
unfolding samples_of
snapshot_of s peer p = samples_of (Dict.lookup (record { peer = peer; protocol = p }) s.bufs)

-- `Keys`
unfoldable pub keys : Store → List Key
keys s = Dict.keys s.bufs
