-- ===== src/Udp/Replay.antt =====
-- internal/pkg/probe/udp/payload.go, `ReplayCache`: nonces with the instants they were seen at.
-- `SeenOrAdd` runs under the cache's lock, so it is one function of the state.
pub mod Laws
use mesh_checker.Base.{Bool, true, false, Option, none, some, List, [], ◌∷◌, if◌then◌else◌, text_eq}
use mesh_checker.Base.Int.{◌-ℤ◌, ltb_ℤ}
use mesh_checker.Base.Dict
use mesh_checker.Base.Dict.{Dict}
use mesh_checker.Probe.{Time, Duration}
use mesh_checker.Udp.Payload.{Nonce}

pub record ReplayCache : Type 0 where
  pub ttl : Duration
  pub seen : Dict Nonce Time

unfoldable pub new_replay_cache : Duration → ReplayCache
new_replay_cache ttl = record { ttl = ttl; seen = [] }

-- The loop that deletes what was seen before the cutoff.
unfoldable pub evict : Time → Dict Nonce Time → Dict Nonce Time
evict cutoff [] = []
evict cutoff ((n, t) ∷ d) =
    let rest = evict cutoff d in if ltb_ℤ t cutoff then rest else (n, t) ∷ rest

-- The lookup behind the loop, and the insertion where the nonce is new.
unfoldable pub record_nonce : ReplayCache → Nonce → Time → Option Time → ReplayCache × Bool
record_nonce c n now (some t) = (c, true)
record_nonce c n now none = (record c { seen = Dict.insert n now c.seen }, false)

unfoldable pub seen_or_add : ReplayCache → Nonce → Time → ReplayCache × Bool
unfolding evict record_nonce
seen_or_add c n now =
    let kept = evict (now -ℤ c.ttl) c.seen in
    record_nonce (record c { seen = kept }) n now (Dict.lookup n kept)
