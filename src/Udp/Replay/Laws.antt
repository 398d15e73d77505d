-- ===== src/Udp/Replay/Laws.antt =====
-- What the replay cache remembers, and for how long.
use mesh_checker.Base.{
  ◌≡◌, refl, ap, ◌∙◌, Bool, true, false, Option, none, some, [], ◌∷◌, if◌then◌else◌, text_eq, ◌==◌,
  arith, ◌&&◌, not,
}
use mesh_checker.Base.Int.{◌-ℤ◌, ltb_ℤ, ◌≤ℤ◌}
use mesh_checker.Base.Dict
use mesh_checker.Base.Dict.{Dict, Distinct, contains}
use mesh_checker.Probe.{Time, Duration}
use mesh_checker.Udp.Payload.{Nonce}
use mesh_checker.Udp.Replay.{ReplayCache, new_replay_cache, evict, record_nonce, seen_or_add}

-- The entry of a nonce, if it is not older than the cutoff.
abbrev pub is_some : Option Time → Bool
is_some none = false
is_some (some t) = true

abbrev pub fresh : Time → Option Time → Option Time
fresh cutoff none = none
fresh cutoff (some t) = if ltb_ℤ t cutoff then none else some t

contains-evict :
    (n : Nonce) (cutoff : Time) (d : Dict Nonce Time)
    → contains n (Dict.keys d) ≡ false
    → contains n (Dict.keys (evict cutoff d)) ≡ false
unfolding evict Dict.keys
contains-evict n cutoff [] h = refl
contains-evict n cutoff ((m, t) ∷ d) h = ground (arith, contains-evict n cutoff d)

pub evict-Distinct :
    (cutoff : Time) (d : Dict Nonce Time)
    → Distinct (Dict.keys d)
    → Distinct (Dict.keys (evict cutoff d))
unfolding evict Dict.keys
evict-Distinct cutoff [] u = tt
evict-Distinct cutoff ((m, t) ∷ d) u =
    ground (arith, evict-Distinct cutoff d u.1, contains-evict m cutoff d u.0)

lookup_absent :
    (n : Nonce) (d : Dict Nonce Time) → contains n (Dict.keys d) ≡ false → Dict.lookup n d ≡ none
unfolding Dict.keys Dict.lookup
lookup_absent n [] h = refl
lookup_absent n ((m, t) ∷ d) h = ground (arith, lookup_absent n d)

pub lookup-evict :
    (n : Nonce) (cutoff : Time) (d : Dict Nonce Time)
    → Distinct (Dict.keys d)
    → Dict.lookup n (evict cutoff d) ≡ fresh cutoff (Dict.lookup n d)
unfolding evict Dict.lookup Dict.keys
lookup-evict n cutoff [] u = refl
lookup-evict n cutoff ((m, t) ∷ d) u =
    ground (arith, lookup-evict n cutoff d u.1, lookup_absent m d u.0)

-- A cache in which no nonce stands twice, as in a Go map.
abbrev pub IsCache : ReplayCache → Type 0
IsCache c = Distinct (Dict.keys c.seen)

pub new_replay_cache-IsCache : (ttl : Duration) → IsCache (new_replay_cache ttl)
unfolding new_replay_cache Dict.keys
new_replay_cache-IsCache ttl = tt

record_nonce_lem :
    (c : ReplayCache) (n : Nonce) (now : Time) (o : Option Time)
    → Dict.lookup n c.seen ≡ o
    → IsCache c
    → let (c', seen) = record_nonce c n now o in
      (seen ≡ is_some o)
      × ((m : Nonce)
          → Dict.lookup m c'.seen ≡ (if m == n && not seen then some now else Dict.lookup m c.seen))
      × (c'.ttl ≡ c.ttl)
      × IsCache c'
unfolding record_nonce
record_nonce_lem c n now none e u = (
  refl,
  λ m. Dict.lookup-insert m n now c.seen ∙ (ground arith),
  refl,
  Dict.insert-Distinct n now c.seen u,
)
record_nonce_lem c n now (some t) e u = (refl, λ m. (ground arith), refl, u)

-- One call on a cache without double entries, in full: the answer is whether the nonce has an entry
-- that is not older than the time to live; a new nonce is entered at `now`, and every other entry
-- stays exactly if it is not too old. The cache has no double entries afterwards either.
pub seen_or_add_lem :
    (c : ReplayCache) (n : Nonce) (now : Time)
    → IsCache c
    → let cutoff = now -ℤ c.ttl in
      let (c', seen) = seen_or_add c n now in
      (seen ≡ is_some (fresh cutoff (Dict.lookup n c.seen)))
      × ((m : Nonce)
          → Dict.lookup m c'.seen
            ≡ (if m == n && not seen then some now else fresh cutoff (Dict.lookup m c.seen)))
      × (c'.ttl ≡ c.ttl)
      × IsCache c'
unfolding seen_or_add
seen_or_add_lem c n now u =
    let cutoff = now -ℤ c.ttl in
    let kept = evict cutoff c.seen in
    let (answer, entries, same, ok) =
      record_nonce_lem (record c { seen = kept }) n now (Dict.lookup n kept) refl
        (evict-Distinct cutoff c.seen u) in
    (
      answer ∙ ap is_some (lookup-evict n cutoff c.seen u),
      λ m.
          entries m
          ∙ ap (λ (o : Option Time). if m == n && not (seen_or_add c n now).1 then some now else o)
              (lookup-evict m cutoff c.seen u),
      same,
      ok,
    )

-- What was seen at `t` is still known at any instant up to `t + ttl`, whatever was seen in between.
pub seen_or_add-keeps :
    (c : ReplayCache) (n m : Nonce) (now t : Time)
    → IsCache c
    → Dict.lookup m c.seen ≡ some t
    → now -ℤ c.ttl ≤ℤ t
    → Dict.lookup m (seen_or_add c n now).0.seen ≡ some t
seen_or_add-keeps c n m now t u e late =
    let (answer, entries, _, _) = seen_or_add_lem c n now u in ground (arith, answer, entries m)
