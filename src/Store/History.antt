-- ===== src/Store/History.antt =====
-- A store against the log of the samples that were appended to it.
use mathlib.Core.List.{cons-ne-nil}
use mesh_checker.Base.{
  ℕ, ◌<◌, ◌≡◌, refl, sym, ap, ◌∙◌, ◌≢◌, ◌↔◌, true, Option, none, some, List, [], ◌∷◌, ◌++◌,
  append-nil, append_assoc, arith, Text, ◌==◌, if◌then◌else◌, trailing, trailing_all,
  trailing-trailing_append, max, if_pos, if_neg,
}
use mesh_checker.Base.Int.{ℤ, pos_part}
use mesh_checker.Base.Dict
use mesh_checker.Base.Dict.{contains, Distinct}
use mesh_checker.Probe.{Protocol, Result}
use mesh_checker.Store.{Key, key_eq, Store, new, append, snapshot_of, samples_of, ring_or_new, keys}
use mesh_checker.Store.Ring.{Ring, push}
use mesh_checker.Store.Ring.Laws.{
  IsValid, contents, snapshot-contents, new_ring-IsValid, push-IsValid, contents-push,
  contents-new_ring,
}

-- One call of `Append`.
pub record Entry : Type 0 where
  pub key : Key
  pub sample : Result

abbrev pub append_all : Store → List Entry → Store
append_all s [] = s
append_all s (a ∷ log) = append_all (append s a.key.peer a.key.protocol a.sample) log

-- What the log says of a key.
abbrev pub results_for : Key → List Entry → List Result
results_for k [] = []
results_for k (a ∷ log) = if k == a.key then a.sample ∷ results_for k log else results_for k log

-- What a store of the configured size can hold for a key.
abbrev pub capacity : ℤ → ℕ
capacity c = max 1 (pos_part c)

cap-new : (c : ℤ) → (new c).cap ≡ capacity c
unfolding new
cap-new c = ground arith

-- A ring, or its absence, reflects the samples `xs`.
abbrev Tracks : ℕ → Option Ring → List Result → Type 0
Tracks cap none xs = xs ≡ []
Tracks cap (some r) xs = IsValid cap r × (contents r ≡ trailing cap xs) × (xs ≢ [])

ring_or_new-Tracks :
    {cap : ℕ} (o : Option Ring) (xs : List Result)
    → 0 < cap
    → Tracks cap o xs
    → IsValid cap (ring_or_new cap o) × (contents (ring_or_new cap o) ≡ trailing cap xs)
unfolding ring_or_new
ring_or_new-Tracks {cap} none xs h t =
    (new_ring-IsValid cap h, rw t (contents-new_ring cap ∙ sym (trailing_all cap [] (omega arith))))
ring_or_new-Tracks (some r) xs h t = (t.0, t.1)

append_one-ne-nil : (xs : List Result) (v : Result) → xs ++ (v ∷ []) ≢ []
append_one-ne-nil [] v = cons-ne-nil v []
append_one-ne-nil (x ∷ xs) v = cons-ne-nil x (xs ++ (v ∷ []))

push-Tracks :
    {cap : ℕ} (o : Option Ring) (xs : List Result) (v : Result)
    → 0 < cap
    → Tracks cap o xs
    → Tracks cap (some (push (ring_or_new cap o) v)) (xs ++ (v ∷ []))
push-Tracks {cap} o xs v h t =
    let (ok, held) = ring_or_new-Tracks o xs h t in
    (
      push-IsValid (ring_or_new cap o) v ok,
      contents-push (ring_or_new cap o) v ok
          ∙ (ap (λ ys. trailing cap (ys ++ (v ∷ []))) held
              ∙ trailing-trailing_append cap xs (v ∷ [])),
      append_one-ne-nil xs v,
    )

-- Every ring of the store reflects its part of a history.
abbrev Reflects : Store → (Key → List Result) → Type 0
Reflects s h = (k : Key) → Tracks s.cap (Dict.lookup k s.bufs) (h k)

append-Reflects :
    (s : Store) (h : Key → List Result) (a : Entry)
    → 0 < s.cap
    → Reflects s h
    → Reflects (append s a.key.peer a.key.protocol a.sample) (λ k. h k ++ results_for k (a ∷ []))
unfolding append
append-Reflects s h a pos_cap t k = rw Dict.lookup-insert (elim (key_eq.dec k a.key) [
  | yes p ↦
      rw (if_pos _ p, p)
        (push-Tracks (Dict.lookup a.key s.bufs) (h a.key) a.sample pos_cap (t a.key))
  | no n ↦ rw (if_neg _ n, append-nil) (t k)
])

results_for-cons :
    (k : Key) (a : Entry) (log : List Entry)
    → results_for k (a ∷ log) ≡ results_for k (a ∷ []) ++ results_for k log
results_for-cons k a log = ground arith

cap-append : (s : Store) (a : Entry) → (append s a.key.peer a.key.protocol a.sample).cap ≡ s.cap
unfolding append
cap-append s a = refl

cap-append_all : (s : Store) (log : List Entry) → (append_all s log).cap ≡ s.cap
cap-append_all s [] = refl
cap-append_all s (a ∷ log) =
    cap-append_all (append s a.key.peer a.key.protocol a.sample) log ∙ cap-append s a

append_all-Reflects :
    (s : Store) (h : Key → List Result) (log : List Entry)
    → 0 < s.cap
    → Reflects s h
    → Reflects (append_all s log) (λ k. h k ++ results_for k log)
append_all-Reflects s h [] pos_cap t k = rw append-nil (t k)
append_all-Reflects s h (a ∷ log) pos_cap t k =
    rw (results_for-cons k a log, ← append_assoc)
      (append_all-Reflects (append s a.key.peer a.key.protocol a.sample)
        (λ j. h j ++ results_for j (a ∷ [])) log (rw (cap-append s a) pos_cap)
        (append-Reflects s h a pos_cap t) k)

start-Reflects : (c : ℤ) → Reflects (new c) (λ k. [])
unfolding new Dict.lookup
start-Reflects c k = refl

-- So after any log from an empty store.
run-Reflects :
    (c : ℤ) (log : List Entry) → Reflects (append_all (new c) log) (λ k. results_for k log)
run-Reflects c log =
    append_all-Reflects (new c) (λ k. []) log (rw (cap-new c) (omega arith)) (start-Reflects c)

samples_of-Tracks :
    (cap : ℕ) (o : Option Ring) (xs : List Result)
    → Tracks cap o xs
    → samples_of o ≡ trailing cap xs
unfolding samples_of
samples_of-Tracks cap none xs t = rw t (sym (trailing_all cap [] (omega arith)))
samples_of-Tracks cap (some r) xs t = snapshot-contents r t.0 ∙ t.1

-- After any appends to a new store, `Snapshot` of a key returns the last samples that were appended
-- for that key, oldest first, as many as the capacity (at least 1) holds.
pub snapshot_of-append_all :
    (c : ℤ) (log : List Entry) (peer : Text) (p : Protocol)
    → snapshot_of (append_all (new c) log) peer p
      ≡ trailing (capacity c) (results_for (record { peer = peer; protocol = p }) log)
unfolding snapshot_of
snapshot_of-append_all c log peer p =
    let k : Key = record { peer = peer; protocol = p } in
    samples_of-Tracks (append_all (new c) log).cap (Dict.lookup k (append_all (new c) log).bufs)
      (results_for k log) (run-Reflects c log k)
    ∙ ap (λ n. trailing n (results_for k log)) (cap-append_all (new c) log ∙ cap-new c)

lookup-Tracks :
    (cap : ℕ) (o : Option Ring) (xs : List Result) → Tracks cap o xs → (o ≢ none) ↔ (xs ≢ [])
lookup-Tracks cap none xs t = (λ h. absurd (h refl), λ h. absurd (h t))
lookup-Tracks cap (some r) xs t = (λ h. t.2, λ h. cc)

append-Distinct :
    (s : Store) (a : Entry)
    → Distinct (keys s)
    → Distinct (keys (append s a.key.peer a.key.protocol a.sample))
unfolding keys append
append-Distinct s a u =
    Dict.insert-Distinct a.key (push (ring_or_new s.cap (Dict.lookup a.key s.bufs)) a.sample) s.bufs
      u

append_all-Distinct :
    (s : Store) (log : List Entry) → Distinct (keys s) → Distinct (keys (append_all s log))
unfolding keys
append_all-Distinct s [] u = u
append_all-Distinct s (a ∷ log) u =
    append_all-Distinct (append s a.key.peer a.key.protocol a.sample) log (append-Distinct s a u)

new-Distinct : (c : ℤ) → Distinct (keys (new c))
unfolding keys new Dict.keys
new-Distinct c = tt

iff_trans : {A B C : Type 0} → A ↔ B → B ↔ C → A ↔ C
iff_trans f g = (λ a. g.0 (f.0 a), λ c. f.1 (g.1 c))

-- `Keys` lists each key for which something was appended, once, and no other key.
pub keys-append_all :
    (c : ℤ) (log : List Entry)
    → Distinct (keys (append_all (new c) log))
      × ((k : Key) → (contains k (keys (append_all (new c) log)) ≡ true) ↔ (results_for k log ≢ []))
unfolding keys
keys-append_all c log = (
  append_all-Distinct (new c) log (new-Distinct c),
  λ k. iff_trans (Dict.contains-keys k (append_all (new c) log).bufs) (
      lookup-Tracks (append_all (new c) log).cap (Dict.lookup k (append_all (new c) log).bufs)
        (results_for k log) (run-Reflects c log k)),
)
