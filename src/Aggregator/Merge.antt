-- ===== src/Aggregator/Merge.antt =====
-- The merged view does not depend on the order in which the peers answer.
use mesh_checker.Base.{
  ◌≡◌, refl, ap, ◌∙◌, Option, none, some, List, [], ◌∷◌, Text, text_eq, Fallible, ok, err, true,
  false, if◌then◌else◌, ◌==◌, arith, if_pos, if_neg,
}
use mesh_checker.Base.Dict
use mesh_checker.Base.Dict.{contains}
use mesh_checker.Aggregator.{
  Aggregator, ObserverView, Observers, fetched, write, collect, local_view, aggregate,
}

abbrev or_before : Option ObserverView → Option ObserverView → Option ObserverView
or_before none before = before
or_before (some v) before = some v

-- What the merged view shows of a host: an answer, marked as reachable; the error of a fetch; or what
-- it showed before, where a fetch left no result.
abbrev pub entry :
    Text → Option (Fallible Text ObserverView) → Option ObserverView → Option ObserverView
entry p none before = before
entry p (some (ok v)) before =
    some (record { host = v.host; samples = v.samples; reachable = true; reason = v.reason })
entry p (some (err e)) before =
    some (record { host = p; samples = []; reachable = false; reason = e })

abbrev pub shown :
    (Text → Option (Fallible Text ObserverView))
    → List Text
    → Text
    → Option ObserverView
    → Option ObserverView
shown fetch peers p before = if contains p peers then entry p (fetch p) before else before

-- The same by the code's own functions.
abbrev merged :
    (Text → Option (Fallible Text ObserverView))
    → List Text
    → Text
    → Option ObserverView
    → Option ObserverView
merged fetch peers p before =
    if contains p peers then or_before (fetched p (fetch p)) before else before

entry-fetched :
    (p : Text) (x : Option (Fallible Text ObserverView)) (before : Option ObserverView)
    → or_before (fetched p x) before ≡ entry p x before
entry-fetched p none before = refl
entry-fetched p (some (ok v)) before = refl
entry-fetched p (some (err e)) before = refl

merged-shown :
    (fetch : Text → Option (Fallible Text ObserverView)) (peers : List Text) (p : Text)
    (before : Option ObserverView)
    → merged fetch peers p before ≡ shown fetch peers p before
merged-shown fetch peers p before =
    ap (λ o. if contains p peers then o else before) (entry-fetched p (fetch p) before)

lookup-write :
    (p q : Text) (o : Option ObserverView) (mv : Observers)
    → Dict.lookup p (write q o mv)
      ≡ (if p == q then or_before o (Dict.lookup p mv) else Dict.lookup p mv)
lookup-write p q none mv = ground arith
lookup-write p q (some v) mv = Dict.lookup-insert p q v mv

or_before_twice :
    (o before : Option ObserverView) → or_before o (or_before o before) ≡ or_before o before
or_before_twice none before = refl
or_before_twice (some v) before = refl

lookup-collect :
    (fetch : Text → Option (Fallible Text ObserverView)) (finished : List Text) (p : Text)
    (mv : Observers)
    → Dict.lookup p (collect fetch finished mv) ≡ merged fetch finished p (Dict.lookup p mv)
unfolding collect
lookup-collect fetch [] p mv = refl
lookup-collect fetch (q ∷ finished) p mv =
    let o = fetched q (fetch q) in
    lookup-collect fetch finished p (write q o mv)
    ∙ (ap (merged fetch finished p) (lookup-write p q o mv) ∙ step)
  where
    step :
        merged fetch finished p
          (if p == q then or_before (fetched q (fetch q)) (Dict.lookup p mv) else Dict.lookup p mv)
        ≡ merged fetch (q ∷ finished) p (Dict.lookup p mv)
    step = elim (text_eq.dec p q) [
      | yes e ↦
          rw (if_pos _ e, e)
            (ground (arith, or_before_twice (fetched q (fetch q)) (Dict.lookup q mv)))
      | no n ↦ rw (if_neg _ n) refl
    ]

-- Where there is a local view, the merged view shows, for each peer whose fetch ended with a
-- result, its answer (marked as reachable) or, as unreachable and without samples, the text of its
-- error as the reason, also where a peer bears the local host's name; for the local host otherwise
-- the local view; and no other host, so none whose fetch panicked. `finished` is any order of the
-- fetches.
pub aggregate_lem :
    (a : Aggregator) (fetch : Text → Option (Fallible Text ObserverView)) (finished : List Text)
    {v : ObserverView}
    → local_view a ≡ some v
    → (mv : Observers) × (aggregate a fetch finished ≡ some mv)
      × ((p : Text)
          → Dict.lookup p mv ≡ shown fetch finished p (if p == a.local_host then some v else none))
unfolding aggregate Dict.lookup
aggregate_lem a fetch finished {v} e =
    let start = Dict.insert a.local_host v [] in
    (
      collect fetch finished start,
      start_from e,
      λ p.
          lookup-collect fetch finished p start
          ∙ (ap (merged fetch finished p) (Dict.lookup-insert p a.local_host v [])
              ∙ merged-shown fetch finished p (if p == a.local_host then some v else none)),
    )
  where
    start_from :
        local_view a ≡ some v
        → aggregate a fetch finished ≡ some (collect fetch finished (Dict.insert a.local_host v []))
    start_from e = rw (e, aggregate) refl
