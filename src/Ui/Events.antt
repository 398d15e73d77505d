-- ===== src/Ui/Events.antt =====
-- internal/pkg/server/ui/sse.go: the stream of the mesh views. `marshal` is `json.Marshal`.
pub mod Stream
use mesh_checker.Base.{◌++◌, Bool, true, false, Option, none, some, List, [], ◌∷◌, Text, codes}
use mesh_checker.Ui.Http.{Response, http_error}

-- What `select` meets in the loop: a tick, with the view that is aggregated then, or the end of the
-- request.
pub data Event (View : Type 0) : Type 0 where
  tick : View → Event View
  done : Event View

-- `fmt.Fprintf(w, "event: status\ndata: %s\n\n", b)`
abbrev pub frame : Text → Text
frame b = codes "event: status" ++ (10 ∷ (codes "data: " ++ (b ++ (10 ∷ 10 ∷ []))))

module _ {View : Type 0} (marshal : View → Option Text) where
  -- `emit`: a view that does not marshal is left out.
  unfoldable pub emit : View → Text
  emit v = elim (marshal v) [ none ↦ [] | some b ↦ frame b ]

  -- The loop, which ends with the request.
  unfoldable pub loop : List (Event View) → Text
  loop [] = []
  loop (done ∷ events) = []
  loop (tick v ∷ events) = emit v ++ loop events

  -- `ServeHTTP`: `flushes` tells whether the writer can flush, `first` is the view before the first
  -- tick.
  unfoldable pub serve_events : Bool → View → List (Event View) → Response
  serve_events false first events = http_error 500 (codes "streaming unsupported")
  serve_events true first events = record {
    status = 200;
    headers =
        (codes "Content-Type", codes "text/event-stream")
        ∷ (codes "Cache-Control", codes "no-store")
        ∷ (codes "Connection", codes "keep-alive")
        ∷ [];
    cookie = none;
    body = emit first ++ loop events;
  }
