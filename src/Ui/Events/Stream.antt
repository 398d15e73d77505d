-- ===== src/Ui/Events/Stream.antt =====
-- What a client reads from the stream.
use mesh_checker.Base.{
  ℕ, ◌≡◌, ◌≢◌, refl, ap, ◌∙◌, true, ◌++◌, Option, none, some, List, [], ◌∷◌, Text, nat_eq, ◌==◌,
  codes, if◌then◌else◌, drop, All, append_assoc, arith, Option-cases, inl, inr,
}
use mesh_checker.Ui.Http.{has_prefix}
use mesh_checker.Ui.Events.{Event, tick, done, frame, emit, loop, serve_events}

abbrev add_char : ℕ → List Text → List Text
add_char c [] = (c ∷ []) ∷ []
add_char c (l ∷ lines) = (c ∷ l) ∷ lines

abbrev pub lines_of : Text → List Text
lines_of [] = []
lines_of (c ∷ s) = let rest = lines_of s in if c == 10 then [] ∷ rest else add_char c rest

-- The reader of the format: the last `data` line of an event is its data, and an empty line ends the
-- event.
abbrev pub read_lines : Option Text → List Text → List Text
read_lines old [] = []
read_lines none ([] ∷ lines) = read_lines none lines
read_lines (some b) ([] ∷ lines) = b ∷ read_lines none lines
read_lines old ((c ∷ l) ∷ lines) =
    read_lines (if has_prefix (c ∷ l) (codes "data: ") then some (drop 6 (c ∷ l)) else old) lines

abbrev pub read_events : Text → List Text
read_events s = read_lines none (lines_of s)

-- A text of one line.
abbrev pub IsLine : Text → Type 0
IsLine b = All (λ c. c ≢ 10) b

lines_of-append : (l s : Text) → IsLine l → lines_of (l ++ (10 ∷ s)) ≡ l ∷ lines_of s
unfolding nat_eq
lines_of-append [] s h = refl
lines_of-append (c ∷ l) s (n, h) = ground (arith, n, lines_of-append l s h)

frame-read : (b s : Text) → IsLine b → read_events (frame b ++ s) ≡ b ∷ read_events s
unfolding has_prefix nat_eq
frame-read b s h = rw (append_assoc b (10 ∷ 10 ∷ []) s, lines_of-append b (10 ∷ s) h) refl

module _ {View : Type 0} (marshal : View → Option Text) where
  abbrev pub some_text : Option Text → List Text
  some_text none = []
  some_text (some b) = b ∷ []

  -- The views that are sent, up to the end of the request.
  abbrev pub sent : List (Event View) → List Text
  sent [] = []
  sent (done ∷ events) = []
  sent (tick v ∷ events) = some_text (marshal v) ++ sent events

  emit-read :
      (v : View) (s : Text)
      → ((w : View) (b : Text) → marshal w ≡ some b → IsLine b)
      → read_events (emit marshal v ++ s) ≡ some_text (marshal v) ++ read_events s
  unfolding emit
  emit-read v s one_line = elim (Option-cases (marshal v)) [
    | inl p ↦ rw (emit, p) refl
    | inr (b, p) ↦ rw (emit, p) (frame-read b s (one_line v b p))
  ]

  loop-read :
      (events : List (Event View))
      → ((w : View) (b : Text) → marshal w ≡ some b → IsLine b)
      → read_events (loop marshal events) ≡ sent events
  unfolding loop
  loop-read [] one_line = refl
  loop-read (done ∷ events) one_line = refl
  loop-read (tick v ∷ events) one_line =
      emit-read v (loop marshal events) one_line
      ∙ ap (λ l. some_text (marshal v) ++ l) (loop-read events one_line)

  -- If an encoded view is one line, a reader of the stream gets back the encoded views, in order:
  -- the first one, and those of the ticks before the request ends; a view that cannot be encoded is
  -- left out, and nothing else.
  pub read_events-serve_events :
      (first : View) (events : List (Event View))
      → ((w : View) (b : Text) → marshal w ≡ some b → IsLine b)
      → read_events (serve_events marshal true first events).body
        ≡ some_text (marshal first) ++ sent events
  unfolding serve_events
  read_events-serve_events first events one_line =
      emit-read first (loop marshal events) one_line
      ∙ ap (λ l. some_text (marshal first) ++ l) (loop-read events one_line)
