-- ===== src/Echo/Once.antt =====
-- No packet is answered twice.
use mesh_checker.Base.{
  ◌≡◌, refl, ap, sym, ◌∙◌, ◌⊎◌, inl, inr, Bool, true, false, Option, none, some, List, [], ◌∷◌,
  Text, text_eq, Fallible, ok, err, arith, Option-cases, if◌then◌else◌, take, ==_self,
}
use mesh_checker.Base.Int.{◌+ℤ◌, ◌-ℤ◌, ◌≤ℤ◌, int_laws, +ℤ_parts}
use mesh_checker.Base.Dict
use mesh_checker.Base.Dict.{Dict}
use mesh_checker.Probe.{Time}
use mesh_checker.Udp.Mac.{MacScheme}
use mesh_checker.Udp.Payload.{Nonce, Request, PayloadError, decode_request}
use mesh_checker.Udp.Replay.{ReplayCache, new_replay_cache, seen_or_add}
use mesh_checker.Udp.Replay.Laws.{
  IsCache, new_replay_cache-IsCache, seen_or_add_lem, seen_or_add-keeps,
}
use mesh_checker.Echo.{
  UdpEcho, Event, received, read_failed, close, Sent, clock_window, replay_ttl, new_udp_echo,
  answer, check_request, handle, run,
}
use mesh_checker.Echo.Replies.{Answers, Answers-decoded, IsNear, handle-Answers, window_test}

-- The settings of `NewUDPEcho`, and a cache without double entries.
pub record IsHealthy (s : UdpEcho) : Type 0 where
  pub window : s.ts_window ≡ clock_window
  pub ttl : s.replay.ttl ≡ replay_ttl
  pub cache : IsCache s.replay

-- Every datagram of the events was handled at `later` or before.
abbrev pub AllBy : Time → List Event → Type 0
AllBy later [] = Unit
AllBy later (received pkt host now ∷ events) = (now ≤ℤ later) × AllBy later events
AllBy later (read_failed ∷ events) = AllBy later events
AllBy later (close ∷ events) = AllBy later events

new_udp_echo-IsHealthy :
    (secret : Text) (allowed : Dict Text Bool) → IsHealthy (new_udp_echo secret allowed)
unfolding new_udp_echo new_replay_cache
new_udp_echo-IsHealthy secret allowed = record {
  window = refl;
  ttl = refl;
  cache = new_replay_cache-IsCache replay_ttl;
}

ok-injective : {a b : Request} → ◌≡◌ {A = Fallible PayloadError Request} (ok a) (ok b) → a ≡ b
ok-injective e = cc

-- Twice 30 seconds make up the time to live.
within : (now later ts : Time) → IsNear now ts → IsNear later ts → later ≤ℤ now +ℤ replay_ttl
within now later ts (_, a) (b, _) =
    omega (arith, +ℤ_parts ts clock_window, +ℤ_parts now clock_window, +ℤ_parts now replay_ttl)

module _ (h : MacScheme) where
  answer-state :
      (s : UdpEcho) (req : Request) (now : Time) (seen : ReplayCache × Bool)
      → (answer h s req now seen).0 ≡ record s { replay = seen.0 }
  unfolding answer
  answer-state s req now (c, true) = refl
  answer-state s req now (c, false) = refl

  abbrev AtMostOne : UdpEcho → Time → UdpEcho → Type 0
  AtMostOne s now s' =
      (s' ≡ s) ⊎ ((n : Nonce) × (s' ≡ record s { replay = (seen_or_add s.replay n now).0 }))

  if_state :
      (s : UdpEcho) (now : Time) (b : Bool) (x y : UdpEcho × Sent)
      → AtMostOne s now x.0
      → AtMostOne s now y.0
      → AtMostOne s now (if b then x else y).0
  if_state s now true x y p q = p
  if_state s now false x y p q = q

  check_request-state :
      (s : UdpEcho) (r : Fallible PayloadError Request) (now : Time)
      → AtMostOne s now (check_request h s r now).0
  unfolding check_request
  check_request-state s (err e) now = inl refl
  check_request-state s (ok req) now =
      if_state s now _ (s, none) (answer h s req now (seen_or_add s.replay req.nonce now))
        (inl refl) (inr (req.nonce, answer-state s req now (seen_or_add s.replay req.nonce now)))

  -- The server changes by one call of `SeenOrAdd` at most.
  handle-state :
      (s : UdpEcho) (pkt : Text) (host : Option Text) (now : Time)
      → AtMostOne s now (handle h s pkt host now).0
  unfolding handle
  handle-state s pkt none now = inl refl
  handle-state s pkt (some ip) now =
      if_state s now _ (s, none) (check_request h s (decode_request h s.secret pkt) now) (inl refl)
        (check_request-state s (decode_request h s.secret pkt) now)

  handle-IsHealthy :
      (s : UdpEcho) (pkt : Text) (host : Option Text) (now : Time)
      → IsHealthy s
      → IsHealthy (handle h s pkt host now).0
  handle-IsHealthy s pkt host now v = elim (handle-state s pkt host now) [
    | inl e ↦ rw e v
    | inr (n, e) ↦
        let (_, _, same, ok_cache) = seen_or_add_lem s.replay n now v.cache in
        rw e (record { window = v.window; ttl = same ∙ v.ttl; cache = ok_cache })
  ]

  -- An entry outlives every packet that is handled within its time to live.
  handle-keeps :
      (s : UdpEcho) (pkt : Text) (host : Option Text) (now t : Time) (m : Nonce)
      → IsHealthy s
      → now ≤ℤ t +ℤ replay_ttl
      → Dict.lookup m s.replay.seen ≡ some t
      → Dict.lookup m (handle h s pkt host now).0.replay.seen ≡ some t
  handle-keeps s pkt host now t m v by held = elim (handle-state s pkt host now) [
    | inl e ↦ rw e held
    | inr (n, e) ↦
        rw e (seen_or_add-keeps s.replay n m now t v.cache held (rw v.ttl (omega int_laws)))
  ]

  run-keeps :
      (s : UdpEcho) (events : List Event) (t later : Time) (m : Nonce)
      → IsHealthy s
      → AllBy later events
      → later ≤ℤ t +ℤ replay_ttl
      → Dict.lookup m s.replay.seen ≡ some t
      → IsHealthy (run h s events).0 × (Dict.lookup m (run h s events).0.replay.seen ≡ some t)
  unfolding run
  run-keeps s [] t later m v by late held = (v, held)
  run-keeps s (received pkt host now ∷ events) t later m v by late held =
      run-keeps (handle h s (take 2048 pkt) host now).0 events t later m
        (handle-IsHealthy s (take 2048 pkt) host now v) by.1 late
        (handle-keeps s (take 2048 pkt) host now t m v (omega arith) held)
  run-keeps s (read_failed ∷ events) t later m v by late held =
      ground (arith, run-keeps s events t later m v by late held)
  run-keeps s (close ∷ events) t later m v by late held =
      run-keeps (record s { closed = true }) events t later m
        (record { window = v.window; ttl = v.ttl; cache = v.cache }) by late held

  run-IsHealthy : (s : UdpEcho) (events : List Event) → IsHealthy s → IsHealthy (run h s events).0
  unfolding run
  run-IsHealthy s [] v = v
  run-IsHealthy s (received pkt host now ∷ events) v =
      run-IsHealthy (handle h s (take 2048 pkt) host now).0 events
        (handle-IsHealthy s (take 2048 pkt) host now v)
  run-IsHealthy s (read_failed ∷ events) v = ground (arith, run-IsHealthy s events v)
  run-IsHealthy s (close ∷ events) v =
      run-IsHealthy (record s { closed = true }) events
        (record { window = v.window; ttl = v.ttl; cache = v.cache })

  handle-secret :
      (s : UdpEcho) (pkt : Text) (host : Option Text) (now : Time)
      → (handle h s pkt host now).0.secret ≡ s.secret
  handle-secret s pkt host now = elim (handle-state s pkt host now) [
    | inl e ↦ ap (λ (u : UdpEcho). u.secret) e
    | inr (n, e) ↦ ap (λ (u : UdpEcho). u.secret) e
  ]

  run-secret : (s : UdpEcho) (events : List Event) → (run h s events).0.secret ≡ s.secret
  unfolding run
  run-secret s [] = refl
  run-secret s (received pkt host now ∷ events) =
      run-secret (handle h s (take 2048 pkt) host now).0 events
      ∙ handle-secret s (take 2048 pkt) host now
  run-secret s (read_failed ∷ events) = ground (arith, run-secret s events)
  run-secret s (close ∷ events) = run-secret (record s { closed = true }) events

  handle-answered :
      (s : UdpEcho) (pkt : Text) (host : Option Text) (now : Time) (reply : Text)
      → s.ts_window ≡ clock_window
      → (a : Answers h s pkt host now reply)
      → (handle h s pkt host now).0
        ≡ record s { replay = (seen_or_add s.replay a.request.nonce now).0 }
  unfolding handle
  handle-answered s pkt host now reply w a = ground (
    arith,
    Answers-decoded h a,
    window_test now a.request.timestamp,
    answer-state s a.request now (seen_or_add s.replay a.request.nonce now),
  )

  -- An answer leaves the request's nonce in the cache, with the instant of the answer.
  answered-held :
      (s : UdpEcho) (pkt : Text) (host : Option Text) (now : Time) (reply : Text)
      → IsHealthy s
      → (a : Answers h s pkt host now reply)
      → Dict.lookup a.request.nonce (handle h s pkt host now).0.replay.seen ≡ some now
  answered-held s pkt host now reply v a = rw (handle-answered s pkt host now reply v.window a) (
      (seen_or_add_lem s.replay a.request.nonce now v.cache).1 a.request.nonce
      ∙ rw (==_self a.request.nonce, a.unseen))

  -- A nonce that is in the cache and not too old is no longer answered.
  held_refused :
      (s : UdpEcho) (pkt : Text) (host : Option Text) (later t : Time) (reply : Text)
      → IsHealthy s
      → (a : Answers h s pkt host later reply) → Dict.lookup a.request.nonce s.replay.seen ≡ some t
      → later ≤ℤ t +ℤ replay_ttl
      → ⊥
  held_refused s pkt host later t reply v a held late =
      let (answer, _, _, _) = seen_or_add_lem s.replay a.request.nonce later v.cache in
      let recent : later -ℤ replay_ttl ≤ℤ t = omega int_laws in
      ground (arith, answer, v.ttl, held, a.unseen)

  healthy_once :
      (s : UdpEcho) (pkt : Text) (host host' : Option Text) (now later : Time) (events : List Event)
      (reply : Text)
      → IsHealthy s
      → (handle h s pkt host now).1 ≡ some reply
      → AllBy later events
      → (handle h (run h (handle h s pkt host now).0 events).0 pkt host' later).1 ≡ none
  healthy_once s pkt host host' now later events reply v e by =
      elim (Option-cases (handle h s'' pkt host' later).1) [
        | inl quiet ↦ quiet
        | inr (reply', e') ↦ absurd (twice reply' e')
      ]
    where
      s'' : UdpEcho
      s'' = (run h (handle h s pkt host now).0 events).0

      twice : (reply' : Text) → (handle h s'' pkt host' later).1 ≡ some reply' → ⊥
      twice reply' e' =
          let a = (handle-Answers h s pkt host now reply v.window).0 e in
          let v' = handle-IsHealthy s pkt host now v in
          let v'' = run-IsHealthy (handle h s pkt host now).0 events v' in
          let a' = (handle-Answers h s'' pkt host' later reply' v''.window).0 e' in
          let same_secret =
            run-secret (handle h s pkt host now).0 events ∙ handle-secret s pkt host now in
          let same : a'.request ≡ a.request = ok-injective (
            sym (Answers-decoded h a')
            ∙ (ap (λ k. decode_request h k pkt) same_secret ∙ Answers-decoded h a)) in
          let late : later ≤ℤ now +ℤ replay_ttl =
            within now later a.request.timestamp a.near (rw same at a'.near) in
          let (_, held) =
            run-keeps (handle h s pkt host now).0 events now later a.request.nonce v' by late
              (answered-held s pkt host now reply v a) in
          held_refused s'' pkt host' later now reply' v'' a' (rw same held) late

  -- The server after the given events since its start.
  abbrev pub server_after : Text → Dict Text Bool → List Event → UdpEcho
  server_after secret allowed events = (run h (new_udp_echo secret allowed) events).0

  -- A packet that the server has answered, after any events since its start, is not answered again,
  -- whatever happens in between and whoever sends it, as long as no packet in between was handled
  -- at a later instant than the second copy.
  pub answered_once :
      (secret : Text) (allowed : Dict Text Bool) (before between : List Event) (pkt : Text)
      (host host' : Option Text) (now later : Time) (reply : Text)
      → (handle h (server_after secret allowed before) pkt host now).1 ≡ some reply
      → AllBy later between
      → (handle h
          (run h (handle h (server_after secret allowed before) pkt host now).0 between).0
          pkt
          host'
          later).1
        ≡ none
  answered_once secret allowed before between pkt host host' now later reply e by =
      healthy_once (run h (new_udp_echo secret allowed) before).0 pkt host host' now later between
        reply
        (run-IsHealthy (new_udp_echo secret allowed) before (new_udp_echo-IsHealthy secret allowed))
        e by
