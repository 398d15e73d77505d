-- ===== src/Echo.antt =====
-- internal/pkg/server/probe/udp_echo.go: the UDP echo server.
pub mod Replies
pub mod Once
pub mod Exchange
use mesh_checker.Base.{
  ◌*◌, ◌^◌, ◌||◌, Bool, true, false, Option, none, some, List, [], ◌∷◌, Text, text_eq, not,
  if◌then◌else◌, take, Fallible, ok, err,
}
use mesh_checker.Base.Int.{ℤ, pos, ◌-ℤ◌, ltb_ℤ, min_int64, max_int64}
use mesh_checker.Base.Dict
use mesh_checker.Base.Dict.{Dict}
use mesh_checker.Probe.{Time, Duration}
use mesh_checker.Udp.Mac.{MacScheme}
use mesh_checker.Udp.Payload.{Request, PayloadError, decode_request, encode_response}
use mesh_checker.Udp.Replay.{ReplayCache, new_replay_cache, seen_or_add}

abbrev pub second : Duration
second = pos 1000000000

-- The fields of `UDPEcho` but for the socket and the lock of `closed`.
pub record UdpEcho : Type 0 where
  pub secret : Text
  pub allowed : Dict Text Bool
  pub replay : ReplayCache
  pub closed : Bool
  pub ts_window : Duration

abbrev pub replay_ttl : Duration
replay_ttl = pos 60000000000

abbrev pub clock_window : Duration
clock_window = pos 30000000000

unfoldable pub new_udp_echo : Text → Dict Text Bool → UdpEcho
new_udp_echo secret allowed_ips = record {
  secret = secret;
  allowed = allowed_ips;
  replay = new_replay_cache replay_ttl;
  closed = false;
  ts_window = clock_window;
}

-- `t.Sub(u)`: a difference that no Duration holds is replaced by the nearest one.
unfoldable pub sub_time : Time → Time → Duration
sub_time t u =
    let d = t -ℤ u in
    if ltb_ℤ max_int64 d then max_int64 else if ltb_ℤ d min_int64 then min_int64 else d

-- `s.allowed[host]`, where a missing key reads as false.
abbrev pub flag : Option Bool → Bool
flag none = false
flag (some b) = b

-- What goes out by `WriteTo`, if anything.
abbrev pub Sent : Type 0
Sent = Option Text

abbrev pub response_of : Fallible PayloadError Text → Sent
response_of (ok resp) = some resp
response_of (err e) = none

-- What `Run` meets, in the order in which it happens: datagrams, failing reads, and `Close` from
-- another goroutine.
pub data Event : Type 0 where
  received : Text → Option Text → Time → Event
  read_failed : Event
  close : Event

module _ (h : MacScheme) where
  -- From `SeenOrAdd` on.
  answer : UdpEcho → Request → Time → ReplayCache × Bool → UdpEcho × Sent
  answer s req now (c, true) = (record s { replay = c }, none)
  answer s req now (c, false) =
      (record s { replay = c }, response_of (encode_response h s.secret req.nonce now))

  -- From the decoded request on.
  check_request : UdpEcho → Fallible PayloadError Request → Time → UdpEcho × Sent
  check_request s (err e) now = (s, none)
  check_request s (ok req) now =
      let diff = sub_time now req.timestamp in
      if ltb_ℤ s.ts_window diff || ltb_ℤ diff (pos 0 -ℤ s.ts_window)
      then (s, none)
      else answer s req now (seen_or_add s.replay req.nonce now)

  -- `handle`. The address is the host that `net.SplitHostPort` gives, if it gives one.
  unfoldable pub handle : UdpEcho → Text → Option Text → Time → UdpEcho × Sent
  unfolding answer check_request
  handle s pkt none now = (s, none)
  handle s pkt (some host) now =
      if not (flag (Dict.lookup host s.allowed))
      then (s, none)
      else check_request s (decode_request h s.secret pkt) now

  -- The loop: the server afterwards, what it sent, and whether it has returned. The buffer has 2048
  -- bytes.
  unfoldable pub run : UdpEcho → List Event → UdpEcho × List Sent × Bool
  run s [] = (s, [], false)
  run s (received pkt host now ∷ events) =
      let (s', sent) = handle s (take 2048 pkt) host now in
      let (s'', more, stopped) = run s' events in (s'', sent ∷ more, stopped)
  run s (read_failed ∷ events) = let rest = run s events in if s.closed then (s, [], true) else rest
  run s (close ∷ events) = run (record s { closed = true }) events
