-- ===== src/Echo/Replies.antt =====
-- When the echo server answers, and what it sends.
pub mod Authentic
use mesh_checker.Base.{
  ◌≡◌, refl, ◌↔◌, inl, inr, true, false, Option, none, some, Text, text_eq, ◌||◌, ok, arith,
  Fallible-cases,
}
use mesh_checker.Base.Int.{pos, ◌+ℤ◌, ◌-ℤ◌, ◌≤ℤ◌, ltb_ℤ, -ℤ_parts, +ℤ_parts}
use mesh_checker.Base.Dict
use mesh_checker.Probe.{Time}
use mesh_checker.Udp.Mac.{MacScheme}
use mesh_checker.Udp.Payload.{Request, decode_request, encode_response}
use mesh_checker.Udp.Replay.{seen_or_add}
use mesh_checker.Echo.Replies.Authentic.{IsAuthentic, decode_request-IsAuthentic}
use mesh_checker.Echo.{UdpEcho, clock_window, sub_time, answer, check_request, handle}

-- Two instants at most 30 seconds apart.
abbrev pub IsNear : Time → Time → Type 0
IsNear now ts = (now ≤ℤ ts +ℤ clock_window) × (ts ≤ℤ now +ℤ clock_window)

-- The two comparisons of the code, with the saturating difference, are that.
pub window_test :
    (now ts : Time)
    → ((ltb_ℤ clock_window (sub_time now ts) || ltb_ℤ (sub_time now ts) (pos 0 -ℤ clock_window))
        ≡ false)
      ↔ IsNear now ts
unfolding sub_time
window_test now ts = ground (
  arith,
  -ℤ_parts now ts,
  -ℤ_parts (pos 0) clock_window,
  +ℤ_parts ts clock_window,
  +ℤ_parts now clock_window,
)

module _ (h : MacScheme) where
  -- All that the server checks before it answers with `reply`.
  pub record Answers (s : UdpEcho) (pkt : Text) (host : Option Text) (now : Time) (reply : Text)
      : Type 0 where
    pub ip : Text
    pub request : Request
    pub from_ip : host ≡ some ip
    pub listed : Dict.lookup ip s.allowed ≡ some true
    pub authentic : IsAuthentic h s.secret pkt request
    pub near : IsNear now request.timestamp
    pub unseen : (seen_or_add s.replay request.nonce now).1 ≡ false
    pub response : encode_response h s.secret request.nonce now ≡ ok reply

  pub Answers-decoded :
      {s : UdpEcho} {pkt : Text} {host : Option Text} {now : Time} {reply : Text}
      (a : Answers s pkt host now reply)
      → decode_request h s.secret pkt ≡ ok a.request
  Answers-decoded {s} {pkt} a = (decode_request-IsAuthentic h s.secret pkt a.request).1 a.authentic

  answer-sent :
      (s : UdpEcho) (req : Request) (now : Time) (reply : Text)
      → ((answer h s req now (seen_or_add s.replay req.nonce now)).1 ≡ some reply) ↔ (
          ((seen_or_add s.replay req.nonce now).1 ≡ false)
          × (encode_response h s.secret req.nonce now ≡ ok reply))
  unfolding answer
  answer-sent s req now reply = ground arith

  check_request-sent :
      (s : UdpEcho) (req : Request) (now : Time) (reply : Text)
      → s.ts_window ≡ clock_window
      → ((check_request h s (ok req) now).1 ≡ some reply) ↔ (
          IsNear now req.timestamp
          × ((answer h s req now (seen_or_add s.replay req.nonce now)).1 ≡ some reply))
  unfolding check_request
  check_request-sent s req now reply w = rw w (ground (arith, window_test now req.timestamp))

  handle-sent :
      (s : UdpEcho) (pkt : Text) (host : Option Text) (now : Time) {reply : Text}
      → (handle h s pkt host now).1 ≡ some reply
      → (ip : Text) × (req : Request) × (host ≡ some ip)
        × (Dict.lookup ip s.allowed ≡ some true)
        × (decode_request h s.secret pkt ≡ ok req)
        × ((check_request h s (ok req) now).1 ≡ some reply)
  unfolding handle
  handle-sent s pkt none now e = cc
  handle-sent s pkt (some ip) now e = elim (Fallible-cases (decode_request h s.secret pkt)) [
    | inl (bad, q) ↦ ground (arith, q)
    | inr (req, q) ↦ (ip, req, refl, ground arith, q, ground (arith, q))
  ]

  -- A server with the window of 30 seconds answers a packet with `reply` exactly when the sender is
  -- listed, the packet is a body of at least 25 bytes with the code of that body under the server's
  -- secret behind it, the instant in the body is at most 30 seconds from the clock (30 included),
  -- its nonce is not in the replay cache, and `reply` is the encoded response for that nonce and
  -- the server's clock.
  pub handle-Answers :
      (s : UdpEcho) (pkt : Text) (host : Option Text) (now : Time) (reply : Text)
      → s.ts_window ≡ clock_window
      → ((handle h s pkt host now).1 ≡ some reply) ↔ Answers s pkt host now reply
  unfolding handle
  handle-Answers s pkt host now reply w = (
    λ e.
        let (ip, req, from, listed, decoded, sent) = handle-sent s pkt host now e in
        let (near, sent') = (check_request-sent s req now reply w).0 sent in
        let (unseen, response) = (answer-sent s req now reply).0 sent' in
        record {
          ip = ip;
          request = req;
          from_ip = from;
          listed = listed;
          authentic = (decode_request-IsAuthentic h s.secret pkt req).0 decoded;
          near = near;
          unseen = unseen;
          response = response;
        },
    λ a.
        let sent' = (answer-sent s a.request now reply).1 (a.unseen, a.response) in
        let sent = (check_request-sent s a.request now reply w).1 (a.near, sent') in
        ground (arith, sent, Answers-decoded a, a.from_ip, a.listed),
  )
