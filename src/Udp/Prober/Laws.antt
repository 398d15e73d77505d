-- ===== src/Udp/Prober/Laws.antt =====
-- What a successful UDP probe has seen.
use mesh_checker.Base.{
  ◌≡◌, refl, ◌↔◌, true, false, Text, text_eq, take, Fallible, ok, err, arith, Fallible-cases,
  ==_self, inl, inr,
}
use mesh_checker.Probe.{Target, Result, Time}
use mesh_checker.Udp.Mac.{MacScheme}
use mesh_checker.Udp.Payload.{Nonce, encode_request, decode_response}
use mesh_checker.Udp.Prober.{Prober, Network, probe, started, check_reply, exchange}

module _ (h : MacScheme) (p : Prober) (n : Network) where
  -- The exchange that a success needs: the request went out under the probe's own nonce, and the
  -- datagram that came back is an authentic response to that nonce.
  pub record Answered (start : Time) (target : Target) : Type 0 where
    pub nonce : Nonce
    pub request : Text
    pub datagram : Text
    pub answered_at : Time
    pub fresh_nonce : n.new_nonce ≡ ok nonce
    pub encoded : encode_request h p.secret nonce start p.host_name ≡ ok request
    pub dialled : n.dial target.addr target.udp_port ≡ ok tt
    pub written : n.write request ≡ ok tt
    pub received : n.read request ≡ ok datagram
    pub authentic : decode_response h p.secret (take 1024 datagram) ≡ ok (nonce, answered_at)

  check_reply-ok :
      (r : Result) (nonce : Nonce) (reply : Fallible Text Text)
      → r.is_ok ≡ false
      → (check_reply h p n r nonce reply).is_ok ≡ true
      → (datagram : Text) × (ts : Time) × (reply ≡ ok datagram)
        × (decode_response h p.secret (take 1024 datagram) ≡ ok (nonce, ts))
  unfolding check_reply
  check_reply-ok r nonce (err e) not_yet y = cc
  check_reply-ok r nonce (ok datagram) not_yet y =
      elim (Fallible-cases (decode_response h p.secret (take 1024 datagram))) [
        | inl (e, q) ↦ ground (arith, q)
        | inr ((got, ts), q) ↦ (datagram, ts, refl, ground (arith, q))
      ]

  exchange-ok :
      (r : Result) (target : Target) (nonce : Nonce) (request : Text)
      → r.is_ok ≡ false
      → (exchange h p n r target nonce request).is_ok ≡ true
      → (n.dial target.addr target.udp_port ≡ ok tt)
        × (n.write request ≡ ok tt)
        × ((check_reply h p n (record r { latency = n.elapsed }) nonce (n.read request)).is_ok
            ≡ true)
  unfolding exchange
  exchange-ok r target nonce request not_yet y = ground arith

  probe-ok :
      (start : Time) (target : Target)
      → (probe h p n start target).is_ok ≡ true
      → (nonce : Nonce) × (request : Text) × (n.new_nonce ≡ ok nonce)
        × (encode_request h p.secret nonce start p.host_name ≡ ok request)
        × ((exchange h p n (started start) target nonce request).is_ok ≡ true)
  unfolding probe
  probe-ok start target y = elim (Fallible-cases n.new_nonce) [
    | inl (e, q) ↦ ground (arith, q)
    | inr (nonce, q) ↦ elim (Fallible-cases (encode_request h p.secret nonce start p.host_name)) [
      | inl (e, q') ↦ ground (arith, q, q')
      | inr (request, q') ↦ (nonce, request, q, q', ground (arith, q, q'))
    ]
  ]

  pub probe-Answered :
      (start : Time) (target : Target)
      → ((probe h p n start target).is_ok ≡ true) ↔ Answered start target
  unfolding probe
  probe-Answered start target = (
    λ y.
        let (nonce, request, q, q', y') = probe-ok start target y in
        let (d, w, y'') = exchange-ok (started start) target nonce request refl y' in
        let (datagram, ts, got, auth) = check_reply-ok _ nonce (n.read request) refl y'' in
        record {
          nonce = nonce;
          request = request;
          datagram = datagram;
          answered_at = ts;
          fresh_nonce = q;
          encoded = q';
          dialled = d;
          written = w;
          received = got;
          authentic = auth;
        },
    λ a. ground (arith, ==_self a.nonce),
  )
