-- ===== src/Echo/Exchange.antt =====
-- A prober and an echo server with the same secret understand each other.
use mesh_checker.Base.{
  ◌≤◌, ◌≡◌, ◌≢◌, refl, ap, true, false, none, some, ◌++◌, Text, text_eq, codes, Fallible, ok, err,
  arith, length, take, take_all, nat_eq,
}
use mesh_checker.Base.Dict
use mesh_checker.Probe.{Target, Time, Duration}
use mesh_checker.Udp.Mac.{MacScheme}
use mesh_checker.Udp.Payload.{
  Nonce, stamp, sign, encode_request, encode_response, decode_response, decode_request,
}
use mesh_checker.Udp.Payload.Laws.{IsUnixNano, decode_request-encode_request, length-request}
use mesh_checker.Udp.Payload.Responses.{decode_response-encode_response, length-response}
use mesh_checker.Udp.Prober.{Prober, Network, probe}
use mesh_checker.Udp.Prober.Laws.{probe-Answered}
use mesh_checker.Udp.Replay.{seen_or_add}
use mesh_checker.Echo.{UdpEcho, Sent, clock_window, handle}
use mesh_checker.Echo.Replies.Authentic.{decode_request-IsAuthentic}
use mesh_checker.Echo.Replies.{IsNear, handle-Answers}

-- What the prober reads: the reply, or a timeout.
abbrev pub reply_or_timeout : Sent → Fallible Text Text
reply_or_timeout (some reply) = ok reply
reply_or_timeout none = err (codes "i/o timeout")

module _ (h : MacScheme) where
  -- A network that carries the request to the server, which handles it at `now`, and the reply back.
  abbrev pub wire : UdpEcho → Text → Time → Nonce → Duration → Network
  wire s ip now nonce elapsed = record {
    new_nonce = ok nonce;
    dial = λ addr port. ok tt;
    write = λ req. ok tt;
    read = λ req. reply_or_timeout (handle h s (take 2048 req) (some ip) now).1;
    elapsed = elapsed;
  }

  encode_request-sign :
      (secret : Text) (nonce : Nonce) (ts : Time) (host : Text)
      → length host ≢ 0
      → encode_request h secret nonce ts host ≡ ok (sign h secret (stamp h nonce ts ++ host))
  unfolding encode_request nat_eq
  encode_request-sign secret nonce ts host n = ground arith

  -- A probe over a network that carries the request to the server and its reply back succeeds, if
  -- the secrets agree, the server has the window of 30 seconds and lists the prober's address, the
  -- clocks are at most 30 seconds apart (30 included) and their nanoseconds fit an int64, the nonce
  -- has 16 bytes and the server has not seen it, and the host name is neither empty nor longer than
  -- 1992 bytes, which the server's buffer holds.
  pub probe-handle :
      (p : Prober) (s : UdpEcho) (ip : Text) (start now : Time) (nonce : Nonce) (elapsed : Duration)
      (target : Target)
      → p.secret ≡ s.secret
      → s.ts_window ≡ clock_window
      → Dict.lookup ip s.allowed ≡ some true
      → IsNear now start
      → IsUnixNano start
      → IsUnixNano now
      → length nonce ≡ 16
      → (seen_or_add s.replay nonce now).1 ≡ false
      → length p.host_name ≢ 0
      → length p.host_name ≤ 1992
      → (probe h p (wire s ip now nonce elapsed) start target).is_ok ≡ true
  unfolding encode_response
  probe-handle p s ip start now nonce elapsed target same w listed near start_ok now_ok n unseen
        some_host short =
      (probe-Answered h p (wire s ip now nonce elapsed) start target).1 (record {
        nonce = nonce;
        request = request;
        datagram = reply;
        answered_at = now;
        fresh_nonce = refl;
        encoded = encode_request-sign p.secret nonce start p.host_name some_host;
        dialled = refl;
        written = refl;
        received = ap reply_or_timeout sent;
        authentic = understood;
      })
    where
      request : Text
      request = sign h p.secret (stamp h nonce start ++ p.host_name)

      reply : Text
      reply = sign h p.secret (stamp h nonce now)

      fits : take 2048 request ≡ request
      fits =
          take_all 2048 request (omega (arith, length-request h p.secret nonce start p.host_name n))

      decoded :
          decode_request h p.secret request
          ≡ ok (record { nonce = nonce; timestamp = start; host_name = p.host_name })
      decoded =
          decode_request-encode_request h p.secret nonce start p.host_name n start_ok
            (encode_request-sign p.secret nonce start p.host_name some_host)

      sent : (handle h s (take 2048 request) (some ip) now).1 ≡ some reply
      sent = (handle-Answers h s (take 2048 request) (some ip) now reply w).1 (record {
        ip = ip;
        request = record { nonce = nonce; timestamp = start; host_name = p.host_name };
        from_ip = refl;
        listed = listed;
        authentic =
            (decode_request-IsAuthentic h s.secret (take 2048 request)
                (record { nonce = nonce; timestamp = start; host_name = p.host_name })).0
              (rw (fits, ← same) decoded);
        near = near;
        unseen = unseen;
        response = rw (← same) refl;
      })

      understood : decode_response h p.secret (take 1024 reply) ≡ ok (nonce, now)
      understood =
          rw (take_all 1024 reply (omega (arith, length-response h p.secret nonce now n)))
            (decode_response-encode_response h p.secret nonce now n now_ok refl)
