-- ===== src/Udp/Payload/Responses.antt =====
-- Responses on the wire, and how they differ from requests.
use mesh_checker.Base.{
  ◌+◌, ◌<◌, ◌≡◌, refl, append_assoc, Text, length, ok, err, arith, nat_eq, text_eq,
}
use mesh_checker.Base.Int.{to_uint64}
use mesh_checker.Probe.{Time}
use mesh_checker.Udp.Mac.{MacScheme}
use mesh_checker.Udp.Payload.{
  Nonce, too_short, wrong_length, stamp, sign, read_nonce, read_time, encode_request,
  decode_request, encode_response, decode_response,
}
use mesh_checker.Udp.Payload.Bytes.{put_uint64}
use mesh_checker.Udp.Payload.Laws
use mesh_checker.Udp.Payload.Laws.{IsUnixNano, read_stamp}

module _ (h : MacScheme) where
  encode_response-ok :
      (secret : Text) (nonce : Nonce) (ts : Time) {buf : Text}
      → encode_response h secret nonce ts ≡ ok buf
      → buf ≡ sign h secret (stamp h nonce ts)
  unfolding encode_response
  encode_response-ok secret nonce ts e = ground arith

  pub length-response :
      (secret : Text) (nonce : Nonce) (ts : Time)
      → length nonce ≡ 16
      → length (sign h secret (stamp h nonce ts)) ≡ 56
  length-response secret nonce ts n =
      omega (arith, Laws.length-sign h secret (stamp h nonce ts), Laws.length-stamp h nonce ts n)

  -- A response with a nonce of 16 bytes and an instant whose nanoseconds an int64 holds is decoded
  -- to that nonce and that instant.
  pub decode_response-encode_response :
      (secret : Text) (nonce : Nonce) (ts : Time) {buf : Text}
      → length nonce ≡ 16
      → IsUnixNano ts
      → encode_response h secret nonce ts ≡ ok buf
      → decode_response h secret buf ≡ ok (nonce, ts)
  unfolding decode_response nat_eq
  decode_response-encode_response secret nonce ts {buf} n r e =
      let code = h.mac secret (stamp h nonce ts) in
      let regroup = append_assoc nonce (put_uint64 (to_uint64 ts)) code in
      let is_nonce : read_nonce (sign h secret (stamp h nonce ts)) ≡ nonce =
        rw regroup (read_stamp nonce ts code n r).0 in
      let is_time : read_time (sign h secret (stamp h nonce ts)) ≡ ts =
        rw regroup (read_stamp nonce ts code n r).1 in
      rw
        (
          encode_response-ok secret nonce ts e,
          is_nonce,
          is_time,
          Laws.verifies-sign h secret (stamp h nonce ts),
          length-response secret nonce ts n,
        )
        refl

  -- For nonces of 16 bytes, a response is shorter than every request, the decoder of requests
  -- refuses a response as too short, and that of responses a request for its length, under any
  -- secret.
  pub kinds_apart :
      (secret other : Text) (nonce nonce' : Nonce) (ts ts' : Time) (host : Text)
      {request response : Text}
      → length nonce ≡ 16
      → length nonce' ≡ 16
      → encode_request h secret nonce ts host ≡ ok request
      → encode_response h secret nonce' ts' ≡ ok response
      → (length response < length request)
        × (decode_request h other response ≡ err too_short)
        × (decode_response h other request ≡ err wrong_length)
  unfolding decode_request decode_response nat_eq
  kinds_apart secret other nonce nonce' ts ts' host {request} {response} n n' e e' =
      let (some_host, whole) = Laws.encode_request-ok h secret nonce ts host e in
      let whole' = encode_response-ok secret nonce' ts' e' in
      let size : length request ≡ 56 + length host =
        rw whole (Laws.length-request h secret nonce ts host n) in
      let size' : length response ≡ 56 = rw whole' (length-response secret nonce' ts' n') in
      (omega arith, ground arith, ground arith)
