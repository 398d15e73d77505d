-- ===== src/Udp/Payload/Laws.antt =====
-- The wire format: decoding inverts encoding, in both directions.
use mesh_checker.Base.{
  ◌+◌, ◌-◌, ◌^◌, ◌≤◌, ◌<◌, ◌≡◌, ◌≢◌, refl, ap, ap₂, ◌∙◌, true, ◌++◌, append_assoc, Text, text_eq,
  length, take, drop, slice, replicate, copy, ok, arith, All, length-append, copy_full,
  take-append_slice, slice-append_length, length-slice, take-append_length, drop-append_length,
  All-take, All-drop, take-append-drop, length-take, nat_eq, ==_self, ==→eq,
}
use mesh_checker.Base.Int.{
  to_uint64, to_int64, to_uint64-lt, to_int64-to_uint64, to_uint64-to_int64, to_int64_bounds,
  min_int64, max_int64, ◌≤ℤ◌,
}
use mesh_checker.Probe.{Time}
use mesh_checker.Udp.Mac.{MacScheme}
use mesh_checker.Udp.Payload.{
  Nonce, Request, read_nonce, read_time, stamp, sign, verifies, encode_request, decode_request,
}
use mesh_checker.Udp.Payload.Bytes.{
  put_uint64, be_uint64, length-put_uint64, be_uint64-put_uint64, put_uint64-be_uint64,
}

-- An instant that `UnixNano` gives without overflow.
abbrev pub IsUnixNano : Time → Type 0
IsUnixNano ts = (min_int64 ≤ℤ ts) × (ts ≤ℤ max_int64)

abbrev pub IsBytes : Text → Type 0
IsBytes b = All (λ x. x < 256) b

-- Reading back what `stamp` wrote, whatever follows.
pub read_stamp :
    (nonce : Nonce) (ts : Time) (rest : Text)
    → length nonce ≡ 16
    → IsUnixNano ts
    → (read_nonce (nonce ++ (put_uint64 (to_uint64 ts) ++ rest)) ≡ nonce)
      × (read_time (nonce ++ (put_uint64 (to_uint64 ts) ++ rest)) ≡ ts)
read_stamp nonce ts rest n r = (
  ap (copy (replicate 16 0)) (take-append_length 16 nonce (bytes ++ rest) n)
      ∙ copy_full (replicate 16 0) nonce n,
  ap (λ b. to_int64 (be_uint64 b))
        (slice-append_length 16 24 nonce (bytes ++ rest) n
          ∙ take-append_length 8 bytes rest (length-put_uint64 (to_uint64 ts)))
      ∙ (ap to_int64 (be_uint64-put_uint64 (to_uint64 ts) (to_uint64-lt ts))
          ∙ to_int64-to_uint64 ts r.0 r.1),
)
  where
    bytes : Text
    bytes = put_uint64 (to_uint64 ts)

module _ (h : MacScheme) where
  pub length-stamp :
      (nonce : Nonce) (ts : Time) → length nonce ≡ 16 → length (stamp h nonce ts) ≡ 24
  length-stamp nonce ts n =
      omega
        (arith, length-append nonce (put_uint64 (to_uint64 ts)), length-put_uint64 (to_uint64 ts))

  pub length-sign : (secret body : Text) → length (sign h secret body) ≡ length body + 32
  length-sign secret body =
      omega (arith, length-append body (h.mac secret body), h.length-mac secret body)

  pub verifies-sign : (secret body : Text) → verifies h secret (sign h secret body) ≡ true
  verifies-sign secret body =
      rw
        (
          body_len,
          take-append_length (length body) body (h.mac secret body) refl,
          drop-append_length (length body) body (h.mac secret body) refl,
        )
        (==_self (h.mac secret body))
    where
      body_len : length (sign h secret body) - 32 ≡ length body
      body_len = omega (arith, length-sign secret body)

  pub encode_request-ok :
      (secret : Text) (nonce : Nonce) (ts : Time) (host : Text) {buf : Text}
      → encode_request h secret nonce ts host ≡ ok buf
      → (length host ≢ 0) × (buf ≡ sign h secret (stamp h nonce ts ++ host))
  unfolding encode_request nat_eq
  encode_request-ok secret nonce ts host e = ground arith

  pub length-request :
      (secret : Text) (nonce : Nonce) (ts : Time) (host : Text)
      → length nonce ≡ 16
      → length (sign h secret (stamp h nonce ts ++ host)) ≡ 56 + length host
  length-request secret nonce ts host n = omega (
    arith,
    length-sign secret (stamp h nonce ts ++ host),
    length-append (stamp h nonce ts) host,
    length-stamp nonce ts n,
  )

  pub read_request :
      (secret : Text) (nonce : Nonce) (ts : Time) (host : Text)
      → length nonce ≡ 16
      → IsUnixNano ts
      → let buf = sign h secret (stamp h nonce ts ++ host) in
        (length buf ≡ 56 + length host)
        × (read_nonce buf ≡ nonce)
        × (read_time buf ≡ ts)
        × (slice 24 (length buf - 32) buf ≡ host)
  read_request secret nonce ts host n r = (
    size,
    rw regroup (read_stamp nonce ts (host ++ code) n r).0,
    rw regroup (read_stamp nonce ts (host ++ code) n r).1,
    rw (size, append_assoc (stamp h nonce ts) host code)
        (slice-append_length 24 (56 + length host - 32) (stamp h nonce ts) (host ++ code)
            (length-stamp nonce ts n)
          ∙ take-append_length (56 + length host - 32 - 24) host code (omega arith)),
  )
    where
      code : Text
      code = h.mac secret (stamp h nonce ts ++ host)

      regroup :
          ((nonce ++ put_uint64 (to_uint64 ts)) ++ host) ++ code
          ≡ nonce ++ (put_uint64 (to_uint64 ts) ++ (host ++ code))
      regroup = simp append_assoc

      size : length (sign h secret (stamp h nonce ts ++ host)) ≡ 56 + length host
      size = length-request secret nonce ts host n

  -- A request that was encoded for a host, with a nonce of 16 bytes and an instant whose
  -- nanoseconds an int64 holds, is decoded to its nonce, its instant and its host name.
  pub decode_request-encode_request :
      (secret : Text) (nonce : Nonce) (ts : Time) (host : Text) {buf : Text}
      → length nonce ≡ 16
      → IsUnixNano ts
      → encode_request h secret nonce ts host ≡ ok buf
      → decode_request h secret buf
        ≡ ok (record { nonce = nonce; timestamp = ts; host_name = host })
  unfolding decode_request
  decode_request-encode_request secret nonce ts host {buf} n r e =
      let (some_host, whole) = encode_request-ok secret nonce ts host e in
      let (size, is_nonce, is_time, is_host) = read_request secret nonce ts host n r in
      rw (whole, is_nonce, is_time, is_host, verifies-sign secret (stamp h nonce ts ++ host))
        (ground arith)

  -- The body that `verifies` authenticated, with its code, is the whole packet.
  pub verified_body :
      (secret buf : Text)
      → verifies h secret buf ≡ true
      → sign h secret (take (length buf - 32) buf) ≡ buf
  verified_body secret buf v =
      ap (◌++◌ (take (length buf - 32) buf))
        (==→eq (h.mac secret (take (length buf - 32) buf)) (drop (length buf - 32) buf) v)
      ∙ take-append-drop (length buf - 32) buf

  -- What the decoders read is what `stamp` would write.
  stamp_read :
      (buf : Text)
      → 24 ≤ length buf
      → IsBytes buf
      → (stamp h (read_nonce buf) (read_time buf) ≡ take 24 buf)
        × (length (read_nonce buf) ≡ 16)
        × IsUnixNano (read_time buf)
  stamp_read buf enough bytes = (
    ap₂ ◌++◌ nonce_read (ap put_uint64 (to_uint64-to_int64 (be_uint64 eight) printed.1) ∙ printed.0)
        ∙ take-append_slice 16 24 buf (omega arith),
    ap length nonce_read ∙ nonce_size,
    to_int64_bounds (be_uint64 eight) printed.1,
  )
    where
      eight : Text
      eight = slice 16 24 buf

      nonce_size : length (take 16 buf) ≡ 16
      nonce_size = omega (arith, length-take 16 buf)

      nonce_read : read_nonce buf ≡ take 16 buf
      nonce_read = copy_full (replicate 16 0) (take 16 buf) nonce_size

      printed : (put_uint64 (be_uint64 eight) ≡ eight) × (be_uint64 eight < 2 ^ 64)
      printed =
          put_uint64-be_uint64 eight (omega (arith, length-slice 16 24 buf))
            (All-take (λ x. x < 256) 8 (drop 16 buf) (All-drop (λ x. x < 256) 16 buf bytes))

  pub decode_request-ok :
      (secret buf : Text) {r : Request}
      → decode_request h secret buf ≡ ok r
      → (57 ≤ length buf)
        × (verifies h secret buf ≡ true)
        × (r.nonce ≡ read_nonce buf)
        × (r.timestamp ≡ read_time buf)
        × (r.host_name ≡ slice 24 (length buf - 32) buf)
  unfolding decode_request
  decode_request-ok secret buf e = ground arith

  -- Each accepted request that consists of bytes is what `EncodeRequest` makes, under the same
  -- secret, of the fields that were read, so no byte of it is left out; its nonce has 16 bytes and
  -- the nanoseconds of its instant fit an int64.
  pub encode_request-decode_request :
      (secret buf : Text) {r : Request}
      → IsBytes buf
      → decode_request h secret buf ≡ ok r
      → (encode_request h secret r.nonce r.timestamp r.host_name ≡ ok buf)
        × (length r.nonce ≡ 16)
        × IsUnixNano r.timestamp
  unfolding encode_request nat_eq
  encode_request-decode_request secret buf {r} bytes e =
      let (size, v, is_nonce, is_time, is_host) = decode_request-ok secret buf e in
      let (stamped, n, range) = stamp_read buf (omega arith) bytes in
      rw (is_nonce, is_time, is_host, stamped)
        (
          ground (
            arith,
            take-append_slice 24 (length buf - 32) buf,
            verified_body secret buf v,
            length-slice 24 (length buf - 32) buf,
          ),
          n,
          range,
        )
