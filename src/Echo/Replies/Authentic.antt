-- ===== src/Echo/Replies/Authentic.antt =====
-- Which packets `DecodeRequest` accepts, from the layout of the packet alone.
use mesh_checker.Base.{
  ℕ, zero, suc, [], ◌∷◌, length-drop, take-append_length, ◌-◌, ◌≤◌, ◌≡◌, ◌↔◌, refl, sym, ap, ◌∙◌,
  ◌++◌, Text, text_eq, length, take, drop, slice, replicate, copy, copy_full, ok, ok_injective,
  arith, length-take, drop-append,
}
use mesh_checker.Base.Int.{to_int64}
use mesh_checker.Udp.Mac.{MacScheme}
use mesh_checker.Udp.Payload.{Request, sign, decode_request, read_nonce, read_time}
use mesh_checker.Udp.Payload.Bytes.{be_uint64}
use mesh_checker.Udp.Payload.Laws.{length-sign, verifies-sign, verified_body, decode_request-ok}

-- The fields of a body: a nonce of 16 bytes, the nanoseconds in 8 bytes, and the host name.
abbrev pub fields_of : Text → Request
fields_of body = record {
  nonce = take 16 body;
  timestamp = to_int64 (be_uint64 (take 8 (drop 16 body)));
  host_name = drop 24 body;
}

take-append_le : (n : ℕ) (a b : Text) → n ≤ length a → take n (a ++ b) ≡ take n a
take-append_le zero a b h = refl
take-append_le (suc n) [] b h = absurd (omega arith)
take-append_le (suc n) (x ∷ a) b h = ap (◌∷◌ x) (take-append_le n a b (omega arith))

module _ (h : MacScheme) where
  -- A packet is a body of at least 25 bytes and, behind it, the code of that body under the secret.
  pub record IsAuthentic (secret pkt : Text) (r : Request) : Type 0 where
    pub body : Text
    pub long : 25 ≤ length body
    pub coded : pkt ≡ body ++ h.mac secret body
    pub fields : r ≡ fields_of body

  decode_request-sign :
      (secret body : Text)
      → 25 ≤ length body
      → decode_request h secret (sign h secret body) ≡ ok (fields_of body)
  unfolding decode_request
  decode_request-sign secret body long =
      let code = h.mac secret body in
      let buf = sign h secret body in
      let size = length-sign h secret body in
      let nonce : read_nonce buf ≡ take 16 body =
        ap (copy (replicate 16 0)) (take-append_le 16 body code (omega (arith, long)))
        ∙ copy_full (replicate 16 0) (take 16 body) (omega (arith, length-take 16 body, long)) in
      let time : read_time buf ≡ (fields_of body).timestamp =
        ap (λ t. to_int64 (be_uint64 (take 8 t))) (drop-append 16 body code (omega (arith, long)))
        ∙ ap (λ t. to_int64 (be_uint64 t))
            (take-append_le 8 (drop 16 body) code (omega (arith, length-drop 16 body, long))) in
      let name : slice 24 (length buf - 32) buf ≡ drop 24 body =
        ap (take (length buf - 32 - 24)) (drop-append 24 body code (omega (arith, long)))
        ∙ take-append_length (length buf - 32 - 24) (drop 24 body) code
            (omega (arith, length-drop 24 body, size, long)) in
      rw (nonce, time, name, verifies-sign h secret body) (ground (arith, size, long))

  -- Exactly the authentic packets are decoded, to the fields of their bodies.
  pub decode_request-IsAuthentic :
      (secret pkt : Text) (r : Request)
      → (decode_request h secret pkt ≡ ok r) ↔ IsAuthentic secret pkt r
  decode_request-IsAuthentic secret pkt r = (
    λ e.
        let (size, v, _, _, _) = decode_request-ok h secret pkt e in
        let body = take (length pkt - 32) pkt in
        let coded : pkt ≡ body ++ h.mac secret body = sym (verified_body h secret pkt v) in
        let long : 25 ≤ length body = omega (arith, length-take (length pkt - 32) pkt, size) in
        record {
          body = body;
          long = long;
          coded = coded;
          fields =
              ok_injective r (fields_of body)
                (sym e ∙ ap (decode_request h secret) coded ∙ decode_request-sign secret body long);
        },
    λ a.
        ap (decode_request h secret) a.coded
        ∙ decode_request-sign secret a.body a.long
        ∙ ap ok (sym a.fields),
  )
