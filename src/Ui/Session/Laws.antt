-- ===== src/Ui/Session/Laws.antt =====
-- Tokens: what `Issue` made is verified until it expires, and nothing else is verified.
use mathlib.Core.List.{cons-ne-nil}
use mesh_checker.Base.{
  ℕ, ◌+◌, ◌-◌, ◌<◌, ◌≡◌, ◌≢◌, refl, sym, ap, ap₂, ◌∙◌, inl, inr, ◌++◌, false, some, [], ◌∷◌, Text,
  text_eq, nat_eq, codes, if◌then◌else◌, length, take, drop, slice, ok, err, arith, All, All-append,
  Option-cases, ℕ_discrete, append_assoc, take-append_length, drop-append_length, length-append,
  ==_self, take-append-drop, take-append_slice,
}
use mesh_checker.Base.Int.{ℤ, ◌+ℤ◌, ◌≤ℤ◌, ◌<ℤ◌, leb_ℤ, min_int64, max_int64}
use mesh_checker.Decimal.{format_int, parse_int}
use mesh_checker.Decimal.RoundTrip.{parse_int-format_int, format_int-bytes}
use mesh_checker.Probe.{Time}
use mesh_checker.Udp.Mac.{MacScheme}
use mesh_checker.Ui.Base64.{Base64}
use mesh_checker.Ui.Session.{
  Session, expired, has_forbidden, unix, split_colon, issue, check_payload, check_raw, verify,
}

abbrev pub Lacks : ℕ → Text → Type 0
Lacks b s = All (λ c. c ≢ b) s

allowed-Lacks : (user : Text) → has_forbidden user ≡ false → Lacks b':' user
unfolding has_forbidden
allowed-Lacks [] h = tt
allowed-Lacks (c ∷ user) h = ground (arith, allowed-Lacks user)

split_colon-append :
    (user rest : Text) → Lacks b':' user → split_colon (user ++ (b':' ∷ rest)) ≡ some (user, rest)
unfolding split_colon
split_colon-append [] rest h = refl
split_colon-append (c ∷ user) rest h = ground (arith, split_colon-append user rest h.1, h.0)

split_colon_sound :
    (p user rest : Text)
    → split_colon p ≡ some (user, rest)
    → (p ≡ user ++ (b':' ∷ rest)) × Lacks b':' user
unfolding split_colon
split_colon_sound [] user rest e = cc
split_colon_sound (c ∷ p) user rest e = elim (ℕ_discrete c b':') [
  | yes colon ↦ (ground arith, ground arith)
  | no other ↦ elim (Option-cases (split_colon p)) [
    | inl q ↦ ground (arith, q)
    | inr ((u, r), q) ↦ ground (arith, q, split_colon_sound p u r q)
  ]
]

middle-ne-nil : (user rest : Text) → user ++ (b':' ∷ rest) ≢ []
middle-ne-nil [] rest = cons-ne-nil b':' rest
middle-ne-nil (c ∷ user) rest = cons-ne-nil c (user ++ (b':' ∷ rest))

length_pos : (b : Text) → b ≢ [] → 0 < length b
length_pos [] h = absurd (h refl)
length_pos (x ∷ b) h = omega arith

module _ (h : MacScheme) (b64 : Base64) (s : Session) where
  -- The raw token of a payload.
  abbrev pub seal : Text → Text
  seal payload = (payload ++ codes ":") ++ h.mac s.secret payload

  length-seal : (payload : Text) → length (seal payload) ≡ length payload + 33
  length-seal payload = omega (
    arith,
    length-append (payload ++ codes ":") (h.mac s.secret payload),
    length-append payload (codes ":"),
    h.length-mac s.secret payload,
  )

  -- Where `Verify` finds the parts of a token.
  seal_parts :
      (payload : Text)
      → let raw = seal payload in
        let n = length payload in
        (take n raw ≡ payload)
        × (slice n (n + 1) raw ≡ codes ":")
        × (drop (n + 1) raw ≡ h.mac s.secret payload)
  seal_parts payload = (
    rw regroup (take-append_length n payload rest refl),
    rw regroup (
        ap (take (n + 1 - n)) (drop-append_length n payload rest refl)
        ∙ ap (λ k. take k rest) (one_more n)),
    drop-append_length (n + 1) (payload ++ codes ":") code
        (omega (arith, length-append payload (codes ":"))),
  )
    where
      n : ℕ
      n = length payload

      code : Text
      code = h.mac s.secret payload

      rest : Text
      rest = b':' ∷ code

      regroup : seal payload ≡ payload ++ rest
      regroup = append_assoc payload (codes ":") code

      one_more : (n : ℕ) → n + 1 - n ≡ 1
      one_more n = omega arith

  check_raw-seal :
      (payload : Text) (now : Time)
      → payload ≢ []
      → check_raw h b64 s (seal payload) now ≡ check_payload h b64 s (split_colon payload) now
  unfolding check_raw
  check_raw-seal payload now some_payload =
      let (front, colon, code) = seal_parts payload in
      rw (start, start_less, front, colon, code, ==_self (h.mac s.secret payload))
        (ground (arith, length-seal payload, length_pos payload))
    where
      start : length (seal payload) - 32 ≡ length payload + 1
      start = omega (arith, length-seal payload)

      start_less : length payload + 1 - 1 ≡ length payload
      start_less = omega arith

  check_raw-ok :
      (raw : Text) (now : Time) {user : Text}
      → check_raw h b64 s raw now ≡ ok user
      → let m = length raw - 32 in
        (33 < length raw)
        × (slice (m - 1) m raw ≡ codes ":")
        × (h.mac s.secret (take (m - 1) raw) ≡ drop m raw)
        × (check_payload h b64 s (split_colon (take (m - 1) raw)) now ≡ ok user)
  unfolding check_raw
  check_raw-ok raw now e = ground arith

  check_raw_sound :
      (raw : Text) (now : Time) {user : Text}
      → check_raw h b64 s raw now ≡ ok user
      → (payload : Text) × (raw ≡ seal payload)
        × (check_payload h b64 s (split_colon payload) now ≡ ok user)
  check_raw_sound raw now e =
      let m = length raw - 32 in
      let (long, colon, code, checked) = check_raw-ok raw now e in
      (
        take (m - 1) raw,
        sym (
            ap₂ ◌++◌
              (ap (◌++◌ (take (m - 1) raw)) (sym colon)
                ∙ take-append_slice (m - 1) m raw (omega arith))
              code
            ∙ take-append-drop m raw),
        checked,
      )

  issue-ok :
      (user : Text) (now : Time) {token : Text}
      → issue h b64 s user now ≡ ok token
      → (has_forbidden user ≡ false)
        × (token ≡ b64.encode (seal (user ++ (b':' ∷ format_int (unix (now +ℤ s.ttl))))))
  unfolding issue
  issue-ok user now e = ground arith

  seal-bytes :
      (user rest : Text)
      → All (λ x. x < 256) user
      → All (λ x. x < 256) rest
      → All (λ x. x < 256) (seal (user ++ (b':' ∷ rest)))
  seal-bytes user rest u r =
      let payload = user ++ (b':' ∷ rest) in
      let whole = All-append (λ x. x < 256) user (b':' ∷ rest) u (omega arith, r) in
      All-append (λ x. x < 256) (payload ++ codes ":") (h.mac s.secret payload)
        (All-append (λ x. x < 256) payload (codes ":") whole (omega arith))
        (h.bytes-mac s.secret payload)

  verify_decoded :
      (token raw : Text) (now : Time)
      → b64.decode token ≡ some raw
      → verify h b64 s token now ≡ check_raw h b64 s raw now
  unfolding verify
  verify_decoded token raw now e = rw (e, verify)

  check_payload-user :
      (user : Text) (exp : ℤ) (now : Time)
      → Lacks b':' user
      → min_int64 ≤ℤ exp
      → exp ≤ℤ max_int64
      → check_payload h b64 s (split_colon (user ++ (b':' ∷ format_int exp))) now
        ≡ (if leb_ℤ exp (unix now) then err expired else ok user)
  unfolding check_payload
  check_payload-user user exp now lacks lo hi =
      rw (split_colon-append user (format_int exp) lacks, parse_int-format_int exp lo hi) refl

  -- A token that was issued for a user, whose name consists of bytes and whose expiry an int64
  -- holds, is verified as that user's before its expiry, in whole seconds, and refused as expired
  -- from then on.
  pub verify-issue :
      (user : Text) (issued now : Time) {token : Text}
      → All (λ x. x < 256) user
      → min_int64 ≤ℤ unix (issued +ℤ s.ttl)
      → unix (issued +ℤ s.ttl) ≤ℤ max_int64
      → issue h b64 s user issued ≡ ok token
      → verify h b64 s token now
        ≡ (if leb_ℤ (unix (issued +ℤ s.ttl)) (unix now) then err expired else ok user)
  verify-issue user issued now {token} bytes lo hi e =
      let exp = unix (issued +ℤ s.ttl) in
      let payload = user ++ (b':' ∷ format_int exp) in
      let (allowed, whole) = issue-ok user issued e in
      verify_decoded token (seal payload) now (
        ap b64.decode whole
        ∙ b64.decode-encode (seal payload)
            (seal-bytes user (format_int exp) bytes (format_int-bytes exp)))
      ∙ (check_raw-seal payload now (middle-ne-nil user (format_int exp))
          ∙ check_payload-user user exp now (allowed-Lacks user allowed) lo hi)

  check_payload-ok :
      (payload : Text) (now : Time) {user : Text}
      → check_payload h b64 s (split_colon payload) now ≡ ok user
      → (rest : Text) × (exp : ℤ) × (payload ≡ user ++ (b':' ∷ rest))
        × Lacks b':' user
        × (parse_int rest ≡ some exp)
        × (unix now <ℤ exp)
  unfolding check_payload
  check_payload-ok payload now {user} e = elim (Option-cases (split_colon payload)) [
    | inl q ↦ ground (arith, q)
    | inr ((u, rest), q) ↦ elim (Option-cases (parse_int rest)) [
      | inl q' ↦ ground (arith, q, q')
      | inr (exp, q') ↦
          let same : u ≡ user = ground (arith, q, q') in
          let (whole, lacks) = split_colon_sound payload u rest q in
          (rest, exp, rw same at whole, rw same at lacks, q', ground (arith, q, q'))
    ]
  ]

  -- A verified token carries the code, under the session's secret, of a payload that begins with the
  -- verified name and a colon, and goes on with an expiry in the future; no colon stands in the name.
  pub verify_sound :
      (token : Text) (now : Time) {user : Text}
      → verify h b64 s token now ≡ ok user
      → (rest : Text) × (exp : ℤ) × (b64.decode token ≡ some (seal (user ++ (b':' ∷ rest))))
        × Lacks b':' user
        × (parse_int rest ≡ some exp)
        × (unix now <ℤ exp)
  unfolding verify
  verify_sound token now e = elim (Option-cases (b64.decode token)) [
    | inl q ↦ ground (arith, q)
    | inr (raw, q) ↦
        let (payload, sealed, checked) = check_raw_sound raw now (ground (arith, q)) in
        let (rest, exp, whole, lacks, parsed, future) = check_payload-ok payload now checked in
        (rest, exp, q ∙ ap some (sealed ∙ ap seal whole), lacks, parsed, future)
  ]
