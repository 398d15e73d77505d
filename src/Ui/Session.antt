-- ===== src/Ui/Session.antt =====
-- internal/pkg/server/ui/session.go: session tokens.
pub mod Laws
use mesh_checker.Base.{
  ℕ, ◌+◌, ◌-◌, ◌++◌, ◌||◌, Bool, true, false, Option, none, some, [], ◌∷◌, Text, text_eq, nat_eq,
  codes, ◌==◌, not, if◌then◌else◌, leb, length, take, drop, slice, Fallible, ok, err,
}
use mesh_checker.Base.Int.{ℤ, ◌+ℤ◌, floor_div, leb_ℤ}
use mesh_checker.Base.Dict.{contains}
use mesh_checker.Decimal.{format_int, parse_int}
use mesh_checker.Probe.{Time, Duration}
use mesh_checker.Udp.Mac.{MacScheme}
use mesh_checker.Ui.Base64.{Base64}

pub record Session : Type 0 where
  pub secret : Text
  pub ttl : Duration

pub data SessionError : Type 0 where
  forbidden_char not_base64 too_short malformed hmac_mismatch payload_malformed bad_expiry expired :
      SessionError

-- `strings.ContainsAny(user, ":|")`; both characters are ASCII, so bytes decide.
unfoldable pub has_forbidden : Text → Bool
unfolding nat_eq
has_forbidden [] = false
has_forbidden (c ∷ user) = contains c (codes ":|") || has_forbidden user

-- `t.Unix()`
unfoldable pub unix : Time → ℤ
unfolding floor_div
unix t = floor_div t 1000000000

abbrev pub more_user : ℕ → Option (Text × Text) → Option (Text × Text)
more_user c none = none
more_user c (some (user, rest)) = some (c ∷ user, rest)

-- `strings.SplitN(payload, ":", 2)`, and whether it gave two parts.
unfoldable pub split_colon : Text → Option (Text × Text)
unfolding nat_eq
split_colon [] = none
split_colon (c ∷ s) =
    let rest = more_user c (split_colon s) in if c == b':' then some ([], s) else rest

module _ (h : MacScheme) (b64 : Base64) (s : Session) where
  unfoldable pub issue : Text → Time → Fallible SessionError Text
  unfolding has_forbidden unix
  issue user now =
      let payload = user ++ (b':' ∷ format_int (unix (now +ℤ s.ttl))) in
      if has_forbidden user
      then err forbidden_char
      else ok (b64.encode ((payload ++ codes ":") ++ h.mac s.secret payload))

  -- From the parsed expiry on.
  check_expiry : Text → Option ℤ → Time → Fallible SessionError Text
  check_expiry user none now = err bad_expiry
  check_expiry user (some exp) now = if leb_ℤ exp (unix now) then err expired else ok user

  -- From the split payload on.
  check_payload : Option (Text × Text) → Time → Fallible SessionError Text
  unfolding check_expiry
  check_payload none now = err payload_malformed
  check_payload (some (user, exp)) now = check_expiry user (parse_int exp) now

  -- From the decoded token on. `raw[macStart-1]` is in range behind the length check.
  check_raw : Text → Time → Fallible SessionError Text
  unfolding check_payload nat_eq
  check_raw raw now =
      let mac_start = length raw - 32 in
      let payload = take (mac_start - 1) raw in
      if leb (length raw) 33
      then err too_short
      else if not (slice (mac_start - 1) mac_start raw == codes ":")
      then err malformed
      else if not (h.mac s.secret payload == drop mac_start raw)
      then err hmac_mismatch
      else check_payload (split_colon payload) now

  unfoldable pub verify : Text → Time → Fallible SessionError Text
  unfolding check_raw
  verify token now = elim (b64.decode token) [
    | none ↦ err not_base64
    | some raw ↦ check_raw raw now
  ]
