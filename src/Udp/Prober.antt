-- ===== src/Udp/Prober.antt =====
-- internal/pkg/probe/udp/udp.go: one probe. What the network and the random source do is a record
-- of results; each is looked at only where the code makes the call.
pub mod Laws
use mesh_checker.Base.{
  ℕ, ◌++◌, Bool, true, false, [], Text, text_eq, codes, ◌==◌, not, if◌then◌else◌, take, Fallible,
  ok, err,
}
use mesh_checker.Base.Int.{ℤ, pos}
use mesh_checker.Probe.{Target, Result, Time, Duration}
use mesh_checker.Udp.Mac.{MacScheme}
use mesh_checker.Udp.Payload.{
  Nonce, PayloadError, empty_host, too_short, hmac_mismatch, wrong_length, response_hmac_mismatch,
  encode_request, decode_response,
}

-- `errors.New(...)` of each failure.
abbrev pub error_text : PayloadError → Text
error_text empty_host = codes "udp: hostName must not be empty"
error_text too_short = codes "udp: request too short"
error_text hmac_mismatch = codes "udp: hmac mismatch"
error_text wrong_length = codes "udp: response wrong length"
error_text response_hmac_mismatch = codes "udp: response hmac mismatch"

pub record Prober : Type 0 where
  pub secret : Text
  pub host_name : Text
  pub timeout : Duration

-- The datagram that comes back may depend on the one that was sent. A read that meets the deadline
-- is a read that fails.
pub record Network : Type 0 where
  pub new_nonce : Fallible Text Nonce
  pub dial : Text → ℤ → Fallible Text (Unit {0})
  pub write : Text → Fallible Text (Unit {0})
  pub read : Text → Fallible Text Text
  pub elapsed : Duration

abbrev pub started : Time → Result
started start = record { timestamp = start; latency = pos 0; is_ok = false; error = [] }

abbrev pub failed : Result → Text → Result
failed r e = record r { error = e }

-- The nonce comparison.
abbrev pub check_nonce : Result → Nonce → Nonce → Result
check_nonce r got nonce =
    if not (got == nonce) then failed r (codes "nonce mismatch") else record r { is_ok = true }

module _ (h : MacScheme) (p : Prober) (n : Network) where
  -- From the reply on; the buffer has 1024 bytes.
  check_reply : Result → Nonce → Fallible Text Text → Result
  check_reply r nonce (err e) = failed r e
  check_reply r nonce (ok datagram) = elim (decode_response h p.secret (take 1024 datagram)) [
    | err e ↦ failed r (error_text e)
    | ok (got, ts) ↦ check_nonce r got nonce
  ]

  -- From the dial on.
  exchange : Result → Target → Nonce → Text → Result
  exchange r target nonce req = elim (n.dial target.addr target.udp_port) [
    | err e ↦ failed r e
    | ok _ ↦ elim (n.write req) [
      | err e ↦ failed r e
      | ok _ ↦ check_reply (record r { latency = n.elapsed }) nonce (n.read req)
    ]
  ]

  -- `Probe`
  unfoldable pub probe : Time → Target → Result
  unfolding exchange check_reply
  probe start target = elim n.new_nonce [
    | err e ↦ failed (started start) e
    | ok nonce ↦ elim (encode_request h p.secret nonce start p.host_name) [
      | err e ↦ failed (started start) (error_text e)
      | ok req ↦ exchange (started start) target nonce req
    ]
  ]
