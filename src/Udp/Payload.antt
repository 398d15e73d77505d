-- ===== src/Udp/Payload.antt =====
-- internal/pkg/probe/udp/payload.go: requests and responses on the wire.
pub mod Bytes
pub mod Laws
pub mod Responses
use mesh_checker.Base.{
  ℕ, ◌+◌, ◌-◌, ◌/◌, ◌%◌, ◌^◌, Bool, true, false, List, [], ◌∷◌, ◌++◌, Text, text_eq, nat_eq, ◌==◌,
  not, if◌then◌else◌, ltb, length, take, drop, slice, replicate, copy, Fallible, ok, err,
}
use mesh_checker.Base.Int.{to_uint64, to_int64}
use mesh_checker.Probe.{Time}
use mesh_checker.Udp.Mac.{MacScheme}
use Bytes.{put_uint64, be_uint64}

abbrev pub nonce_len : ℕ
nonce_len = 16

abbrev pub ts_len : ℕ
ts_len = 8

abbrev pub hmac_len : ℕ
hmac_len = 32

-- An array of 16 bytes.
abbrev pub Nonce : Type 0
Nonce = Text

pub record Request : Type 0 where
  pub nonce : Nonce
  pub timestamp : Time
  pub host_name : Text

pub data PayloadError : Type 0 where
  empty_host too_short hmac_mismatch wrong_length response_hmac_mismatch : PayloadError

-- `copy(n[:], buf[:nonceLen])` into a zeroed array.
abbrev pub read_nonce : Text → Nonce
read_nonce buf = copy (replicate nonce_len 0) (slice 0 nonce_len buf)

-- `time.Unix(0, int64(tsNs))`
abbrev pub read_time : Text → Time
read_time buf = to_int64 (be_uint64 (slice nonce_len (nonce_len + ts_len) buf))

module _ (h : MacScheme) where
  -- The body that both encoders begin with; `UnixNano` is the instant itself.
  abbrev pub stamp : Nonce → Time → Text
  stamp nonce ts = nonce ++ put_uint64 (to_uint64 ts)

  -- `mac.Sum(body)` appends the code to the body.
  abbrev pub sign : Text → Text → Text
  sign secret body = body ++ h.mac secret body

  -- The check that both decoders make: the last 32 bytes are the code of what stands before.
  abbrev pub verifies : Text → Text → Bool
  verifies secret buf =
      let mac_start = length buf - hmac_len in
      h.mac secret (take mac_start buf) == drop mac_start buf

  unfoldable pub encode_request : Text → Nonce → Time → Text → Fallible PayloadError Text
  unfolding nat_eq
  encode_request secret nonce ts host_name =
      if length host_name == 0
      then err empty_host
      else ok (sign secret (stamp nonce ts ++ host_name))

  unfoldable pub decode_request : Text → Text → Fallible PayloadError Request
  decode_request secret buf =
      if ltb (length buf) (nonce_len + ts_len + 1 + hmac_len)
      then err too_short
      else if not (verifies secret buf)
      then err hmac_mismatch
      else ok (record {
        nonce = read_nonce buf;
        timestamp = read_time buf;
        host_name = slice (nonce_len + ts_len) (length buf - hmac_len) buf;
      })

  unfoldable pub encode_response : Text → Nonce → Time → Fallible PayloadError Text
  encode_response secret nonce ts = ok (sign secret (stamp nonce ts))

  unfoldable pub decode_response : Text → Text → Fallible PayloadError (Nonce × Time)
  decode_response secret buf =
      if not (length buf == nonce_len + ts_len + hmac_len)
      then err wrong_length
      else if not (verifies secret buf)
      then err response_hmac_mismatch
      else ok (read_nonce buf, read_time buf)
