-- ===== src/Udp/Mac.antt =====
-- HMAC-SHA256 as the wire format uses it: a function of key and message into 32 bytes. Nothing
-- else is assumed of it; what an attacker cannot compute is not stated here.
use mesh_checker.Base.{◌≡◌, ◌<◌, Text, length, All}

pub record MacScheme : Type 0 where
  -- `hmac.New(sha256.New, secret)`, `Write(message)`, `Sum(nil)`
  pub mac : Text → Text → Text
  pub length-mac : (secret message : Text) → length (mac secret message) ≡ 32
  pub bytes-mac : (secret message : Text) → All (λ b. b < 256) (mac secret message)
