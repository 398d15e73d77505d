-- ===== src/Ui/Base64.antt =====
-- `base64.RawURLEncoding` as the sessions use it: what was encoded is decoded again.
use mesh_checker.Base.{◌≡◌, ◌<◌, Option, some, Text, All}

pub record Base64 : Type 0 where
  pub encode : Text → Text
  pub decode : Text → Option Text
  pub decode-encode : (b : Text) → All (λ x. x < 256) b → decode (encode b) ≡ some b
