-- ===== src/Udp/Payload/Bytes.antt =====
-- `binary.BigEndian`: eight bytes, the most significant first.
use mesh_checker.Base.{
  ℕ, ◌+◌, ◌*◌, ◌/◌, ◌%◌, ◌^◌, ◌<◌, ◌≡◌, refl, arith, [], ◌∷◌, Text, length, All,
}

unfoldable pub put_uint64 : ℕ → Text
put_uint64 v =
    (v / 2 ^ 56 % 256)
    ∷ (v / 2 ^ 48 % 256)
    ∷ (v / 2 ^ 40 % 256)
    ∷ (v / 2 ^ 32 % 256)
    ∷ (v / 2 ^ 24 % 256)
    ∷ (v / 2 ^ 16 % 256)
    ∷ (v / 2 ^ 8 % 256)
    ∷ (v % 256)
    ∷ []

abbrev be_from : ℕ → Text → ℕ
be_from n [] = n
be_from n (b ∷ bs) = be_from (n * 256 + b) bs

unfoldable pub be_uint64 : Text → ℕ
be_uint64 b = be_from 0 b

pub length-put_uint64 : (v : ℕ) → length (put_uint64 v) ≡ 8
unfolding put_uint64
length-put_uint64 v = refl

pub put_uint64-bytes : (v : ℕ) → All (λ b. b < 256) (put_uint64 v)
unfolding put_uint64
put_uint64-bytes v = omega arith

pub be_uint64-put_uint64 : (v : ℕ) → v < 2 ^ 64 → be_uint64 (put_uint64 v) ≡ v
unfolding be_uint64 put_uint64
be_uint64-put_uint64 v h = omega arith

-- Eight bytes are the print of the number that they spell.
pub put_uint64-be_uint64 :
    (b : Text)
    → length b ≡ 8
    → All (λ x. x < 256) b
    → (put_uint64 (be_uint64 b) ≡ b) × (be_uint64 b < 2 ^ 64)
unfolding be_uint64 put_uint64
put_uint64-be_uint64 (b0 ∷ b1 ∷ b2 ∷ b3 ∷ b4 ∷ b5 ∷ b6 ∷ b7 ∷ []) n h = (ground arith, omega arith)
put_uint64-be_uint64 b n h = absurd (omega arith)
