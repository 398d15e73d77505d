-- ===== src/Decimal/RoundTrip.antt =====
-- Every int64 is read back from its print, which holds digits and a sign only.
use mathlib.Core.List.{cons-ne-nil}
use mesh_checker.Base.{
  ℕ, zero, suc, ◌+◌, ◌-◌, ◌*◌, ◌/◌, ◌%◌, ◌<◌, ◌≤◌, ◌≡◌, ◌≢◌, refl, ap, ◌∙◌, some, [], ◌∷◌, Text,
  nat_eq, arith, All, true, false,
}
use mesh_checker.Base.Int.{ℤ, pos, negsuc, ◌≤ℤ◌, min_int64, max_int64}
use mesh_checker.Decimal.{
  digits, format_nat, format_int, parse_from, parse_nat, in_int64, parse_int,
}

parse_from-digit :
    (m d : ℕ) (out : Text) → d < 10 → parse_from m ((b'0' + d) ∷ out) ≡ parse_from (m * 10 + d) out
parse_from-digit m d out h =
    let same : m * 10 + ((b'0' + d) - b'0') ≡ m * 10 + d = omega arith in
    ground (arith, ap (λ k. parse_from k out) same)

tens : (n : ℕ) (out : Text) → parse_from (n / 10 * 10 + n % 10) out ≡ parse_from n out
tens n out = ap (λ k. parse_from k out) (whole n)
  where
    whole : (n : ℕ) → n / 10 * 10 + n % 10 ≡ n
    whole n = omega arith

units : (n : ℕ) (out : Text) → n / 10 ≡ 0 → parse_from (0 * 10 + n % 10) out ≡ parse_from n out
units n out h = ap (λ k. parse_from k out) (low n h)
  where
    low : (n : ℕ) → n / 10 ≡ 0 → 0 * 10 + n % 10 ≡ n
    low n h = omega arith

parse_from-digits :
    (f n : ℕ) (out : Text) → n < f → parse_from 0 (digits f n out) ≡ parse_from n out
unfolding nat_eq
parse_from-digits zero n out h = absurd (omega arith)
parse_from-digits (suc f) n out h = ground (
  arith,
  parse_from-digits f (n / 10) ((b'0' + n % 10) ∷ out),
  parse_from-digit (n / 10) (n % 10) out,
  parse_from-digit 0 (n % 10) out,
  tens n out,
  units n out,
)

abbrev pub IsDigit : ℕ → Type 0
IsDigit c = (b'0' ≤ c) × (c ≤ b'9')

digits-IsDigit : (f n : ℕ) (out : Text) → All IsDigit out → All IsDigit (digits f n out)
digits-IsDigit zero n out h = h
digits-IsDigit (suc f) n out h = ground (arith, digits-IsDigit f (n / 10) ((b'0' + n % 10) ∷ out))

digits-ne-nil : (f n : ℕ) (out : Text) → out ≢ [] → digits f n out ≢ []
digits-ne-nil zero n out h = h
digits-ne-nil (suc f) n out h = ground (arith, digits-ne-nil f (n / 10) ((b'0' + n % 10) ∷ out))

digits_start : (f n : ℕ) → digits (suc f) n [] ≢ []
digits_start f n =
    ground (arith, digits-ne-nil f (n / 10) ((b'0' + n % 10) ∷ []) (cons-ne-nil (b'0' + n % 10) []))

parse_nat-parse_from : (s : Text) → s ≢ [] → parse_nat s ≡ parse_from 0 s
parse_nat-parse_from [] h = absurd (h refl)
parse_nat-parse_from (c ∷ s) h = refl

parse_nat-format_nat : (n : ℕ) → parse_nat (format_nat n) ≡ some n
unfolding format_nat
parse_nat-format_nat n =
    parse_nat-parse_from (digits (suc n) n []) (digits_start n n)
    ∙ parse_from-digits (suc n) n [] (omega arith)

format_nat-IsDigit : (n : ℕ) → All IsDigit (format_nat n)
unfolding format_nat
format_nat-IsDigit n = digits-IsDigit (suc n) n [] tt

-- What begins with a digit is read without a sign.
parse_int_unsigned :
    (s : Text) → All IsDigit s → s ≢ [] → parse_int s ≡ in_int64 false (parse_nat s)
unfolding parse_int
parse_int_unsigned [] d h = absurd (h refl)
parse_int_unsigned (c ∷ s) d h = ground arith

format_nat-ne-nil : (n : ℕ) → format_nat n ≢ []
unfolding format_nat
format_nat-ne-nil n = digits_start n n

parse_int_signed : (s : Text) → parse_int (b'-' ∷ s) ≡ in_int64 true (parse_nat s)
unfolding parse_int
parse_int_signed s = refl

in_int64_pos : (n : ℕ) → pos n ≤ℤ max_int64 → in_int64 false (some n) ≡ some (pos n)
in_int64_pos n h = ground arith

in_int64_negsuc : (n : ℕ) → min_int64 ≤ℤ negsuc n → in_int64 true (some (suc n)) ≡ some (negsuc n)
in_int64_negsuc n h = ground arith

-- `ParseInt` reads back what `%d` prints of an int64.
pub parse_int-format_int :
    (i : ℤ) → min_int64 ≤ℤ i → i ≤ℤ max_int64 → parse_int (format_int i) ≡ some i
unfolding format_int
parse_int-format_int (pos n) lo hi =
    parse_int_unsigned (format_nat n) (format_nat-IsDigit n) (format_nat-ne-nil n)
    ∙ (ap (in_int64 false) (parse_nat-format_nat n) ∙ in_int64_pos n hi)
parse_int-format_int (negsuc n) lo hi =
    parse_int_signed (format_nat (suc n))
    ∙ (ap (in_int64 true) (parse_nat-format_nat (suc n)) ∙ in_int64_negsuc n lo)

digits-bytes : (s : Text) → All IsDigit s → All (λ c. c < 256) s
digits-bytes [] d = tt
digits-bytes (c ∷ s) d = (omega arith, digits-bytes s d.1)

pub format_int-bytes : (i : ℤ) → All (λ c. c < 256) (format_int i)
unfolding format_int
format_int-bytes (pos n) = digits-bytes (format_nat n) (format_nat-IsDigit n)
format_int-bytes (negsuc n) =
    (omega arith, digits-bytes (format_nat (suc n)) (format_nat-IsDigit (suc n)))
