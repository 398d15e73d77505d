-- ===== src/Decimal.antt =====
-- What the program uses of package strconv: `%d` of an int64, and `ParseInt(s, 10, 64)`.
pub mod RoundTrip
use mesh_checker.Base.{
  ℕ, zero, suc, ◌+◌, ◌-◌, ◌*◌, ◌/◌, ◌%◌, ◌^◌, ◌&&◌, Bool, true, false, Option, none, some, [], ◌∷◌,
  Text, ◌==◌, nat_eq, if◌then◌else◌, ltb, leb,
}
use mesh_checker.Base.Int.{ℤ, pos, negsuc}

-- The digits of `n` before `out`; more fuel than `n` is enough.
abbrev pub digits : ℕ → ℕ → Text → Text
digits zero n out = out
digits (suc f) n out =
    let last = b'0' + n % 10 in
    let rest = digits f (n / 10) (last ∷ out) in if n / 10 == 0 then last ∷ out else rest

unfoldable pub format_nat : ℕ → Text
unfolding nat_eq
format_nat n = digits (suc n) n []

unfoldable pub format_int : ℤ → Text
unfolding format_nat
format_int (pos n) = format_nat n
format_int (negsuc n) = b'-' ∷ format_nat (suc n)

abbrev pub is_digit : ℕ → Bool
is_digit c = leb b'0' c && leb c b'9'

abbrev pub parse_from : ℕ → Text → Option ℕ
parse_from n [] = some n
parse_from n (c ∷ s) = if is_digit c then parse_from (n * 10 + (c - b'0')) s else none

-- One digit at least.
abbrev pub parse_nat : Text → Option ℕ
parse_nat [] = none
parse_nat (c ∷ s) = parse_from 0 (c ∷ s)

-- The range checks of an int64.
abbrev pub in_int64 : Bool → Option ℕ → Option ℤ
in_int64 negative none = none
in_int64 false (some n) = if ltb n (2 ^ 63) then some (pos n) else none
in_int64 true (some zero) = some (pos 0)
in_int64 true (some (suc n)) = if ltb n (2 ^ 63) then some (negsuc n) else none

-- `none` stands for both of its errors, syntax and range.
unfoldable pub parse_int : Text → Option ℤ
unfolding nat_eq
parse_int [] = none
parse_int (c ∷ s) =
    if c == b'-'
    then in_int64 true (parse_nat s)
    else if c == b'+'
    then in_int64 false (parse_nat s)
    else in_int64 false (parse_nat (c ∷ s))
