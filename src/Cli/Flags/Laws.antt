-- ===== src/Cli/Flags/Laws.antt =====
-- Flags in front of plain arguments are parsed as they were written.
use mesh_checker.Base.{
  ◌≡◌, ◌≢◌, refl, true, none, List, [], ◌∷◌, ◌++◌, Text, text_eq, nat_eq, codes, ok, arith, All,
}
use mesh_checker.Base.Dict.{contains}
use mesh_checker.Cli.Flags.{positional, named, split_value, classify_arg, parse_flags, is_plain}

-- `--name value` for each flag.
abbrev pub flag_args : List (Text × Text) → List Text
flag_args [] = []
flag_args ((n, v) ∷ flags) = (codes "--" ++ n) ∷ v ∷ flag_args flags

plain_positional : (s : Text) → is_plain s ≡ true → classify_arg s ≡ positional
unfolding classify_arg is_plain
plain_positional [] h = cc
plain_positional (c ∷ []) h = refl
plain_positional (c ∷ d ∷ []) h = ground arith
plain_positional (c ∷ d ∷ e ∷ s) h = ground arith

-- A name that can be written: not empty, no `=` in it, and no dash in front.
abbrev pub IsName : Text → Type 0
IsName [] = ⊥
IsName (c ∷ s) = (c ≢ b'-') × (c ≢ b'=') × All (λ b. b ≢ b'=') s

split_value-All : (s : Text) → All (λ b. b ≢ b'=') s → split_value s ≡ (s, none)
unfolding nat_eq
split_value-All [] h = refl
split_value-All (c ∷ s) h = ground (arith, split_value-All s h.1, h.0)

classify_arg-flag : (n : Text) → IsName n → classify_arg (codes "--" ++ n) ≡ named n none
unfolding classify_arg
classify_arg-flag [] h = absurd h
classify_arg-flag (c ∷ s) h = ground (arith, split_value-All s h.2, h.0, h.1)

-- Every flag has a name that the flag set knows.
abbrev pub AllKnown : List Text → List (Text × Text) → Type 0
AllKnown known [] = Unit
AllKnown known ((n, v) ∷ flags) = IsName n × (contains n known ≡ true) × AllKnown known flags

abbrev pub StartsPlain : List Text → Type 0
StartsPlain [] = Unit
StartsPlain (s ∷ args) = is_plain s ≡ true

parse_flags-plain :
    (known args : List Text) → StartsPlain args → parse_flags known args ≡ ok ([], args)
unfolding parse_flags
parse_flags-plain known [] h = refl
parse_flags-plain known (s ∷ []) h = rw (plain_positional s h, parse_flags) refl
parse_flags-plain known (s ∷ v ∷ args) h = rw (plain_positional s h, parse_flags) refl

-- Known flags that are written out before plain arguments are parsed into those flags, in order,
-- with the arguments left over.
pub parse_flags-flag_args :
    (known : List Text) (flags : List (Text × Text)) (args : List Text)
    → AllKnown known flags
    → StartsPlain args
    → parse_flags known (flag_args flags ++ args) ≡ ok (flags, args)
unfolding parse_flags
parse_flags-flag_args known [] args k h = parse_flags-plain known args h
parse_flags-flag_args known ((n, v) ∷ flags) args k h =
    rw (classify_arg-flag n k.0, parse_flags)
      (ground (arith, k.1, parse_flags-flag_args known flags args k.2 h))
