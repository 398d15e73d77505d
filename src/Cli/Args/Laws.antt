-- ===== src/Cli/Args/Laws.antt =====
-- Plain arguments before the flags mean the same as behind them.
use mesh_checker.Base.{
  ◌≡◌, refl, sym, ◌∙◌, true, false, ◌||◌, List, [], ◌∷◌, ◌++◌, Text, text_eq, nat_eq, ◌==◌,
  if◌then◌else◌, ok, ◌>>=◌, arith, append-nil,
}
use mesh_checker.Cli.Flags.{parse_flags, is_plain}
use mesh_checker.Cli.Flags.Laws.{flag_args, AllKnown, parse_flags-flag_args}
use mesh_checker.Cli.Args.{
  leading_plain, parsed, two_of, none_of, split_pair, split_name, pair_args,
}

plain-not_nil : (s : Text) → is_plain s ≡ true → (s == []) ≡ false
unfolding is_plain text_eq
plain-not_nil [] h = cc
plain-not_nil (c ∷ s) h = refl

split_pair-front :
    (n a : Text) (args : List Text)
    → is_plain n ≡ true
    → is_plain a ≡ true
    → split_pair (n ∷ a ∷ args) ≡ (n, a, args)
unfolding split_pair leading_plain
split_pair-front n a args p q = ground (arith, p, q)

-- A written flag starts with a dash.
split_pair-flag :
    (f : Text × Text) (flags : List (Text × Text)) (args : List Text)
    → split_pair (flag_args (f ∷ flags) ++ args) ≡ ([], [], flag_args (f ∷ flags) ++ args)
unfolding split_pair leading_plain is_plain nat_eq
split_pair-flag f flags args = refl

split_name-flag :
    (f : Text × Text) (flags : List (Text × Text)) (args : List Text)
    → split_name (flag_args (f ∷ flags) ++ args) ≡ ([], flag_args (f ∷ flags) ++ args)
unfolding split_name is_plain nat_eq
split_name-flag f flags args = refl

parse_flags-front :
    (known : List Text) (flags : List (Text × Text))
    → AllKnown known flags
    → parse_flags known (flag_args flags) ≡ ok (flags, [])
parse_flags-front known flags k =
    rw (sym (append-nil (flag_args flags))) (parse_flags-flag_args known flags [] k tt)

parse_ok :
    (known part : List Text) {r : List (Text × Text) × List Text}
    → parse_flags known part ≡ ok r
    → parsed known part ≡ ok r
parse_ok known part h = rw (parsed, h) refl

pair_args-parsed :
    (known args : List Text) {x y : Text} {part : List Text} {flags : List (Text × Text)}
    {rest : List Text}
    → split_pair args ≡ (x, y, part)
    → parse_flags known part ≡ ok (flags, rest)
    → pair_args known args ≡ (
        (if x == [] || y == [] then two_of rest else none_of (x, y) rest)
        >>= (λ r. ok (flags, r.0, r.1)))
unfolding pair_args
pair_args-parsed known args {part = part} split parse =
    rw (pair_args, split, parse_ok known part parse) refl

pair_args-front :
    (known : List Text) (n a : Text) (flags : List (Text × Text))
    → AllKnown known flags
    → is_plain n ≡ true
    → is_plain a ≡ true
    → pair_args known (n ∷ a ∷ flag_args flags) ≡ ok (flags, n, a)
pair_args-front known n a flags k p q =
    pair_args-parsed known (n ∷ a ∷ flag_args flags) (split_pair-front n a (flag_args flags) p q)
      (parse_flags-front known flags k)
    ∙ rw (plain-not_nil n p, plain-not_nil a q) refl

-- A name and an address that start with no dash may stand before the flags or behind them.
pub pair_args-order :
    (known : List Text) (n a : Text) (flags : List (Text × Text))
    → AllKnown known flags
    → is_plain n ≡ true
    → is_plain a ≡ true
    → (pair_args known (n ∷ a ∷ flag_args flags) ≡ ok (flags, n, a))
      × (pair_args known (flag_args flags ++ (n ∷ a ∷ [])) ≡ ok (flags, n, a))
unfolding text_eq
pair_args-order known n a [] k p q =
    (pair_args-front known n a [] k p q, pair_args-front known n a [] k p q)
pair_args-order known n a (f ∷ flags) k p q = (
  pair_args-front known n a (f ∷ flags) k p q,
  pair_args-parsed known (flag_args (f ∷ flags) ++ (n ∷ a ∷ []))
      (split_pair-flag f flags (n ∷ a ∷ []))
      (parse_flags-flag_args known (f ∷ flags) (n ∷ a ∷ []) k p),
)
