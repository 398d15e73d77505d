-- ===== src/Cli/Named.antt =====
-- internal/pkg/cli/host.go and user.go: the loops over the named entries of a list.
use mathlib.Core.Option.{some-injective}
use mesh_checker.Base.{
  ◌≡◌, ◌≢◌, refl, ap, sym, ◌∙◌, ==→eq, inl, inr, Bool-cases, Option-cases, Bool, true, false,
  Option, none, some, List, [], ◌∷◌, ◌++◌, map, Text, text_eq, ◌==◌, if◌then◌else◌, arith, ==_self,
  ◌||◌, All,
}
use mesh_checker.Base.Dict.{contains}

module _ {A : Type 0} (name_of : A → Text) where
  -- The loop of an `add`: does an entry of that name exist?
  unfoldable pub exists : Text → List A → Bool
  exists name [] = false
  exists name (x ∷ xs) = if name_of x == name then true else exists name xs

  abbrev with_head : A → Option (List A) → Option (List A)
  with_head x none = none
  with_head x (some xs) = some (x ∷ xs)

  -- The loop of a `remove`: `append(xs[:i], xs[i+1:]...)` for the first entry of that name.
  unfoldable pub cut_out : Text → List A → Option (List A)
  cut_out name [] = none
  cut_out name (x ∷ xs) =
      let rest = cut_out name xs in if name_of x == name then some xs else with_head x rest

  -- The first entry of a name, in its place.
  pub record Cut (name : Text) (xs ys : List A) : Type 0 where
    pub front : List A
    pub entry : A
    pub back : List A
    pub before : xs ≡ front ++ (entry ∷ back)
    pub after : ys ≡ front ++ back
    pub here : name_of entry ≡ name
    pub first : All (λ x. name_of x ≢ name) front

  Cut-here :
      {name : Text} (x : A) (xs : List A) {ys : List A}
      → name_of x ≡ name
      → xs ≡ ys
      → Cut name (x ∷ xs) ys
  Cut-here x xs here same = record {
    front = [];
    entry = x;
    back = xs;
    before = refl;
    after = sym same;
    here = here;
    first = tt;
  }

  Cut-later :
      {name : Text} (x : A) {xs zs ys : List A}
      → name_of x ≢ name
      → Cut name xs zs
      → x ∷ zs ≡ ys
      → Cut name (x ∷ xs) ys
  Cut-later x other c same = record {
    front = x ∷ c.front;
    entry = c.entry;
    back = c.back;
    before = ap (λ r. x ∷ r) c.before;
    after = sym same ∙ ap (λ r. x ∷ r) c.after;
    here = c.here;
    first = (other, c.first);
  }

  pub cut_out-Cut :
      (name : Text) (xs : List A) {ys : List A} → cut_out name xs ≡ some ys → Cut name xs ys
  unfolding cut_out
  cut_out-Cut name [] h = cc
  cut_out-Cut name (x ∷ xs) {ys = ys} h = elim (Bool-cases (name_of x == name)) [
    | inl e ↦ Cut-here x xs (==→eq (name_of x) name e) (some-injective xs ys (ground (arith, e)))
    | inr e ↦ elim (Option-cases (cut_out name xs)) [
      | inl q ↦ absurd (ground (arith, e, q))
      | inr (zs, q) ↦
          Cut-later x (λ s. ground (arith, e)) (cut_out-Cut name xs q)
            (some-injective (x ∷ zs) ys (ground (arith, e, q)))
    ]
  ]

  pub cut_out-none : (name : Text) (xs : List A) → cut_out name xs ≡ none → exists name xs ≡ false
  unfolding cut_out exists
  cut_out-none name [] h = refl
  cut_out-none name (x ∷ xs) h = ground (arith, cut_out-none name xs)

  pub cut_out-append :
      (x : A) (xs : List A)
      → exists (name_of x) xs ≡ false
      → cut_out (name_of x) (xs ++ (x ∷ [])) ≡ some xs
  unfolding cut_out exists
  cut_out-append x [] h = rw (==_self (name_of x)) refl
  cut_out-append x (y ∷ xs) h = ground (arith, cut_out-append x xs)

  contains_exists : (name : Text) (xs : List A) → contains name (map name_of xs) ≡ exists name xs
  unfolding exists
  contains_exists name [] = refl
  contains_exists name (x ∷ xs) = ground (arith, contains_exists name xs)

  exists-append :
      (name : Text) (x : A) (xs : List A)
      → exists name (xs ++ (x ∷ [])) ≡ (exists name xs || name_of x == name)
  unfolding exists
  exists-append name x [] = ground arith
  exists-append name x (y ∷ xs) = ground (arith, exists-append name x xs)
