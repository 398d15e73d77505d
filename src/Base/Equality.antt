-- ===== src/Base/Equality.antt =====
-- Go's `==` on comparable types. A Go string is the list of its bytes.
use Prim.Native.Nat.{ℕ}
use Prim.Native.Char.{code}
use Prim.Native.String.{String}
use mathlib.Core.Path.{◌≡◌, refl, ap, ap₂}
use mathlib.Core.Logic.{ite, dite}
use mathlib.Core.Bool.{Bool, true, false}
use native.Mathlib.Omega.{arith}
use mathlib.Core.List.{List, [], ◌∷◌}
use native.Mathlib.Decide.{ℕ_discrete}

pub record Eq {ℓ} (A : Type ℓ) : Type ℓ where
  pub dec : Discrete A

infix 50 ◌==◌
abbrev pub ◌==◌ {ℓ} : {A : Type ℓ} ⦃e : Eq A⦄ → A → A → Bool
◌==◌ ⦃e⦄ a b = ite (e.dec a b) true false

module _ {ℓ} {A : Type ℓ} ⦃e : Eq A⦄ where
  pub ==_self : (a : A) → (a == a) ≡ true
  ==_self a = ground arith

  pub ==→eq : (a b : A) → (a == b) ≡ true → a ≡ b
  ==→eq a b h = ground arith

abbrev head_or {ℓ} : {A : Type ℓ} → A → List A → A
head_or d [] = d
head_or d (x ∷ xs) = x

abbrev tail_of {ℓ} : {A : Type ℓ} → List A → List A
tail_of [] = []
tail_of (x ∷ xs) = xs

module _ {ℓ} {A : Type ℓ} (d : Discrete A) where
  list_dec : Discrete (List A)
  list_dec [] [] = yes refl
  list_dec [] (y ∷ ys) = no (λ e. cc)
  list_dec (x ∷ xs) [] = no (λ e. cc)
  list_dec (x ∷ xs) (y ∷ ys) =
      let rest = list_dec xs ys in
      dite (d x y) (λ p. dite rest (λ q. yes (ap₂ ◌∷◌ p q)) (λ n. no (λ e. n (ap tail_of e))))
        (λ n. no (λ e. n (ap (head_or x) e)))

instance unfoldable pub nat_eq : Eq ℕ
unfolding ℕ_discrete
nat_eq = record { dec = ℕ_discrete }

abbrev pub Text : Type 0
Text = List ℕ

instance unfoldable pub text_eq : Eq Text
unfolding list_dec ℕ_discrete
text_eq = record { dec = list_dec ℕ_discrete }

-- The bytes of an ASCII literal.
abbrev pub codes : String → Text
codes String.[] = []
codes (String.◌∷◌ c s) = code c ∷ codes s
