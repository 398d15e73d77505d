-- ===== src/Base/Dict.antt =====
-- Go maps, as association lists. Iteration order is not specified in Go: statements about what an
-- iteration leaves behind are made by `lookup`.
use mesh_checker.Base.Equality.{Eq, ◌==◌}
use mesh_checker.Base.Tests.{if◌then◌else◌}
use mathlib.Core.Path.{◌≡◌, refl, ap}
use mathlib.Core.Logic.{◌≢◌, ◌↔◌, ◌⊎◌, inl, inr}
use mathlib.Core.Bool.{Bool, true, false, ◌||◌}
use mathlib.Core.Option.{Option, none, some}
use mathlib.Core.List.{List, [], ◌∷◌}
use native.Mathlib.Omega.{arith}

abbrev pub Dict {ℓ κ} : Type ℓ → Type κ → Type (ℓ ⊔ κ)
Dict K V = List (K × V)

unfoldable pub keys {ℓ κ} : {K : Type ℓ} {V : Type κ} → Dict K V → List K
keys [] = []
keys ((k, v) ∷ d) = k ∷ keys d

abbrev some_or {ℓ} : {A : Type ℓ} → A → Option A → A
some_or d none = d
some_or d (some a) = a

pub some_injective {ℓ} : {A : Type ℓ} (a b : A) → some a ≡ some b → a ≡ b
some_injective a b h = ap (some_or a) h

module _ {ℓ κ} {K : Type ℓ} {V : Type κ} ⦃e : Eq K⦄ where
  -- `m[k]` with the `ok` result.
  unfoldable pub lookup : K → Dict K V → Option V
  lookup k [] = none
  lookup k ((j, v) ∷ d) = if k == j then some v else lookup k d

  -- `m[k] = v`
  unfoldable pub insert : K → V → Dict K V → Dict K V
  insert k v [] = (k, v) ∷ []
  insert k v ((j, w) ∷ d) = if k == j then (k, v) ∷ d else (j, w) ∷ insert k v d

  -- `delete(m, k)`
  unfoldable pub delete : K → Dict K V → Dict K V
  delete k [] = []
  delete k ((j, w) ∷ d) = let rest = delete k d in if k == j then rest else (j, w) ∷ rest

  pub lookup-insert :
      (j k : K) (v : V) (d : Dict K V)
      → lookup j (insert k v d) ≡ (if j == k then some v else lookup j d)
  unfolding lookup insert
  lookup-insert j k v [] = refl
  lookup-insert j k v (_ ∷ d) = ground (arith, lookup-insert j k v d)

  pub lookup-delete :
      (j k : K) (d : Dict K V) → lookup j (delete k d) ≡ (if j == k then none else lookup j d)
  unfolding lookup delete
  lookup-delete j k [] = ground arith
  lookup-delete j k (_ ∷ d) = ground (arith, lookup-delete j k d)

  -- Where a value comes from that is found after a write, or after a deletion.
  pub inserted :
      (j k : K) (v w : V) (d : Dict K V)
      → lookup j (insert k v d) ≡ some w
      → ((j ≡ k) × (v ≡ w)) ⊎ ((j ≢ k) × (lookup j d ≡ some w))
  inserted j k v w d found = elim (e.dec j k) [
    | yes p ↦ inl (p, some_injective v w (ground (arith, lookup-insert j k v d, found)))
    | no n ↦ inr (n, ground (arith, lookup-insert j k v d, found))
  ]

  pub deleted :
      (j k : K) (w : V) (d : Dict K V)
      → lookup j (delete k d) ≡ some w
      → (j ≢ k) × (lookup j d ≡ some w)
  deleted j k w d found = ground (arith, lookup-delete j k d, found)

-- Membership as a test.
module _ {ℓ} {A : Type ℓ} ⦃e : Eq A⦄ where
  abbrev pub contains : A → List A → Bool
  contains a [] = false
  contains a (x ∷ xs) = a == x || contains a xs

  -- No element occurs twice.
  abbrev pub Distinct : List A → Type 0
  Distinct [] = Unit
  Distinct (x ∷ xs) = (contains x xs ≡ false) × Distinct xs

module _ {ℓ κ} {K : Type ℓ} {V : Type κ} ⦃e : Eq K⦄ where
  pub contains-keys : (k : K) (d : Dict K V) → (contains k (keys d) ≡ true) ↔ (lookup k d ≢ none)
  unfolding keys lookup
  contains-keys k [] = (λ h. cc, λ h. absurd (h refl))
  contains-keys k (_ ∷ d) = ground (arith, contains-keys k d)

  -- `insert` keeps the keys distinct: an old key stays where it is.
  contains-keys-insert :
      (j k : K) (v : V) (d : Dict K V)
      → contains j (keys (insert k v d)) ≡ (j == k || contains j (keys d))
  unfolding keys insert
  contains-keys-insert j k v [] = refl
  contains-keys-insert j k v (_ ∷ d) = ground (arith, contains-keys-insert j k v d)

  pub insert-Distinct :
      (k : K) (v : V) (d : Dict K V) → Distinct (keys d) → Distinct (keys (insert k v d))
  unfolding keys insert
  insert-Distinct k v [] u = (refl, tt)
  insert-Distinct k v ((j, w) ∷ d) (fresh, u) =
      ground (arith, insert-Distinct k v d u, contains-keys-insert j k v d)
