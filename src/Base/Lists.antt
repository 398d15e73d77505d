-- ===== src/Base/Lists.antt =====
-- Slices: lists measured and indexed by native numbers, under the library's names.
use Prim.Native.Nat.{ℕ, zero, suc, ◌+◌, ◌-◌, ◌≤◌, ◌<◌, min}
use mathlib.Core.Path.{◌≡◌, refl, ap, sym, ◌∙◌}
use mathlib.Core.List.{List, [], ◌∷◌, ◌++◌}
use native.Mathlib.Omega.{arith}

add_suc : (n m : ℕ) → suc (n + m) ≡ suc n + m
add_suc n m = omega arith

sub_suc : (n m : ℕ) → suc n - suc m ≡ n - m
sub_suc n m = omega arith

sub_zero : (n : ℕ) → n - 0 ≡ n
sub_zero n = omega arith

sub_self : {n m : ℕ} → n ≤ m → n - m ≡ 0
sub_self h = omega arith

module _ {ℓ} {A : Type ℓ} where
  abbrev pub length : List A → ℕ
  length [] = 0
  length (x ∷ xs) = suc (length xs)

  -- A write out of bounds changes nothing.
  abbrev pub set : List A → ℕ → A → List A
  set [] i v = []
  set (x ∷ xs) zero v = v ∷ xs
  set (x ∷ xs) (suc i) v = x ∷ set xs i v

  -- `xs[:n]`
  abbrev pub take : ℕ → List A → List A
  take zero xs = []
  take (suc n) [] = []
  take (suc n) (x ∷ xs) = x ∷ take n xs

  -- `xs[n:]`
  abbrev pub drop : ℕ → List A → List A
  drop zero xs = xs
  drop (suc n) [] = []
  drop (suc n) (x ∷ xs) = drop n xs

  -- `xs[i:j]`
  abbrev pub slice : ℕ → ℕ → List A → List A
  slice i j xs = take (j - i) (drop i xs)

  abbrev pub replicate : ℕ → A → List A
  replicate zero a = []
  replicate (suc n) a = a ∷ replicate n a

  -- `copy(dst, src)`: the destination afterwards.
  abbrev pub copy : List A → List A → List A
  copy [] src = []
  copy (d ∷ dst) [] = d ∷ dst
  copy (d ∷ dst) (s ∷ src) = s ∷ copy dst src

  -- `copy(dst[i:], src)`: the whole destination afterwards.
  abbrev pub copy_at : ℕ → List A → List A → List A
  copy_at i dst src = take i dst ++ copy (drop i dst) src

  -- The last `n` elements, or all if there are fewer.
  abbrev pub trailing : ℕ → List A → List A
  trailing n xs = drop (length xs - n) xs

  abbrev pub All {κ} : (A → Type κ) → List A → Type κ
  All P [] = Unit
  All P (x ∷ xs) = P x × All P xs

  pub length-append : (xs ys : List A) → length (xs ++ ys) ≡ length xs + length ys
  length-append [] ys = omega arith
  length-append (x ∷ xs) ys = omega (arith, length-append xs ys)

module _ {ℓ} {A : Type ℓ} where
  pub length-set : (xs : List A) (i : ℕ) (v : A) → length (set xs i v) ≡ length xs
  length-set [] i v = refl
  length-set (x ∷ xs) zero v = refl
  length-set (x ∷ xs) (suc i) v = ap suc (length-set xs i v)

  -- Cutting out an element that a predicate holds of, with all others.
  pub All-cut {κ} :
      (P : A → Type κ) (front back : List A) (a : A)
      → All P (front ++ (a ∷ back))
      → P a × All P (front ++ back)
  All-cut P [] back a h = h
  All-cut P (b ∷ front) back a (p, h) = let (q, r) = All-cut P front back a h in (q, (p, r))

  pub All-map {κ μ} :
      (P : A → Type κ) (Q : A → Type μ) (xs : List A) → ((a : A) → P a → Q a) → All P xs → All Q xs
  All-map P Q [] f h = tt
  All-map P Q (x ∷ xs) f (p, h) = (f x p, All-map P Q xs f h)

  pub length-take : (n : ℕ) (xs : List A) → length (take n xs) ≡ min n (length xs)
  length-take zero xs = omega arith
  length-take (suc n) [] = omega arith
  length-take (suc n) (x ∷ xs) = omega (arith, length-take n xs)

  pub length-drop : (n : ℕ) (xs : List A) → length (drop n xs) ≡ length xs - n
  length-drop zero xs = omega arith
  length-drop (suc n) [] = omega arith
  length-drop (suc n) (x ∷ xs) = omega (arith, length-drop n xs)

  pub length-replicate : (n : ℕ) (a : A) → length (replicate n a) ≡ n
  length-replicate zero a = refl
  length-replicate (suc n) a = ap suc (length-replicate n a)

  pub take-append-drop : (n : ℕ) (xs : List A) → take n xs ++ drop n xs ≡ xs
  take-append-drop zero xs = refl
  take-append-drop (suc n) [] = refl
  take-append-drop (suc n) (x ∷ xs) = ap (◌∷◌ x) (take-append-drop n xs)

  pub take_all : (n : ℕ) (xs : List A) → length xs ≤ n → take n xs ≡ xs
  take_all zero [] h = refl
  take_all zero (x ∷ xs) h = absurd (omega arith)
  take_all (suc n) [] h = refl
  take_all (suc n) (x ∷ xs) h = ap (◌∷◌ x) (take_all n xs (omega arith))

  pub drop_all : (n : ℕ) (xs : List A) → length xs ≤ n → drop n xs ≡ []
  drop_all zero [] h = refl
  drop_all zero (x ∷ xs) h = absurd (omega arith)
  drop_all (suc n) [] h = refl
  drop_all (suc n) (x ∷ xs) h = drop_all n xs (omega arith)

  -- A prefix of known length is split off by `take` and `drop`.
  pub take-append_length : (n : ℕ) (xs ys : List A) → length xs ≡ n → take n (xs ++ ys) ≡ xs
  take-append_length zero [] ys h = refl
  take-append_length zero (x ∷ xs) ys h = absurd (omega arith)
  take-append_length (suc n) [] ys h = absurd (omega arith)
  take-append_length (suc n) (x ∷ xs) ys h = ap (◌∷◌ x) (take-append_length n xs ys (omega arith))

  pub drop-append_length : (n : ℕ) (xs ys : List A) → length xs ≡ n → drop n (xs ++ ys) ≡ ys
  drop-append_length zero [] ys h = refl
  drop-append_length zero (x ∷ xs) ys h = absurd (omega arith)
  drop-append_length (suc n) [] ys h = absurd (omega arith)
  drop-append_length (suc n) (x ∷ xs) ys h = drop-append_length n xs ys (omega arith)

  pub drop-append : (n : ℕ) (xs ys : List A) → n ≤ length xs → drop n (xs ++ ys) ≡ drop n xs ++ ys
  drop-append zero xs ys h = refl
  drop-append (suc n) [] ys h = absurd (omega arith)
  drop-append (suc n) (x ∷ xs) ys h = drop-append n xs ys (omega arith)

  pub drop-append_ge :
      (n : ℕ) (xs ys : List A) → length xs ≤ n → drop n (xs ++ ys) ≡ drop (n - length xs) ys
  drop-append_ge n [] ys h = ap (λ k. drop k ys) (omega arith)
  drop-append_ge zero (x ∷ xs) ys h = absurd (omega arith)
  drop-append_ge (suc n) (x ∷ xs) ys h =
      drop-append_ge n xs ys (omega arith) ∙ ap (λ k. drop k ys) (omega arith)

  drop_nil : (n : ℕ) → drop {A = A} n [] ≡ []
  drop_nil zero = refl
  drop_nil (suc n) = refl

  pub drop-drop : (m n : ℕ) (xs : List A) → drop m (drop n xs) ≡ drop (n + m) xs
  drop-drop m zero xs = ap (λ k. drop k xs) (omega arith)
  drop-drop m (suc n) [] = rw (drop_nil m, drop_nil (suc n + m))
  drop-drop m (suc n) (x ∷ xs) = drop-drop m n xs ∙ ap (λ k. drop k (x ∷ xs)) (add_suc n m)

  pub set_split :
      (xs : List A) (i : ℕ) (v : A)
      → i < length xs
      → set xs i v ≡ take i xs ++ (v ∷ drop (suc i) xs)
  set_split [] i v h = absurd (omega arith)
  set_split (x ∷ xs) zero v h = refl
  set_split (x ∷ xs) (suc i) v h = ap (◌∷◌ x) (set_split xs i v (omega arith))

  -- `copy` of a source no longer than the destination.
  pub copy_split :
      (dst src : List A) → length src ≤ length dst → copy dst src ≡ src ++ drop (length src) dst
  copy_split [] [] h = refl
  copy_split [] (s ∷ src) h = absurd (omega arith)
  copy_split (d ∷ dst) [] h = refl
  copy_split (d ∷ dst) (s ∷ src) h = ap (◌∷◌ s) (copy_split dst src (omega arith))

module _ {ℓ} {A : Type ℓ} where
  pub length-trailing : (n : ℕ) (xs : List A) → length (trailing n xs) ≡ min n (length xs)
  length-trailing n xs = omega (arith, length-drop (length xs - n) xs)

  pub trailing_all : (n : ℕ) (xs : List A) → length xs ≤ n → trailing n xs ≡ xs
  trailing_all n xs h = ap (λ k. drop k xs) (sub_self h)

  -- The tail of a concatenation whose second part is long enough.
  pub trailing-append :
      (n : ℕ) (xs ys : List A) → n ≤ length ys → trailing n (xs ++ ys) ≡ trailing n ys
  trailing-append n xs ys h =
      drop-append_ge (length (xs ++ ys) - n) xs ys (omega (arith, length-append xs ys))
      ∙ ap (λ k. drop k ys) (omega (arith, length-append xs ys))

  -- What was cut off before does not show in a shorter or equally long tail.
  pub trailing-trailing_append :
      (n : ℕ) (xs ys : List A) → trailing n (trailing n xs ++ ys) ≡ trailing n (xs ++ ys)
  trailing-trailing_append n xs ys =
      ap (trailing n) (sym (drop-append k xs ys (omega arith)))
      ∙ (drop-drop (length (drop k (xs ++ ys)) - n) k (xs ++ ys)
          ∙ ap (λ j. drop j (xs ++ ys))
              (omega (arith, length-drop k (xs ++ ys), length-append xs ys)))
    where
      k : ℕ
      k = length xs - n

  pub All-append {κ} : (P : A → Type κ) (xs ys : List A) → All P xs → All P ys → All P (xs ++ ys)
  All-append P [] ys hx hy = hy
  All-append P (x ∷ xs) ys hx hy = (hx.0, All-append P xs ys hx.1 hy)

module _ {ℓ} {A : Type ℓ} where
  -- A source of the destination's length replaces it.
  pub copy_full : (dst src : List A) → length src ≡ length dst → copy dst src ≡ src
  copy_full [] [] h = refl
  copy_full [] (s ∷ src) h = absurd (omega arith)
  copy_full (d ∷ dst) [] h = absurd (omega arith)
  copy_full (d ∷ dst) (s ∷ src) h = ap (◌∷◌ s) (copy_full dst src (omega arith))

  take_nil : (n : ℕ) → take {A = A} n [] ≡ []
  take_nil zero = refl
  take_nil (suc n) = refl

  pub take-append_slice : (i j : ℕ) (xs : List A) → i ≤ j → take i xs ++ slice i j xs ≡ take j xs
  take-append_slice zero j xs h = ap (λ k. take k xs) (sub_zero j)
  take-append_slice (suc i) zero xs h = absurd (omega arith)
  take-append_slice (suc i) (suc j) [] h = take_nil (suc j - suc i)
  take-append_slice (suc i) (suc j) (x ∷ xs) h =
      ap (◌∷◌ x) (rw (sub_suc j i) (take-append_slice i j xs (omega arith)))

  -- A slice that starts behind a prefix of known length.
  pub slice-append_length :
      (i j : ℕ) (xs ys : List A) → length xs ≡ i → slice i j (xs ++ ys) ≡ take (j - i) ys
  slice-append_length i j xs ys h = ap (take (j - i)) (drop-append_length i xs ys h)

  pub length-slice : (i j : ℕ) (xs : List A) → length (slice i j xs) ≡ min (j - i) (length xs - i)
  length-slice i j xs = omega (arith, length-take (j - i) (drop i xs), length-drop i xs)

  pub All-take {κ} : (P : A → Type κ) (n : ℕ) (xs : List A) → All P xs → All P (take n xs)
  All-take P zero xs h = tt
  All-take P (suc n) [] h = tt
  All-take P (suc n) (x ∷ xs) h = (h.0, All-take P n xs h.1)

  pub All-drop {κ} : (P : A → Type κ) (n : ℕ) (xs : List A) → All P xs → All P (drop n xs)
  All-drop P zero xs h = h
  All-drop P (suc n) [] h = tt
  All-drop P (suc n) (x ∷ xs) h = All-drop P n xs h.1
