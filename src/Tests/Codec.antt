-- ===== src/Tests/Codec.antt =====
-- A way to write configurations and views as sequences of numbers and to read them again: a stand-in
-- for the JSON encoder.
use mesh_checker.Base.{
  ℕ, zero, suc, ◌≡◌, refl, ap, Option, none, some, List, [], ◌∷◌, ◌++◌, append_assoc, Text, length,
  Fallible, ok, err, codes,
}
use mesh_checker.Base.Int.{ℤ, pos, negsuc}

pub record Codec (A : Type 0) : Type 0 where
  pub put : A → Text
  pub get : Text → Option (A × Text)
  pub get-put : (a : A) (rest : Text) → get (put a ++ rest) ≡ some (a, rest)

abbrev pub then_get :
    {A B : Type 0} → Option (A × Text) → (A → Text → Option (B × Text)) → Option (B × Text)
then_get none f = none
then_get (some (a, rest)) f = f a rest

abbrev get_ℕ : Text → Option (ℕ × Text)
get_ℕ [] = none
get_ℕ (n ∷ s) = some (n, s)

abbrev pub nat_codec : Codec ℕ
nat_codec = record { put = λ n. n ∷ []; get = get_ℕ; get-put = λ n rest. refl }

module _ {A B : Type 0} (a : Codec A) (b : Codec B) where
  abbrev pub get_pair : Text → Option ((A × B) × Text)
  get_pair s = then_get (a.get s) (λ x t. then_get (b.get t) (λ y u. some ((x, y), u)))

  abbrev pub put_pair : A × B → Text
  put_pair (x, y) = a.put x ++ b.put y

  pub get_pair-put_pair : (p : A × B) (rest : Text) → get_pair (put_pair p ++ rest) ≡ some (p, rest)
  get_pair-put_pair (x, y) rest =
      rw (append_assoc (a.put x) (b.put y) rest, a.get-put x (b.put y ++ rest), b.get-put y rest)
        refl

  abbrev pub pair_codec : Codec (A × B)
  pair_codec = record { put = put_pair; get = get_pair; get-put = get_pair-put_pair }

-- A type that reads as another one.
module _ {A B : Type 0} (a : Codec A) (to : A → B) (from : B → A)
    (to-from : (b : B) → to (from b) ≡ b) where
  abbrev pub get_as : Text → Option (B × Text)
  get_as s = then_get (a.get s) (λ x t. some (to x, t))

  pub get_as_lem : (b : B) (rest : Text) → get_as (a.put (from b) ++ rest) ≡ some (b, rest)
  get_as_lem b rest = rw (get_as, a.get-put (from b) rest) (ap (λ x. some (x, rest)) (to-from b))

  abbrev pub as_codec : Codec B
  as_codec = record { put = λ b. a.put (from b); get = get_as; get-put = get_as_lem }

module _ {A : Type 0} (a : Codec A) where
  abbrev pub get_many : ℕ → Text → Option (List A × Text)
  get_many zero s = some ([], s)
  get_many (suc n) s =
      then_get (a.get s) (λ x t. then_get (get_many n t) (λ xs u. some (x ∷ xs, u)))

  abbrev pub put_all : List A → Text
  put_all [] = []
  put_all (x ∷ xs) = a.put x ++ put_all xs

  pub get_many-put_all :
      (xs : List A) (rest : Text) → get_many (length xs) (put_all xs ++ rest) ≡ some (xs, rest)
  get_many-put_all [] rest = refl
  get_many-put_all (x ∷ xs) rest =
      rw
        (
          append_assoc (a.put x) (put_all xs) rest,
          a.get-put x (put_all xs ++ rest),
          get_many-put_all xs rest,
        )
        refl

  abbrev pub get_list : Text → Option (List A × Text)
  get_list [] = none
  get_list (n ∷ s) = get_many n s

  abbrev pub list_codec : Codec (List A)
  list_codec = record {
    put = λ xs. length xs ∷ put_all xs;
    get = get_list;
    get-put = get_many-put_all;
  }

abbrev pub text_codec : Codec Text
text_codec = list_codec nat_codec

abbrev pub to_ℤ : ℕ × ℕ → ℤ
to_ℤ (zero, n) = pos n
to_ℤ (suc k, n) = negsuc n

abbrev pub from_ℤ : ℤ → ℕ × ℕ
from_ℤ (pos n) = (0, n)
from_ℤ (negsuc n) = (1, n)

pub to_ℤ-from_ℤ : (i : ℤ) → to_ℤ (from_ℤ i) ≡ i
to_ℤ-from_ℤ (pos n) = refl
to_ℤ-from_ℤ (negsuc n) = refl

abbrev pub int_codec : Codec ℤ
int_codec = as_codec (pair_codec nat_codec nat_codec) to_ℤ from_ℤ to_ℤ-from_ℤ

-- A whole text, with nothing behind it.
abbrev pub whole : {A : Type 0} → Option (A × Text) → Fallible Text A
whole none = err (codes "cannot be read")
whole (some (a, [])) = ok a
whole (some (a, c ∷ rest)) = err (codes "more than one value")
