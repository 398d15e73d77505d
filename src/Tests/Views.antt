-- ===== src/Tests/Views.antt =====
-- Views of the mesh, written and read as sequences of numbers.
use mesh_checker.Base.{
  ℕ, zero, suc, ◌≡◌, refl, Bool, true, false, Option, none, some, List, [], ◌∷◌, Text,
}
use mesh_checker.Base.Int.{ℤ}
use mesh_checker.Base.Dict.{Dict}
use mesh_checker.Classifier.{State, unknown, up, down, degraded}
use mesh_checker.Aggregator.{ObserverView, Sample}
use mesh_checker.Interhost.{ViewCodec}
use mesh_checker.Tests.Codec.{
  Codec, nat_codec, text_codec, int_codec, list_codec, pair_codec, as_codec, whole,
}
use mesh_checker.Tests.Instances.{whole-put}

abbrev to_bool : ℕ → Bool
to_bool zero = false
to_bool (suc n) = true

abbrev from_bool : Bool → ℕ
from_bool false = 0
from_bool true = 1

to_bool-from_bool : (b : Bool) → to_bool (from_bool b) ≡ b
to_bool-from_bool true = refl
to_bool-from_bool false = refl

bool_codec : Codec Bool
bool_codec = as_codec nat_codec to_bool from_bool to_bool-from_bool

abbrev to_state : ℕ → State
to_state zero = unknown
to_state (suc zero) = up
to_state (suc (suc zero)) = degraded
to_state (suc (suc (suc n))) = down

abbrev from_state : State → ℕ
from_state unknown = 0
from_state up = 1
from_state degraded = 2
from_state down = 3

to_state-from_state : (s : State) → to_state (from_state s) ≡ s
to_state-from_state unknown = refl
to_state-from_state up = refl
to_state-from_state degraded = refl
to_state-from_state down = refl

-- At most one instant, as a list of instants.
abbrev to_option : List ℤ → Option ℤ
to_option [] = none
to_option (i ∷ is) = some i

abbrev from_option : Option ℤ → List ℤ
from_option none = []
from_option (some i) = i ∷ []

to_option-from_option : (o : Option ℤ) → to_option (from_option o) ≡ o
to_option-from_option none = refl
to_option-from_option (some i) = refl

abbrev to_sample : State × Option ℤ → Sample
to_sample (s, o) = record { state = s; last_ts = o }

sample_codec : Codec Sample
sample_codec =
    as_codec
      (pair_codec (as_codec nat_codec to_state from_state to_state-from_state)
        (as_codec (list_codec int_codec) to_option from_option to_option-from_option))
      to_sample (λ s. (s.state, s.last_ts)) (λ s. refl)

abbrev ViewCode : Type 0
ViewCode = Text × (Dict Text (Dict Text Sample) × (Bool × Text))

abbrev to_view : ViewCode → ObserverView
to_view (h, (s, (r, e))) = record { host = h; samples = s; reachable = r; reason = e }

view_codec : Codec ObserverView
view_codec =
    as_codec
      (pair_codec text_codec (
        pair_codec
          (list_codec (pair_codec text_codec (list_codec (pair_codec text_codec sample_codec))))
          (pair_codec bool_codec text_codec)))
      to_view (λ v. (v.host, (v.samples, (v.reachable, v.reason)))) (λ v. refl)

pub views : ViewCodec
views = record {
  encode = view_codec.put;
  decode = λ b. whole (view_codec.get b);
  decode-encode = whole-put view_codec;
}
