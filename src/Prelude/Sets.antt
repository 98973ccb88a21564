-- ===== src/Prelude/Sets.antt =====
-- Sets of texts as lists in any order, and maps from texts as functions, by their laws.
use Prim.Native.String.{String}
use text.Mathlib.Text.{◌==◌}
use text.Mathlib.TextEquality.{eq_iff}
use mathlib.Core.Path.{◌≡◌, refl}
use mathlib.Core.Bool.{Bool, false, not, ◌&&◌, ◌||◌}
use mathlib.Core.List.{List, [], ◌∷◌, ◌++◌}
use mathlib.Core.Option.{Option, none, some}
use native.Mathlib.Omega.{arith}
use proton_sdk_rs.Prelude.Tests.{if◌then◌else◌}

abbrev pub contains : String → List String → Bool
contains k [] = false
contains k (s ∷ ss) = s == k || contains k ss

abbrev pub remove : String → List String → List String
remove k [] = []
remove k (s ∷ ss) = let rest = remove k ss in if s == k then rest else s ∷ rest

abbrev pub add : String → List String → List String
add k ss = if contains k ss then ss else k ∷ ss

abbrev pub to_set : List String → List String
to_set [] = []
to_set (s ∷ ss) = add s (to_set ss)

pub contains-remove :
    (k j : String) (ss : List String) → contains k (remove j ss) ≡ (contains k ss && not (j == k))
contains-remove k j [] = refl
contains-remove k j (s ∷ ss) =
    ground (arith, contains-remove k j ss, eq_iff s j, eq_iff s k, eq_iff j k)

pub contains-add :
    (k j : String) (ss : List String) → contains k (add j ss) ≡ (j == k || contains k ss)
contains-add k j ss = ground (arith, eq_iff j k)

pub contains-to_set : (k : String) (ss : List String) → contains k (to_set ss) ≡ contains k ss
contains-to_set k [] = refl
contains-to_set k (s ∷ ss) = ground (arith, contains-add k s (to_set ss), contains-to_set k ss)

pub contains-append :
    (k : String) (ss ts : List String) → contains k (ss ++ ts) ≡ (contains k ss || contains k ts)
contains-append k [] ts = refl
contains-append k (s ∷ ss) ts = ground (arith, contains-append k ss ts)

module _ {ℓ} {V : Type ℓ} where
  abbrev pub put : String → V → (String → Option V) → String → Option V
  put k v m j = if k == j then some v else m j

  abbrev pub erase : String → (String → Option V) → String → Option V
  erase k m j = if k == j then none else m j
