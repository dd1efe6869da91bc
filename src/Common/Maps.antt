-- ===== src/Common/Maps.antt =====
-- A JavaScript object with string keys, as an association list in the order of its keys.
use Prim.Native.String.{String}
use mathlib.Core.Path.{◌≡◌, refl}
use mathlib.Core.Option.{Option, none, some}
use mathlib.Core.List.{List, [], ◌∷◌}
use native.Mathlib.Omega.{arith}
use text.Mathlib.TextEquality.{eq_iff}
use open_vm_x_ai.Common.Tests.{str_eq, if◌then◌else◌}

module _ {ℓ} {V : Type ℓ} where
  unfoldable pub lookup : String → List (String × V) → Option V
  lookup k [] = none
  lookup k ((j, v) ∷ m) = if str_eq j k then some v else lookup k m

  -- An assignment keeps the place of a key that is there, and appends one that is not.
  unfoldable pub insert : String → V → List (String × V) → List (String × V)
  insert k v [] = (k, v) ∷ []
  insert k v ((j, w) ∷ m) = if str_eq j k then (j, v) ∷ m else (j, w) ∷ insert k v m

  -- What is read after an assignment.
  pub lookup-insert :
      (key name : String) (value : V) (object : List (String × V))
      → lookup name (insert key value object)
        ≡ (if str_eq key name then some value else lookup name object)
  unfolding lookup insert
  lookup-insert key name value ((first, _) ∷ object) =
      let later = lookup-insert key name value object in
      ground (arith, later, eq_iff first name, eq_iff first key, eq_iff key name)
  lookup-insert key name value [] = refl
