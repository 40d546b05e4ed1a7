-- ===== src/Prelude/Maps.antt =====
-- JavaScript's `Map` and `Set` with texts for keys, in insertion order: `set` of a key that is there
-- keeps its place, and `add` of a member that is there changes nothing.
use mathlib.Core.Path.{◌≡◌, refl}
use mathlib.Core.Bool.{Bool, true, false}
use mathlib.Core.Option.{Option, none, some}
use mathlib.Core.List.{List, [], ◌∷◌}
use Prim.Native.String.{String}
use text.Mathlib.Text.{◌==◌ as str_eq}
use text.Mathlib.TextEquality.{eq_iff}
use text.Mathlib.TextPositions.{eq_refl}
use native.Mathlib.Omega.{arith}
use Prim.Native.Nat.{◌<◌}
use telehash_c.Prelude.Lists.{length}
use telehash_c.Prelude.Tests.{if◌then◌else◌, is_some}

module _ {ℓ} {V : Type ℓ} where
  unfoldable pub get : String → List (String × V) → Option V
  get k [] = none
  get k ((j, v) ∷ m) = if str_eq j k then some v else get k m

  unfoldable pub insert : String → V → List (String × V) → List (String × V)
  insert k v [] = (k, v) ∷ []
  insert k v ((j, w) ∷ m) = if str_eq j k then (k, v) ∷ m else (j, w) ∷ insert k v m

  unfoldable pub delete : String → List (String × V) → List (String × V)
  delete k [] = []
  delete k ((j, w) ∷ m) = let rest = delete k m in if str_eq j k then rest else (j, w) ∷ rest

  abbrev pub has : String → List (String × V) → Bool
  has k m = is_some (get k m)

  pub get-insert :
      (k j : String) (v : V) (m : List (String × V))
      → get j (insert k v m) ≡ (if str_eq k j then some v else get j m)
  unfolding get insert
  get-insert k j v [] = refl
  get-insert k j v ((i, w) ∷ m) =
      ground (arith, eq_iff k j, eq_iff i k, eq_iff i j, get-insert k j v m)

  pub get-delete :
      (k j : String) (m : List (String × V))
      → get j (delete k m) ≡ (if str_eq k j then none else get j m)
  unfolding get delete
  get-delete k j [] = ground arith
  get-delete k j ((i, w) ∷ m) = ground (arith, eq_iff k j, eq_iff i k, eq_iff i j, get-delete k j m)

  pub get-insert_self : (k : String) (v : V) (m : List (String × V)) → get k (insert k v m) ≡ some v
  get-insert_self k v m = simp (get-insert, eq_refl)

unfoldable pub contains : List String → String → Bool
contains [] k = false
contains (j ∷ s) k = if str_eq j k then true else contains s k

unfoldable pub add : List String → String → List String
add [] k = k ∷ []
add (j ∷ s) k = if str_eq j k then j ∷ s else j ∷ add s k

pub contains-add :
    (s : List String) (k j : String)
    → contains (add s k) j ≡ (if str_eq k j then true else contains s j)
unfolding contains add
contains-add [] k j = refl
contains-add (i ∷ s) k j = ground (arith, eq_iff k j, eq_iff i k, eq_iff i j, contains-add s k j)

pub length-add_pos : (s : List String) (k : String) → 0 < length (add s k)
unfolding add
length-add_pos [] k = omega arith
length-add_pos (j ∷ s) k = ground (arith, length-add_pos s k)
