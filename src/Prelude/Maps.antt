-- ===== src/Prelude/Maps.antt =====
-- Python's `dict` with texts for keys: the pairs in the order of their insertion.
use Prim.Native.Nat.{suc, ◌+◌}
use Prim.Native.String.{String}
use mathlib.Core.Path.{◌≡◌, refl}
use mathlib.Core.Bool.{false}
use mathlib.Core.Option.{Option, none, some}
use mathlib.Core.List.{List, [], ◌∷◌}
use native.Mathlib.Omega.{arith}
use text.Mathlib.Text.{◌==◌ as str_eq}
use text.Mathlib.TextEquality.{eq_iff as str_eq_iff}
use code_xd.Prelude.Tests.{if◌then◌else◌, is_some}
use code_xd.Prelude.Lists.{length}

module _ {A : Type 0} where
  -- `m.get(k)`
  unfoldable pub get : String → List (String × A) → Option A
  get k [] = none
  get k (x ∷ m) = if str_eq x.0 k then some x.1 else get k m

  -- `m[k] = v`
  unfoldable pub put : String → A → List (String × A) → List (String × A)
  put k v [] = (k, v) ∷ []
  put k v (x ∷ m) = if str_eq x.0 k then (x.0, v) ∷ m else x ∷ put k v m

  -- `m.pop(k, None)`
  unfoldable pub pop : String → List (String × A) → List (String × A)
  pop k [] = []
  pop k (x ∷ m) = if str_eq x.0 k then m else x ∷ pop k m

  pub get-put :
      (j k : String) (v : A) (m : List (String × A))
      → get j (put k v m) ≡ (if str_eq k j then some v else get j m)
  unfolding get put
  get-put j k v [] = refl
  get-put j k v (x ∷ m) =
      ground (arith, str_eq_iff x.0 k, str_eq_iff x.0 j, str_eq_iff k j, get-put j k v m)

  -- Writing a key that is there keeps the size.
  pub length-put :
      (k : String) (v : A) (m : List (String × A))
      → length (put k v m) ≡ (if is_some (get k m) then length m else suc (length m))
  unfolding get put
  length-put k v [] = refl
  length-put k v (x ∷ m) = ground (arith, length-put k v m)

  pub length-pop :
      (k : String) (m : List (String × A))
      → length (pop k m) + (if is_some (get k m) then 1 else 0) ≡ length m
  unfolding get pop
  length-pop k [] = refl
  length-pop k (x ∷ m) = ground (arith, length-pop k m)

  -- Removing one key leaves the others.
  pub get-pop :
      (j k : String) (m : List (String × A)) → str_eq k j ≡ false → get j (pop k m) ≡ get j m
  unfolding get pop
  get-pop j k [] h = refl
  get-pop j k (x ∷ m) h =
      ground (arith, str_eq_iff x.0 k, str_eq_iff x.0 j, str_eq_iff k j, get-pop j k m)
