-- ===== src/Common/Dict.antt =====
-- A JavaScript `Map` with text keys, as a list of entries in insertion order.
use agentguard_action_proxy.Common.Tests.{◌==◌, if◌then◌else◌}
use Prim.Native.String.{String}
use mathlib.Core.Path.{◌≡◌, refl}
use mathlib.Core.Option.{Option, none, some}
use mathlib.Core.List.{List, [], ◌∷◌}
use native.Mathlib.Omega.{arith}
use text.Mathlib.TextEquality.{eq_iff}
use text.Mathlib.TextPositions.{eq_refl}

abbrev pub Dict {ℓ} : Type ℓ → Type ℓ
Dict V = List (String × V)

module _ {ℓ} {V : Type ℓ} where
  -- `map.get(key)`.
  unfoldable pub lookup : String → Dict V → Option V
  lookup key [] = none
  lookup key ((own, value) ∷ rest) = if own == key then some value else lookup key rest

  -- `map.set(key, value)`: an old key keeps its place.
  unfoldable pub insert : String → V → Dict V → Dict V
  insert key new [] = (key, new) ∷ []
  insert key new ((own, value) ∷ rest) =
      if own == key then (key, new) ∷ rest else (own, value) ∷ insert key new rest

  pub lookup-insert :
      (set asked : String) (new : V) (m : Dict V)
      → lookup asked (insert set new m) ≡ (if set == asked then some new else lookup asked m)
  unfolding lookup insert
  lookup-insert set asked new [] = refl
  lookup-insert set asked new ((own, value) ∷ rest) =
      ground (
        arith,
        lookup-insert set asked new rest,
        eq_iff own set,
        eq_iff own asked,
        eq_iff set asked,
      )

  pub lookup-insert_self :
      (set : String) (new : V) (m : Dict V) → lookup set (insert set new m) ≡ some new
  lookup-insert_self set new m = simp (lookup-insert, eq_refl)
