-- ===== src/Common/Lists/Sorting.antt =====
-- Sorting by a score and taking the first elements.
use Prim.Native.Nat.{ℕ, zero, suc, ◌≤◌}
use mathlib.Core.Path.{◌≡◌}
use mathlib.Core.Logic.{◌⊎◌, inl, inr}
use mathlib.Core.Bool.{Bool, true}
use mathlib.Core.List.{List, [], ◌∷◌}
use native.Mathlib.Omega.{arith}
use agentguard_action_proxy.Common.Lists.{length, keep, take, insert_by, sort_by}

module _ {A : Type 0} where
  -- `x` is an element of the list.
  unfoldable pub In : A → List A → Type 0
  In x [] = ⊥
  In x (y ∷ ys) = (y ≡ x) ⊎ In x ys

  pub In-take : (n : ℕ) (xs : List A) (x : A) → In x (take n xs) → In x xs
  unfolding In take
  In-take zero xs x h = absurd h
  In-take (suc n) [] x h = h
  In-take (suc n) (y ∷ ys) x (inl e) = inl e
  In-take (suc n) (y ∷ ys) x (inr h) = inr (In-take n ys x h)

  pub length-take : (n : ℕ) (xs : List A) → length (take n xs) ≤ n
  unfolding length take
  length-take zero xs = omega arith
  length-take (suc n) [] = omega arith
  length-take (suc n) (y ∷ ys) = let rest = length-take n ys in omega arith

  pub keep-In : (p : A → Bool) (xs : List A) (x : A) → In x xs → p x ≡ true → In x (keep p xs)
  unfolding In keep
  keep-In p [] x h t = h
  keep-In p (y ∷ ys) x h t = let rest = keep-In p ys x in ground arith

  pub In-keep : (p : A → Bool) (xs : List A) (x : A) → In x (keep p xs) → In x xs × (p x ≡ true)
  unfolding In keep
  In-keep p [] x h = absurd h
  In-keep p (y ∷ ys) x h = let rest = In-keep p ys x in ground arith

  module _ (le : A → A → Bool) where
    insert_by-In : (x : A) (ys : List A) (z : A) → (x ≡ z) ⊎ In z ys → In z (insert_by le x ys)
    unfolding In insert_by
    insert_by-In x [] z h = h
    insert_by-In x (y ∷ ys) z h = let rest = insert_by-In x ys z in ground arith

    pub In-insert_by : (x : A) (ys : List A) (z : A) → In z (insert_by le x ys) → (x ≡ z) ⊎ In z ys
    unfolding In insert_by
    In-insert_by x [] z h = h
    In-insert_by x (y ∷ ys) z h = let rest = In-insert_by x ys z in ground arith

    pub sort_by-In : (xs : List A) (z : A) → In z xs → In z (sort_by le xs)
    unfolding In sort_by
    sort_by-In [] z h = h
    sort_by-In (x ∷ xs) z (inl e) = insert_by-In x (sort_by le xs) z (inl e)
    sort_by-In (x ∷ xs) z (inr h) = insert_by-In x (sort_by le xs) z (inr (sort_by-In xs z h))

    pub In-sort_by : (xs : List A) (z : A) → In z (sort_by le xs) → In z xs
    unfolding In sort_by
    In-sort_by [] z h = h
    In-sort_by (x ∷ xs) z h = elim (In-insert_by x (sort_by le xs) z h) [
      | inl e ↦ inl e
      | inr k ↦ inr (In-sort_by xs z k)
    ]

  -- No element has a higher score than a later one.
  module _ (score : A → ℕ) where
    unfoldable pub IsRising : List A → Type 0
    IsRising [] = Unit
    IsRising (x ∷ xs) = ((y : A) → In y xs → score x ≤ score y) × IsRising xs
