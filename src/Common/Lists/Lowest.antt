-- ===== src/Common/Lists/Lowest.antt =====
-- The first elements of a list that was sorted by a score.
use Prim.Native.Nat.{ℕ, zero, suc, ◌≤◌}
use mathlib.Core.Path.{◌≡◌, ap}
use mathlib.Core.Logic.{◌⊎◌, inl, inr}
use mathlib.Core.Bool.{Bool, true, false}
use mathlib.Core.List.{List, [], ◌∷◌}
use native.Mathlib.Omega.{arith}
use agentguard_action_proxy.Common.Tests.{Bool-cases}
use agentguard_action_proxy.Common.Lists.{length, keep, take, insert_by, sort_by}
use agentguard_action_proxy.Common.Lists.Sorting.{In, In-insert_by, In-keep}

module _ {A : Type 0} (score : A → ℕ) where
  -- No element has a higher score than a later one.
  unfoldable pub IsRising : List A → Type 0
  IsRising [] = Unit
  IsRising (x ∷ xs) = ((y : A) → In y xs → score x ≤ score y) × IsRising xs

  pub keep-IsRising : (p : A → Bool) (xs : List A) → IsRising xs → IsRising (keep p xs)
  unfolding IsRising keep
  keep-IsRising p [] rising = rising
  keep-IsRising p (x ∷ xs) (first, later) =
      let rest = keep-IsRising p xs later in let still = kept first in ground arith
    where
      kept :
          ((y : A) → In y xs → score x ≤ score y) → (y : A) → In y (keep p xs) → score x ≤ score y
      kept first y h = first y (In-keep p xs y h).0

  -- The first `n` elements are all there are, or none of the others has a lower score.
  pub take-IsLowest :
      (n : ℕ) (xs : List A)
      → IsRising xs
      → (x : A) → In x xs
      → In x (take n xs)
        ⊎ ((length (take n xs) ≡ n) × ((y : A) → In y (take n xs) → score y ≤ score x))
  unfolding IsRising In take length
  take-IsLowest zero xs rising x h = ground arith
  take-IsLowest (suc n) [] rising x h = absurd h
  take-IsLowest (suc n) (z ∷ zs) rising x (inl e) = inl (inl e)
  take-IsLowest (suc n) (z ∷ zs) (first, later) x (inr h) =
      let rest = take-IsLowest n zs later x h in let here = first x h in ground arith

  -- The comparison goes by the score first.
  abbrev pub GoesByScore : (A → A → Bool) → Type 0
  GoesByScore le =
      (x y : A) → (le x y ≡ true → score x ≤ score y) × (le x y ≡ false → score y ≤ score x)

  module _ (le : A → A → Bool) (by_score : GoesByScore le) where
    below_tail :
        (x y : A) (ys : List A)
        → score x ≤ score y
        → ((z : A) → In z ys → score y ≤ score z)
        → (z : A) → (y ≡ z) ⊎ In z ys
        → score x ≤ score z
    below_tail x y ys xy first z (inl e) = let same = ap score e in omega arith
    below_tail x y ys xy first z (inr h) = let yz = first z h in omega arith

    below_insert :
        (x y : A) (ys : List A)
        → score y ≤ score x
        → ((z : A) → In z ys → score y ≤ score z)
        → (z : A) → In z (insert_by le x ys)
        → score y ≤ score z
    below_insert x y ys yx first z h = elim (In-insert_by le x ys z h) [
      | inl e ↦ let same = ap score e in omega arith
      | inr k ↦ first z k
    ]

    insert_by-IsRising : (x : A) (ys : List A) → IsRising ys → IsRising (insert_by le x ys)
    unfolding IsRising insert_by In
    insert_by-IsRising x [] rising = ((λ y h. absurd h), tt)
    insert_by-IsRising x (y ∷ ys) (first, later) =
        let rest = insert_by-IsRising x ys later in
        elim (Bool-cases (le x y)) [
          | inl before ↦
              rw before (below_tail x y ys ((by_score x y).0 before) first, (first, later))
          | inr after ↦ rw after (below_insert x y ys ((by_score x y).1 after) first, rest)
        ]

    pub sort_by-IsRising : (xs : List A) → IsRising (sort_by le xs)
    unfolding IsRising sort_by
    sort_by-IsRising [] = tt
    sort_by-IsRising (x ∷ xs) = insert_by-IsRising x (sort_by le xs) (sort_by-IsRising xs)
