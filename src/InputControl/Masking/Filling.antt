-- ===== src/InputControl/Masking/Filling.antt =====
-- The loop of the masking against a description of what it leaves: the text between the findings, and
-- in the place of each finding its mask.
use agentguard_action_proxy.Common.{
  ℕ, zero, suc, ◌≤◌, ◌≡◌, refl, sym, ap, ◌∙◌, List, [], ◌∷◌, ◌++◌, arith,
}
use agentguard_action_proxy.Common.Lists.{length, take}
use agentguard_action_proxy.InputControl.Models.{Finding}
use agentguard_action_proxy.InputControl.Masking.{
  Text, skip, slice, mask_of, mask_region, mask_regions,
}
use mathlib.Core.List.{append_assoc, append-nil}

take-append : (n : ℕ) (s t : Text) → n ≤ length s → take n (s ++ t) ≡ take n s
unfolding take length
take-append zero s t h = refl
take-append (suc n) [] t h = absurd (omega (arith, h))
take-append (suc n) (c ∷ s) t h = ap (λ r. c ∷ r) (take-append n s t (omega arith))

skip-append : (n : ℕ) (s t : Text) → n ≤ length s → skip n (s ++ t) ≡ skip n s ++ t
unfolding skip length
skip-append zero s t h = refl
skip-append (suc n) [] t h = absurd (omega (arith, h))
skip-append (suc n) (c ∷ s) t h = skip-append n s t (omega arith)

take-take : (m n : ℕ) (s : Text) → m ≤ n → take m (take n s) ≡ take m s
unfolding take
take-take zero n s h = refl
take-take (suc m) zero s h = absurd (omega arith)
take-take (suc m) (suc n) [] h = refl
take-take (suc m) (suc n) (c ∷ s) h = ap (λ r. c ∷ r) (take-take m n s (omega arith))

length-take_le : (n : ℕ) (s : Text) → n ≤ length s → length (take n s) ≡ n
unfolding take length
length-take_le zero s h = refl
length-take_le (suc n) [] h = absurd (omega (arith, h))
length-take_le (suc n) (c ∷ s) h = ap suc (length-take_le n s (omega arith))

take_all : (s : Text) → take (length s) s ≡ s
unfolding take length
take_all [] = refl
take_all (c ∷ s) = ap (λ r. c ∷ r) (take_all s)

-- The findings, the last one first, lie apart in the text up to a position.
unfoldable pub LieApart : ℕ → List Finding → Type 0
LieApart end [] = Unit
LieApart end (f ∷ fs) =
    (f.location.start ≤ f.location.end) × (f.location.end ≤ end) × LieApart f.location.start fs

-- The text up to a position with each finding replaced by its mask.
unfoldable pub filled : Text → List Finding → ℕ → Text
filled text [] end = take end text
filled text (f ∷ fs) end =
    filled text fs f.location.start
    ++ mask_of f (slice f.location.start f.location.end text)
    ++ slice f.location.end end text

module _ (text : Text) where
  -- A round of the loop works on text that no later round has touched.
  mask_region-prefix :
      (f : Finding) (end : ℕ) (rest : Text)
      → f.location.start ≤ f.location.end
      → f.location.end ≤ end
      → end ≤ length text
      → mask_region f (take end text ++ rest)
        ≡ take f.location.start text
          ++ (mask_of f (slice f.location.start f.location.end text)
              ++ (slice f.location.end end text ++ rest))
  unfolding mask_region slice
  mask_region-prefix f end rest ordered inside whole =
      let size = length-take_le end text whole in
      let start =
        take-append f.location.start (take end text) rest (omega arith)
        ∙ take-take f.location.start end text (omega arith) in
      let stop =
        take-append f.location.end (take end text) rest (omega arith)
        ∙ take-take f.location.end end text inside in
      let tail = skip-append f.location.end (take end text) rest (omega arith) in
      rw (start, stop, tail) (append_assoc (take f.location.start text) _ _)

  mask_regions-filled :
      (fs : List Finding) (end : ℕ) (rest : Text)
      → LieApart end fs
      → end ≤ length text
      → mask_regions fs (take end text ++ rest) ≡ filled text fs end ++ rest
  unfolding mask_regions filled LieApart
  mask_regions-filled [] end rest apart whole = refl
  mask_regions-filled (f ∷ fs) end rest (ordered, inside, apart) whole =
      rw (mask_region-prefix f end rest ordered inside whole)
        (mask_regions-filled fs f.location.start _ apart (omega arith) ∙ simp append_assoc)

  -- The whole loop.
  pub mask_regions_lem :
      (fs : List Finding)
      → LieApart (length text) fs
      → mask_regions fs text ≡ filled text fs (length text)
  mask_regions_lem fs apart =
      ap (mask_regions fs) (sym (append-nil (take (length text) text) ∙ take_all text))
      ∙ mask_regions-filled fs (length text) [] apart (omega arith)
      ∙ append-nil _
