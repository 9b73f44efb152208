-- ===== src/InputControl/Masking/Secrecy.antt =====
-- What the safe text tells of the text that was masked.
use agentguard_action_proxy.Common.{
  ℕ, zero, suc, ◌≤◌, ◌<◌, ◌≡◌, refl, sym, ap, ◌∙◌, ◌⊎◌, inl, inr, ◌==◌, String, false, Option, none,
  some, List, [], ◌∷◌, arith,
}
use agentguard_action_proxy.Common.Lists.{length, keep, take}
use agentguard_action_proxy.Common.Lists.Sorting.{In, In-sort_by, sort_by-In}
use agentguard_action_proxy.InputControl.Models.{Finding}
use agentguard_action_proxy.InputControl.Masking.{
  Text, skip, slice, mask_of, is_maskable, starts_later, in_order, mask_text,
}
use agentguard_action_proxy.InputControl.Masking.Filling.{LieApart, filled}
use agentguard_action_proxy.InputControl.Masking.Regions.{
  IsDisjoint, in_order-LieApart, safe_text_lem,
}

-- The code unit at a position.
unfoldable pub unit_at : ℕ → Text → Option ℕ
unit_at i [] = none
unit_at zero (c ∷ s) = some c
unit_at (suc i) (c ∷ s) = unit_at i s

some_injective : (c d : ℕ) → some c ≡ some d → c ≡ d
some_injective c d e = cc

slice-same :
    (start end : ℕ) (s t : Text)
    → length s ≡ length t
    → ((i : ℕ) → start ≤ i → i < end → unit_at i s ≡ unit_at i t)
    → slice start end s ≡ slice start end t
unfolding slice skip take length unit_at
slice-same start end [] [] size same = refl
slice-same start end [] (d ∷ t) size same = absurd (omega (arith, size))
slice-same start end (c ∷ s) [] size same = absurd (omega (arith, size))
slice-same zero zero (c ∷ s) (d ∷ t) size same = refl
slice-same zero (suc end) (c ∷ s) (d ∷ t) size same =
    let rest =
      slice-same zero end s t (omega (arith, size))
        (λ i from below. same (suc i) (omega arith) (omega arith)) in
    let first = some_injective c d (same zero (omega arith) (omega arith)) in rw (first, rest) refl
slice-same (suc start) zero (c ∷ s) (d ∷ t) size same = refl
slice-same (suc start) (suc end) (c ∷ s) (d ∷ t) size same =
    slice-same start end s t (omega (arith, size))
      (λ i from below. same (suc i) (omega arith) (omega arith))

take-same :
    (end : ℕ) (s t : Text)
    → length s ≡ length t
    → ((i : ℕ) → i < end → unit_at i s ≡ unit_at i t)
    → take end s ≡ take end t
unfolding slice skip
take-same end s t size same = slice-same zero end s t size (λ i from below. same i below)

-- A position that no finding covers.
abbrev pub IsOutside : ℕ → List Finding → Type 0
IsOutside i fs = (f : Finding) → In f fs → (i < f.location.start) ⊎ (f.location.end ≤ i)

-- The finding brings its own mask.
abbrev pub IsMasked : Finding → Type 0
IsMasked f = (m : String) × (f.masked_value ≡ some m) × ((m == "") ≡ false)

mask_of-same : (f : Finding) (raw other : Text) → IsMasked f → mask_of f raw ≡ mask_of f other
unfolding mask_of
mask_of-same f raw other (m, e, filled_in) = rw (e, filled_in) refl

-- The findings behind the first one end in front of it.
LieApart-before :
    (end : ℕ) (fs : List Finding) (g : Finding) → LieApart end fs → In g fs → g.location.end ≤ end
unfolding LieApart In
LieApart-before end [] g apart h = absurd h
LieApart-before end (f ∷ fs) g (ordered, inside, apart) (inl e) = rw⁻¹ e inside
LieApart-before end (f ∷ fs) g (ordered, inside, apart) (inr h) =
    let rest = LieApart-before f.location.start fs g apart h in omega arith

module _ (s t : Text) (size : length s ≡ length t) where
  filled-same :
      (fs : List Finding) (end : ℕ)
      → LieApart end fs
      → ((f : Finding) → In f fs → IsMasked f)
      → ((i : ℕ) → i < end → IsOutside i fs → unit_at i s ≡ unit_at i t)
      → filled s fs end ≡ filled t fs end
  unfolding filled LieApart In
  filled-same [] end apart masked same =
      take-same end s t size (λ i below. same i below (λ f h. absurd h))
  filled-same (f ∷ fs) end (ordered, inside, apart) masked same =
      let before =
        filled-same fs f.location.start apart (λ g h. masked g (inr h))
          (λ i below outside.
            same i (omega arith)
              (λ g h. elim h [ inl e ↦ inl (rw⁻¹ e below) | inr h ↦ outside g h ])) in
      let inner =
        mask_of-same f (slice f.location.start f.location.end s)
          (slice f.location.start f.location.end t) (masked f (inl refl)) in
      let after = slice-same f.location.end end s t size (λ i from below. same i below (λ g h.
        elim h [
          | inl e ↦ inr (rw⁻¹ e from)
          | inr h ↦ let earlier = LieApart-before f.location.start fs g apart h in inr (omega arith)
        ])) in
      rw (before, inner, after) refl

  -- Two texts of the same length that differ only under maskable findings get the same safe text, if
  -- each of these findings brings its own mask, no two of them overlap, and all findings lie
  -- within the text: of what the findings cover, the safe text tells no more than the masks do.
  pub safe_text-same :
      (detect_sensitive_data : Text → List Finding) (findings : List Finding)
      → ((f : Finding) → In f findings → f.location.end ≤ length s)
      → IsDisjoint (keep is_maskable findings)
      → ((f : Finding) → In f (keep is_maskable findings) → IsMasked f)
      → ((i : ℕ) → IsOutside i (keep is_maskable findings) → unit_at i s ≡ unit_at i t)
      → (mask_text detect_sensitive_data s findings).safe_text
        ≡ (mask_text detect_sensitive_data t findings).safe_text
  unfolding in_order
  safe_text-same detect findings inside apart masked same =
      let maskable = keep is_maskable findings in
      let same_length =
        filled-same (in_order findings) (length s) (in_order-LieApart s findings inside apart)
          (λ f h. masked f (In-sort_by starts_later maskable f h))
          (λ i below outside. same i (λ f h. outside f (sort_by-In starts_later maskable f h))) in
      safe_text_lem detect s findings inside apart
      ∙ same_length
      ∙ ap (filled t (in_order findings)) size
      ∙ sym (safe_text_lem detect t findings (λ f h. rw⁻¹ size (inside f h)) apart)
