-- ===== src/InputControl/Masking/Regions.antt =====
-- The safe text of findings in any order.
use agentguard_action_proxy.Common.{
  ℕ, ◌≤◌, ◌<◌, ◌≡◌, refl, ◌⊎◌, inl, inr, true, Bool-cases, List, [], ◌∷◌, arith,
}
use agentguard_action_proxy.Common.Lists.{length, keep, insert_by, sort_by}
use agentguard_action_proxy.Common.Lists.Sorting.{In, In-sort_by, In-keep}
use agentguard_action_proxy.InputControl.Models.{Finding}
use agentguard_action_proxy.InputControl.Masking.{
  Text, is_maskable, starts_later, in_order, mask_text,
}
use agentguard_action_proxy.InputControl.Masking.Filling.{LieApart, filled, mask_regions_lem}

-- Two findings that share no character.
abbrev pub Disjoint : Finding → Finding → Type 0
Disjoint f g = (f.location.end ≤ g.location.start) ⊎ (g.location.end ≤ f.location.start)

unfoldable pub IsDisjoint : List Finding → Type 0
IsDisjoint [] = Unit
IsDisjoint (f ∷ fs) = ((g : Finding) → In g fs → Disjoint f g) × IsDisjoint fs

-- A finding in the text that covers some of it.
abbrev IsWithin : ℕ → Finding → Type 0
IsWithin end f = (f.location.start < f.location.end) × (f.location.end ≤ end)

insert_by-LieApart :
    (x : Finding) (fs : List Finding) (end : ℕ)
    → IsWithin end x
    → ((g : Finding) → In g fs → Disjoint x g)
    → LieApart end fs
    → LieApart end (insert_by starts_later x fs)
unfolding LieApart In insert_by
insert_by-LieApart x [] end (covers, inside) apart lie = (omega arith, inside, tt)
insert_by-LieApart x (f ∷ fs) end (covers, inside) apart (ordered, before, lie) =
    let rest = λ (e : x.location.end ≤ f.location.start).
      insert_by-LieApart x fs f.location.start (covers, e) (λ g h. apart g (inr h)) lie in
    let beside = apart f (inl refl) in
    elim (Bool-cases (starts_later x f)) [
      | inl first ↦ rw first (omega arith, inside, (ordered, ground arith, lie))
      | inr behind ↦ rw behind (ordered, before, rest (ground arith))
    ]

sort_by-LieApart :
    (fs : List Finding) (end : ℕ)
    → ((f : Finding) → In f fs → IsWithin end f)
    → IsDisjoint fs
    → LieApart end (sort_by starts_later fs)
unfolding LieApart IsDisjoint In sort_by
sort_by-LieApart [] end within apart = tt
sort_by-LieApart (f ∷ fs) end within (beside, apart) =
    insert_by-LieApart f (sort_by starts_later fs) end (within f (inl refl))
      (λ g h. beside g (In-sort_by starts_later fs g h))
      (sort_by-LieApart fs end (λ g h. within g (inr h)) apart)

maskable-covers : (f : Finding) → is_maskable f ≡ true → f.location.start < f.location.end
unfolding is_maskable
maskable-covers f h = ground arith

-- In their order, the last one first, the findings lie apart in the text.
pub in_order-LieApart :
    (text : Text) (findings : List Finding)
    → ((f : Finding) → In f findings → f.location.end ≤ length text)
    → IsDisjoint (keep is_maskable findings)
    → LieApart (length text) (in_order findings)
unfolding in_order
in_order-LieApart text findings inside apart =
    sort_by-LieApart (keep is_maskable findings) (length text)
      (λ f h.
        let (found, maskable) = In-keep is_maskable findings f h in
        (maskable-covers f maskable, inside f found))
      apart

module _ (detect_sensitive_data : Text → List Finding) (text : Text) (findings : List Finding) where
  -- Where no two maskable findings overlap and all findings lie within the text, the safe text is the
  -- original one with each maskable finding replaced by its mask and every character between them as
  -- it was, whatever the order in which the findings are given.
  pub safe_text_lem :
      ((f : Finding) → In f findings → f.location.end ≤ length text)
      → IsDisjoint (keep is_maskable findings)
      → (mask_text detect_sensitive_data text findings).safe_text
        ≡ filled text (in_order findings) (length text)
  unfolding mask_text
  safe_text_lem inside apart =
      mask_regions_lem text (in_order findings) (in_order-LieApart text findings inside apart)
