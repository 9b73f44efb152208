-- ===== src/InputControl/CompositeRisks/Seeds.antt =====
-- Which findings block an input together.
use agentguard_action_proxy.Common.{
  ◌≤◌, Bool, true, false, ◌≡◌, refl, ◌⊎◌, inl, inr, ◌&&◌, ◌||◌, List, [], ◌∷◌, ◌++◌, arith,
}
use agentguard_action_proxy.InputControl.Models.{
  InputDecision, allow, mask, review, block, Finding, CompositeRisk, PolicyRule,
}
use agentguard_action_proxy.InputControl.PolicyEngine.{rank, evaluate_input_policy}
use agentguard_action_proxy.InputControl.PolicyEngine.Supremum.{All, decision-IsSupremum}
use agentguard_action_proxy.InputControl.CompositeRisks.{
  has_any, has_all, has_wallet, composite_rules, pushed, evaluate_composite_risks,
}

-- The combinations that are never let through: a name with its resident registration number, a card
-- with its expiry or verification code, a wallet with its key, or a seed.
abbrev IsForbidden : List Finding → Type 0
IsForbidden fs =
    (has_all fs ("PERSON_NAME" ∷ "KR_RRN" ∷ []) ≡ true)
    ⊎ ((has_all fs ("CREDIT_CARD" ∷ "CARD_EXPIRY" ∷ [])
          || has_all fs ("CREDIT_CARD" ∷ "CARD_CVV" ∷ []))
        ≡ true)
    ⊎ ((has_wallet fs && has_any fs ("BLOCKCHAIN_PRIVATE_KEY" ∷ "XRPL_FAMILY_SEED" ∷ [])) ≡ true)
    ⊎ (has_any fs ("MNEMONIC_SEED_PHRASE" ∷ "XRPL_FAMILY_SEED" ∷ []) ≡ true)

abbrev pub Unblocked : List CompositeRisk → Type 0
Unblocked cs = All (λ c. rank c.decision_contribution ≤ 2) cs

-- Every risk whose condition holds is unblocked.
abbrev pub IsHarmless : Bool × CompositeRisk → Type 0
IsHarmless r = r.0 ≡ true → rank r.1.decision_contribution ≤ 2

false_apart : ◌≡◌ {A = Bool} false true → ⊥
false_apart e = ground arith

pub pushed-Unblocked :
    (rs : List (Bool × CompositeRisk)) → Unblocked (pushed rs) → All IsHarmless rs
unfolding pushed All
pushed-Unblocked [] h = tt
pushed-Unblocked ((true, r) ∷ rs) h = ((λ _. h.0), pushed-Unblocked rs h.1)
pushed-Unblocked ((false, r) ∷ rs) h = ((λ e. absurd (false_apart e)), pushed-Unblocked rs h)

appended-Unblocked : (cs more : List CompositeRisk) → Unblocked (cs ++ more) → Unblocked cs
unfolding All
appended-Unblocked [] more h = tt
appended-Unblocked (c ∷ cs) more h = (h.0, appended-Unblocked cs more h.1)

pub last-Unblocked : (cs last : List CompositeRisk) → Unblocked (cs ++ last) → Unblocked last
unfolding All
last-Unblocked [] last h = h
last-Unblocked (c ∷ cs) last h = last-Unblocked cs last h.1

pub three_two : 3 ≤ 2 → ⊥
three_two h = omega arith

forbidden_rules_apart :
    (fs : List Finding) → IsForbidden fs → All IsHarmless (composite_rules fs) → ⊥
unfolding composite_rules All
forbidden_rules_apart fs (inl e) h = three_two (h.1.1.1.0 e)
forbidden_rules_apart fs (inr (inl e)) h = three_two (h.1.1.1.1.0 e)
forbidden_rules_apart fs (inr (inr (inl e))) h = three_two (h.1.1.1.1.1.1.1.0 e)
forbidden_rules_apart fs (inr (inr (inr e))) h = three_two (h.1.1.1.1.1.1.1.1.1.1.1.0 e)

forbidden_apart : (fs : List Finding) → IsForbidden fs → Unblocked (evaluate_composite_risks fs) → ⊥
unfolding evaluate_composite_risks
forbidden_apart fs forbidden h =
    forbidden_rules_apart fs forbidden (pushed-Unblocked (composite_rules fs) h)

pub above_two : (d : InputDecision) → (rank d ≤ 2 → ⊥) → d ≡ block
above_two allow h = absurd (h (omega arith))
above_two mask h = absurd (h (omega arith))
above_two review h = absurd (h (omega arith))
above_two block h = refl

-- An input with a forbidden combination of findings is blocked, whatever the rules of the policy file
-- are, whether or not it was masked, and whatever other composite risks are reported.
pub forbidden-blocked :
    (rules : List PolicyRule) (findings : List Finding) (masking : Bool) (more : List CompositeRisk)
    → IsForbidden findings
    → (evaluate_input_policy rules findings masking
        (evaluate_composite_risks findings ++ more)).decision
      ≡ block
forbidden-blocked rules findings masking more forbidden =
    above_two
      (evaluate_input_policy rules findings masking
        (evaluate_composite_risks findings ++ more)).decision
      (λ h. forbidden_apart findings forbidden (
        appended-Unblocked (evaluate_composite_risks findings) more
          ((decision-IsSupremum rules findings masking (evaluate_composite_risks findings ++ more)
              2).0
            h).0))
