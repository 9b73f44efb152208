-- ===== src/InputControl/DestinationRisks/Secrets.antt =====
-- What may not leave for which destination.
use agentguard_action_proxy.Common.{Bool, true, ◌≡◌, ◌⊎◌, inl, inr, ◌&&◌, some, List, ◌++◌}
use agentguard_action_proxy.InputControl.Models.{block, Finding, CompositeRisk, PolicyRule}
use agentguard_action_proxy.InputControl.PolicyEngine.{evaluate_input_policy}
use agentguard_action_proxy.InputControl.PolicyEngine.Supremum.{All, decision-IsSupremum}
use agentguard_action_proxy.InputControl.CompositeRisks.Seeds.{
  Unblocked, IsHarmless, pushed-Unblocked, last-Unblocked, above_two, three_two,
}
use agentguard_action_proxy.InputControl.DestinationRisks.{
  Destination, has_category, has_secret, is_untrusted, is_unapproved_llm, destination_rules,
  evaluate_destination_risks,
}

-- A secret for an untrusted destination, or a confidential document for an unapproved model.
abbrev pub IsLeak : List Finding → Destination → Type 0
IsLeak fs d =
    ((has_secret fs && is_untrusted d.type) ≡ true)
    ⊎ ((has_category "CONFIDENTIAL_DOCUMENT" fs && is_unapproved_llm d.type) ≡ true)

leak_rules_apart :
    (fs : List Finding) (d : Destination)
    → IsLeak fs d
    → All IsHarmless (destination_rules fs d)
    → ⊥
unfolding destination_rules All
leak_rules_apart fs d (inl e) h = three_two (h.0 e)
leak_rules_apart fs d (inr e) h = three_two (h.1.0 e)

leak_apart :
    (fs : List Finding) (d : Destination)
    → IsLeak fs d
    → Unblocked (evaluate_destination_risks fs (some d))
    → ⊥
unfolding evaluate_destination_risks
leak_apart fs d leak h = leak_rules_apart fs d leak (pushed-Unblocked (destination_rules fs d) h)

-- An input with a secret for an unknown, external or unapproved destination, or with a confidential
-- document for an unapproved external model, is blocked, whatever the rules of the policy file
-- are, whether or not it was masked, and whatever the other composite risks are.
pub leak-blocked :
    (rules : List PolicyRule) (findings : List Finding) (masking : Bool) (more : List CompositeRisk)
    (d : Destination)
    → IsLeak findings d
    → (evaluate_input_policy rules findings masking
        (more ++ evaluate_destination_risks findings (some d))).decision
      ≡ block
leak-blocked rules findings masking more d leak =
    above_two
      (evaluate_input_policy rules findings masking
        (more ++ evaluate_destination_risks findings (some d))).decision
      (λ h. leak_apart findings d leak (
        last-Unblocked more (evaluate_destination_risks findings (some d))
          ((decision-IsSupremum rules findings masking
              (more ++ evaluate_destination_risks findings (some d)) 2).0
            h).0))
