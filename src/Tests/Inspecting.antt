-- ===== src/Tests/Inspecting.antt =====
-- The decision on sample findings.
use agentguard_action_proxy.Common.{
  ◌≡◌, ◌≤◌, ◌↔◌, refl, inr, String, true, false, none, some, List, [], ◌∷◌, ◌++◌,
}
use agentguard_action_proxy.InputControl.Models.{
  block, low, high, no_contribution, mask, Finding, CompositeRisk, PolicyRule,
}
use agentguard_action_proxy.InputControl.PolicyEngine.{
  rank, contains_text, contributed, starting, evaluate_input_policy,
}
use agentguard_action_proxy.InputControl.PolicyEngine.Supremum.{
  All, IsRuleWithin, decision-IsSupremum,
}
use agentguard_action_proxy.InputControl.CompositeRisks.{
  has_type, has_any, evaluate_composite_risks,
}
use agentguard_action_proxy.InputControl.CompositeRisks.Seeds.{forbidden-blocked}

abbrev finding : String → String → Finding
finding category type = record {
  category = category;
  severity = low;
  type = some type;
  matched_rule = "sample";
  evidence = "";
  location = record { source = "prompt"; start = 0; end = 4 };
  masked_value = none;
  fingerprint = none;
  decision_contribution = some no_contribution;
  masking_required = none;
  reason = none;
}

-- A family seed beside a mail address.
abbrev found : List Finding
found = finding "CREDENTIAL_SECRET" "XRPL_FAMILY_SEED" ∷ finding "PERSONAL_DATA" "EMAIL" ∷ []

abbrev mail_rule : PolicyRule
mail_rule = record {
  id = "mail_mask";
  match_types = some ("EMAIL" ∷ []);
  match_categories = none;
  min_severity = some high;
  decision = mask;
  risk_score = 45;
  review_threshold = none;
}

decision-IsSupremum_example :
    (rank (evaluate_input_policy (mail_rule ∷ []) found true []).decision ≤ 1) ↔ (
      All (λ (c : CompositeRisk). rank c.decision_contribution ≤ 1) []
      × All (λ f. rank (contributed f) ≤ 1) found
      × All (IsRuleWithin 1 found) (mail_rule ∷ [])
      × (rank (starting true).decision ≤ 1))
decision-IsSupremum_example = decision-IsSupremum (mail_rule ∷ []) found true [] 1

seed_found : has_any found ("MNEMONIC_SEED_PHRASE" ∷ "XRPL_FAMILY_SEED" ∷ []) ≡ true
unfolding has_any has_type contains_text
seed_found = refl

forbidden-blocked_example :
    (evaluate_input_policy
      (mail_rule ∷ [])
      found
      false
      (evaluate_composite_risks found ++ [])).decision
    ≡ block
forbidden-blocked_example =
    forbidden-blocked (mail_rule ∷ []) found false [] (inr (inr (inr seed_found)))
