-- ===== src/InputControl/PolicyEngine/Severities.antt =====
-- The severity from which a rule is meant to apply.
use agentguard_action_proxy.Common.{Bool, ◌≡◌, refl, ap, ◌∙◌, Option, List, [], ◌∷◌, map}
use agentguard_action_proxy.InputControl.Models.{Severity, Finding, CompositeRisk, PolicyRule}
use agentguard_action_proxy.InputControl.PolicyEngine.{
  Evaluation, rule_matches, rule_decision, apply_matched, apply_rule, apply_rules, starting,
  evaluated, evaluate_input_policy,
}

-- The rule with another severity to start from.
unfoldable with_min_severity : Option Severity → PolicyRule → PolicyRule
with_min_severity s r = record r { min_severity = s }

same_rule :
    (s : Option Severity) (fs : List Finding) (r : PolicyRule) (e : Evaluation)
    → apply_rule fs (with_min_severity s r) e ≡ apply_rule fs r e
unfolding with_min_severity apply_rule apply_matched rule_matches rule_decision
same_rule s fs r e = refl

same_rules :
    (s : Option Severity) (fs : List Finding) (rs : List PolicyRule) (e : Evaluation)
    → apply_rules fs (map (with_min_severity s) rs) e ≡ apply_rules fs rs e
unfolding apply_rules
same_rules s fs [] e = refl
same_rules s fs (r ∷ rs) e =
    ap (apply_rules fs (map (with_min_severity s) rs)) (same_rule s fs r e)
    ∙ same_rules s fs rs (apply_rule fs r e)

-- The severity that the rules of the policy file start from does not count: with any other one in
-- all rules the result is the same.
min_severity_free :
    (s : Option Severity) (rules : List PolicyRule) (findings : List Finding) (masking : Bool)
    (composites : List CompositeRisk)
    → evaluate_input_policy (map (with_min_severity s) rules) findings masking composites
      ≡ evaluate_input_policy rules findings masking composites
unfolding evaluate_input_policy evaluated
min_severity_free s rules findings masking composites =
    rw (same_rules s findings rules (starting masking)) refl
