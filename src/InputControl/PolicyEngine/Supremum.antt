-- ===== src/InputControl/PolicyEngine/Supremum.antt =====
-- How the decision on an input is made up.
use agentguard_action_proxy.Common.{ℕ, suc, zero, max, ◌≤◌, Bool, ◌↔◌, List, [], ◌∷◌, ◌++◌, arith}
use agentguard_action_proxy.Common.Lists.{length, keep}
use agentguard_action_proxy.InputControl.Models.{InputDecision, Finding, CompositeRisk, PolicyRule}
use agentguard_action_proxy.InputControl.PolicyEngine.{
  rank, rule_matches, Evaluation, raise, rule_decision, apply_matched, apply_rule, apply_rules,
  contributed, severity_score, composite_score, apply_findings, apply_composites, starting,
  evaluated, evaluate_input_policy,
}

-- Every element has the property.
unfoldable pub All : {A : Type 0} → (A → Type 0) → List A → Type 0
All P [] = Unit
All P (x ∷ xs) = P x × All P xs

-- The decision of a rule that `m` findings match is at most `n`, if there are any.
unfoldable pub IsMatchedWithin : ℕ → PolicyRule → ℕ → Type 0
IsMatchedWithin n r zero = Unit
IsMatchedWithin n r (suc m) = rank (rule_decision r (suc m)) ≤ n

abbrev pub IsRuleWithin : ℕ → List Finding → PolicyRule → Type 0
IsRuleWithin n findings r = IsMatchedWithin n r (length (keep (rule_matches r) findings))

raise-le : (d e : InputDecision) (n : ℕ) → (rank (raise d e) ≤ n) ↔ ((rank d ≤ n) × (rank e ≤ n))
unfolding raise
raise-le d e n = ground arith

apply_matched-le :
    (r : PolicyRule) (m : ℕ) (e : Evaluation) (n : ℕ)
    → (rank (apply_matched r m e).decision ≤ n) ↔ (IsMatchedWithin n r m × (rank e.decision ≤ n))
unfolding apply_matched IsMatchedWithin
apply_matched-le r zero e n = ((λ h. (tt, h)), (λ h. h.1))
apply_matched-le r (suc m) e n = raise-le (rule_decision r (suc m)) e.decision n

apply_rule-le :
    (fs : List Finding) (r : PolicyRule) (e : Evaluation) (n : ℕ)
    → (rank (apply_rule fs r e).decision ≤ n) ↔ (IsRuleWithin n fs r × (rank e.decision ≤ n))
unfolding apply_rule
apply_rule-le fs r e n = apply_matched-le r (length (keep (rule_matches r) fs)) e n

apply_rules-le :
    (fs : List Finding) (rs : List PolicyRule) (e : Evaluation) (n : ℕ)
    → (rank (apply_rules fs rs e).decision ≤ n)
      ↔ (All (IsRuleWithin n fs) rs × (rank e.decision ≤ n))
unfolding apply_rules All
apply_rules-le fs [] e n = ((λ h. (tt, h)), (λ h. h.1))
apply_rules-le fs (r ∷ rs) e n =
    let first = apply_rule-le fs r e n in
    let rest = apply_rules-le fs rs (apply_rule fs r e) n in
    (
      (λ h. (((first.0 (rest.0 h).1).0, (rest.0 h).0), (first.0 (rest.0 h).1).1)),
      (λ h. rest.1 (h.0.1, first.1 (h.0.0, h.1))),
    )

apply_findings-le :
    (fs : List Finding) (e : Evaluation) (n : ℕ)
    → (rank (apply_findings fs e).decision ≤ n)
      ↔ (All (λ f. rank (contributed f) ≤ n) fs × (rank e.decision ≤ n))
unfolding apply_findings All
apply_findings-le [] e n = ((λ h. (tt, h)), (λ h. h.1))
apply_findings-le (f ∷ fs) e n =
    let raised = raise-le (contributed f) e.decision n in
    let rest =
      apply_findings-le fs
        (record {
          decision = raise (contributed f) e.decision;
          risk_score = max e.risk_score (severity_score f);
          applied = e.applied;
        })
        n in
    (
      (λ h. (((raised.0 (rest.0 h).1).0, (rest.0 h).0), (raised.0 (rest.0 h).1).1)),
      (λ h. rest.1 (h.0.1, raised.1 (h.0.0, h.1))),
    )

apply_composites-le :
    (cs : List CompositeRisk) (e : Evaluation) (n : ℕ)
    → (rank (apply_composites cs e).decision ≤ n)
      ↔ (All (λ c. rank c.decision_contribution ≤ n) cs × (rank e.decision ≤ n))
unfolding apply_composites All
apply_composites-le [] e n = ((λ h. (tt, h)), (λ h. h.1))
apply_composites-le (c ∷ cs) e n =
    let raised = raise-le c.decision_contribution e.decision n in
    let rest =
      apply_composites-le cs
        (record {
          decision = raise c.decision_contribution e.decision;
          risk_score = max e.risk_score (composite_score c.risk);
          applied = e.applied ++ (c.rule_id ∷ []);
        })
        n in
    (
      (λ h. (((raised.0 (rest.0 h).1).0, (rest.0 h).0), (raised.0 (rest.0 h).1).1)),
      (λ h. rest.1 (h.0.1, raised.1 (h.0.0, h.1))),
    )

-- The decision on an input is the strictest of those asked for: it is at most `n` exactly when the
-- starting decision, the decision of every rule that a finding matches, the contribution of
-- every finding and the contribution of every composite risk are at most `n`.
pub decision-IsSupremum :
    (rules : List PolicyRule) (findings : List Finding) (masking : Bool)
    (composites : List CompositeRisk) (n : ℕ)
    → (rank (evaluate_input_policy rules findings masking composites).decision ≤ n) ↔ (
        All (λ c. rank c.decision_contribution ≤ n) composites
        × All (λ f. rank (contributed f) ≤ n) findings
        × All (IsRuleWithin n findings) rules
        × (rank (starting masking).decision ≤ n))
unfolding evaluate_input_policy evaluated
decision-IsSupremum rules findings masking composites n =
    let begun = apply_rules findings rules (starting masking) in
    let r = apply_rules-le findings rules (starting masking) n in
    let f = apply_findings-le findings begun n in
    let c = apply_composites-le composites (apply_findings findings begun) n in
    (
      (λ h. let hc = c.0 h in let hf = f.0 hc.1 in let hr = r.0 hf.1 in (hc.0, hf.0, hr.0, hr.1)),
      (λ h. c.1 (h.0, f.1 (h.1, r.1 (h.2, h.3)))),
    )
