-- ===== src/InputControl/PolicyEngine.antt =====
-- input-control-demo/src/policy-engine.ts. The rules of the policy file are an argument.
pub mod Supremum
pub mod Severities
use agentguard_action_proxy.Common.{
  ℕ, zero, suc, max, String, Bool, true, false, ◌||◌, ◌==◌, Option, none, some, List, [], ◌∷◌, ◌++◌,
  if◌then◌else◌, ltb, leb,
}
use agentguard_action_proxy.Common.Lists.{length, keep}
use agentguard_action_proxy.InputControl.Models.{
  InputDecision, allow, mask, review, block, Severity, low, medium, high, critical, contributes,
  no_contribution, Finding, CompositeRisk, PolicyRule,
}

abbrev pub rank : InputDecision → ℕ
rank allow = 0
rank mask = 1
rank review = 2
rank block = 3

unfoldable pub input_risk_level : ℕ → Severity
input_risk_level score =
    if leb 85 score
    then critical
    else if leb 70 score
    then high
    else if leb 40 score
    then medium
    else low

-- `list.includes(text)`.
unfoldable pub contains_text : String → List String → Bool
contains_text t [] = false
contains_text t (s ∷ ss) = s == t || contains_text t ss

-- `list?.includes(text)`, where both may be undefined.
unfoldable lists_text : Option (List String) → Option String → Bool
unfolding contains_text
lists_text (some list) (some t) = contains_text t list
lists_text _ _ = false

unfoldable pub rule_matches : PolicyRule → Finding → Bool
unfolding lists_text
rule_matches r f =
    lists_text r.match_types f.type || lists_text r.match_categories (some f.category)

-- The state of the loops.
pub record Evaluation : Type 0 where
  pub decision : InputDecision
  pub risk_score : ℕ
  pub applied : List String

-- `if (rank[d] > rank[decision]) decision = d`
unfoldable pub raise : InputDecision → InputDecision → InputDecision
raise d decision = if ltb (rank decision) (rank d) then d else decision

-- The decision of a rule that so many findings match.
unfoldable pub rule_decision : PolicyRule → ℕ → InputDecision
rule_decision r zero = r.decision
rule_decision r (suc n) = elim r.review_threshold [
  | none ↦ r.decision
  | some zero ↦ r.decision
  | some (suc t) ↦ if leb (suc t) (suc n) then review else r.decision
]

-- What a rule does that so many findings match.
unfoldable pub apply_matched : PolicyRule → ℕ → Evaluation → Evaluation
apply_matched r zero e = e
apply_matched r (suc n) e = record {
  decision = raise (rule_decision r (suc n)) e.decision;
  risk_score = max e.risk_score r.risk_score;
  applied = e.applied ++ (r.id ∷ []);
}

unfoldable pub apply_rule : List Finding → PolicyRule → Evaluation → Evaluation
unfolding apply_matched
apply_rule findings r e = apply_matched r (length (keep (rule_matches r) findings)) e

unfoldable pub apply_rules : List Finding → List PolicyRule → Evaluation → Evaluation
apply_rules findings [] e = e
apply_rules findings (r ∷ rs) e = apply_rules findings rs (apply_rule findings r e)

-- `allow` is the lowest rank: no contribution is one of `allow`.
unfoldable pub contributed : Finding → InputDecision
contributed f = elim f.decision_contribution [
  | some (contributes d) ↦ d
  | some no_contribution ↦ allow
  | none ↦ allow
]

unfoldable pub is_uncontributing : Finding → Bool
is_uncontributing f = elim f.decision_contribution [ some no_contribution ↦ true | _ ↦ false ]

-- The least score that a finding asks for.
unfoldable pub severity_score : Finding → ℕ
severity_score f =
    if f.category == "PUBLIC_IDENTIFIER" || is_uncontributing f
    then 0
    else elim f.severity [ critical ↦ 90 | high ↦ 70 | _ ↦ 0 ]

unfoldable pub apply_findings : List Finding → Evaluation → Evaluation
apply_findings [] e = e
apply_findings (f ∷ fs) e = apply_findings fs (record e {
  decision = raise (contributed f) e.decision;
  risk_score = max e.risk_score (severity_score f);
})

unfoldable pub composite_score : Severity → ℕ
composite_score critical = 95
composite_score high = 75
composite_score medium = 50
composite_score low = 20

unfoldable pub apply_composites : List CompositeRisk → Evaluation → Evaluation
apply_composites [] e = e
apply_composites (c ∷ cs) e = apply_composites cs (record {
  decision = raise c.decision_contribution e.decision;
  risk_score = max e.risk_score (composite_score c.risk);
  applied = e.applied ++ (c.rule_id ∷ []);
})

-- `[...new Set(texts)]`, behind the texts already seen.
unfoldable pub distinct_texts : List String → List String → List String
distinct_texts seen [] = []
distinct_texts seen (t ∷ ts) =
    let again = distinct_texts seen ts in
    let first = distinct_texts (t ∷ seen) ts in if contains_text t seen then again else t ∷ first

pub record InputPolicyResult : Type 0 where
  pub decision : InputDecision
  pub risk_score : ℕ
  pub risk_level : Severity
  pub applied_policies : List String

unfoldable pub starting : Bool → Evaluation
starting masking_applied = record {
  decision = if masking_applied then mask else allow;
  risk_score = if masking_applied then 45 else 5;
  applied = [];
}

unfoldable pub evaluated : List PolicyRule → List Finding → Bool → List CompositeRisk → Evaluation
unfolding starting apply_rule apply_rules apply_findings apply_composites
evaluated rules findings masking_applied composites =
    apply_composites composites
      (apply_findings findings (apply_rules findings rules (starting masking_applied)))

unfoldable pub evaluate_input_policy :
    List PolicyRule → List Finding → Bool → List CompositeRisk → InputPolicyResult
unfolding evaluated distinct_texts
evaluate_input_policy rules findings masking_applied composites =
    let e = evaluated rules findings masking_applied composites in
    record {
      decision = e.decision;
      risk_score = e.risk_score;
      risk_level = input_risk_level e.risk_score;
      applied_policies = distinct_texts [] e.applied;
    }
