-- ===== src/Assessment/Priorities.antt =====
-- ts-agentguard/src/assessment/scoring.ts: the priority risks and the recommended actions.
pub mod Selection
use agentguard_action_proxy.Common.{Bool, true, false, ◌&&◌, List, [], ◌∷◌, map, if◌then◌else◌, ltb}
use agentguard_action_proxy.Common.Lists.{keep, take, sort_by}
use agentguard_action_proxy.Js.{Js}
use agentguard_action_proxy.Assessment.Types.{
  AssessmentRiskLevel, low_risk, DomainScore, PriorityRisk, days_30, days_90, days_180,
  RecommendedActionGroup,
}
use agentguard_action_proxy.Assessment.ScoringTables.{
  priority_risk_description, time_horizon_actions,
}

unfoldable pub is_low_risk : AssessmentRiskLevel → Bool
is_low_risk low_risk = true
is_low_risk _ = false

-- The test of `filter`.
unfoldable pub is_weak : DomainScore → Bool
is_weak d = ltb d.score 70 && ltb d.score 90

unfoldable pub priority_risk_of : DomainScore → PriorityRisk
priority_risk_of d = record {
  domain = d.domain;
  label = d.label;
  score = d.score;
  description = priority_risk_description d.domain;
}

unfoldable pub build_recommended_actions : AssessmentRiskLevel → List RecommendedActionGroup
build_recommended_actions risk_level =
    map (λ h. record { label = h; actions = time_horizon_actions risk_level h })
      (days_30 ∷ days_90 ∷ days_180 ∷ [])

module _ (js : Js) where
  -- `left.score - right.score || left.label.localeCompare(right.label)`, at most 0.
  unfoldable pub comes_first : DomainScore → DomainScore → Bool
  comes_first d e =
      if ltb d.score e.score
      then true
      else if ltb e.score d.score
      then false
      else js.locale_le d.label e.label

  unfoldable pub sorted_domain_scores : List DomainScore → List DomainScore
  sorted_domain_scores scores = sort_by comes_first scores

  unfoldable pub weak_domain_scores : List DomainScore → AssessmentRiskLevel → List DomainScore
  unfolding sorted_domain_scores
  weak_domain_scores scores risk_level =
      if is_low_risk risk_level then [] else take 3 (keep is_weak (sorted_domain_scores scores))

  unfoldable pub build_priority_risks : List DomainScore → AssessmentRiskLevel → List PriorityRisk
  build_priority_risks scores risk_level =
      map priority_risk_of (weak_domain_scores scores risk_level)
