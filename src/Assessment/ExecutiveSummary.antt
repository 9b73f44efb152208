-- ===== src/Assessment/ExecutiveSummary.antt =====
-- ts-agentguard/src/assessment/executive-summary.ts: the summary in words for an industry, and a second
-- set of levels. No route calls it.
use agentguard_action_proxy.Common.{
  ℕ, suc, String, Option, none, some, List, [], ◌∷◌, ◌==◌, if◌then◌else◌, leb, concat, join,
}
use agentguard_action_proxy.Common.Lists.{take, sort_by}
use agentguard_action_proxy.Js.{Js}
use agentguard_action_proxy.Assessment.Types.{
  DomainScore, AssessmentResult, AssessmentGrade, grade_d, grade_c, grade_b, grade_a, grade_a_plus,
  AssessmentReadiness, not_ready, partially_ready, ready, advanced,
}
use agentguard_action_proxy.Assessment.Industry.{IndustryType, Phase, industry_profile}
use agentguard_action_proxy.Assessment.Scenario.{business_scenario_for}
use agentguard_action_proxy.Assessment.Priorities.{comes_first}
use agentguard_action_proxy.Assessment.Recommendations.{top_weaknesses}
use agentguard_action_proxy.Assessment.Roadmap.{business_impact_for}

-- A result with what is known of the industry; `industryPhases`, which nothing reads, is left out.
pub record IndustryAwareResult : Type 0 where
  pub result : AssessmentResult
  pub industry : Option IndustryType
  pub industry_label : Option String
  pub industry_core_control_areas : Option (List String)

unfoldable calculate_summary_grade : ℕ → AssessmentGrade
calculate_summary_grade total_score =
    if leb total_score 20
    then grade_d
    else if leb total_score 40
    then grade_c
    else if leb total_score 60
    then grade_b
    else if leb total_score 80
    then grade_a
    else grade_a_plus

unfoldable calculate_readiness_indicator : ℕ → AssessmentReadiness
calculate_readiness_indicator total_score =
    if leb total_score 20
    then not_ready
    else if leb total_score 60
    then partially_ready
    else if leb total_score 80
    then ready
    else advanced

-- `result.industryLabel ?? profile?.label`.
unfoldable pub label_of : IndustryAwareResult → Option String
label_of r = elim r.industry_label [
  | some label ↦ some label
  | none ↦ elim r.industry [ none ↦ none | some i ↦ some (industry_profile i).label ]
]

-- `result.industryCoreControlAreas ?? profile?.coreControlAreas ?? []`.
unfoldable core_areas_of : IndustryAwareResult → List String
core_areas_of r = elim r.industry_core_control_areas [
  | some areas ↦ areas
  | none ↦ elim r.industry [ none ↦ [] | some i ↦ (industry_profile i).core_control_areas ]
]

unfoldable industry_context : Option String → List String → String
industry_context none core_areas = ""
industry_context (some label) core_areas =
    if label == ""
    then ""
    else concat (
        "\n\n귀사는 "
        ∷ label
        ∷ " 기준으로 평가되었습니다.\n\n"
        ∷ label
        ∷ " 산업에서는\n"
        ∷ join "와 " core_areas
        ∷ "이\n핵심 통제 영역입니다."
        ∷ [])

unfoldable scenario_context : AssessmentResult → Option IndustryType → String
scenario_context result none = ""
scenario_context result (some industry) =
    let rule = (business_scenario_for result industry).rule in
    concat (
      "\n\n현재 가장 현실적인 사고 시나리오:\n"
      ∷ rule.executive_scenario
      ∷ "\n\n예상 영향:\n"
      ∷ join "\n" rule.executive_impact
      ∷ [])

abbrev phase_recommendations : List Phase
phase_recommendations =
    record { phase = "Phase 1"; title = "AI Usage Policy" }
    ∷ record { phase = "Phase 2"; title = "Governance Design" }
    ∷ record { phase = "Phase 3"; title = "Policy Library" }
    ∷ record { phase = "Phase 4"; title = "AgentGuard Runtime Control" }
    ∷ []

unfoldable open_entry_phase_recommendations : Option IndustryType → List Phase
open_entry_phase_recommendations none = phase_recommendations
open_entry_phase_recommendations (some industry) = (industry_profile industry).phases

module _ (js : Js) where
  unfoldable priority_improvement_areas : AssessmentResult → List DomainScore
  priority_improvement_areas result = take 3 (sort_by (comes_first js) result.domain_scores)

  -- The labels with their numbers, from a number on.
  unfoldable numbered_labels : ℕ → List DomainScore → List String
  numbered_labels n [] = []
  numbered_labels n (s ∷ ss) =
      concat (js.text_of_number (js.number n) ∷ ". " ∷ s.label ∷ []) ∷ numbered_labels (suc n) ss

  unfoldable executive_summary_text : IndustryAwareResult → String
  unfolding label_of core_areas_of industry_context scenario_context numbered_labels
  executive_summary_text r = concat (
      "Executive Summary\n\n현재 수준:\n"
      ∷ r.result.maturity_level.display_name
      ∷ industry_context (label_of r) (core_areas_of r)
      ∷ "\n\n총점은 "
      ∷ js.text_of_number (js.number r.result.total_score)
      ∷ "/"
      ∷ js.text_of_number (js.number r.result.max_score)
      ∷ "입니다.\n\n가장 취약한 영역:\n"
      ∷ join "\n" (numbered_labels 1 (top_weaknesses js r.result))
      ∷ "\n\n예상 우선 개선 기간:\n30~90일"
      ∷ scenario_context r.result r.industry
      ∷ [])

  unfoldable business_impact_for_executive_summary : Option AssessmentResult → List String
  business_impact_for_executive_summary none = "현재 주요 Governance Risk 없음" ∷ []
  business_impact_for_executive_summary (some result) = business_impact_for js result
