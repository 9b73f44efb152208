-- ===== src/Pages/PolicyAssessment/Parts.antt =====
-- ts-agentguard/src/assessment/policy-assessment.ts: the parts of the policy dashboard and report.
use agentguard_action_proxy.Common.{String, List, [], ◌∷◌, ◌++◌, concat}
use agentguard_action_proxy.Js.{Js}
use agentguard_action_proxy.Assessment.Types.{DomainScore, PriorityRisk, RecommendedActionGroup}
use agentguard_action_proxy.Pages.Html.{escape_html, each}
use agentguard_action_proxy.Pages.Texts.{number_text, horizon_text}
use agentguard_action_proxy.Pages.Parts.{list_item}
use agentguard_action_proxy.Pages.PolicyAssessment.{PolicyAssessmentResult}

unfoldable pub action_group : RecommendedActionGroup → String
action_group group = concat (
    "<article><h3>"
    ∷ escape_html (horizon_text group.label)
    ∷ "</h3><ul>"
    ∷ each list_item group.actions
    ∷ "</ul></article>"
    ∷ [])

unfoldable pub roadmap_card : RecommendedActionGroup → String
roadmap_card group = concat (
    "<div class=\"roadmap-card\"><h3>"
    ∷ escape_html (horizon_text group.label)
    ∷ "</h3><ul>"
    ∷ each list_item group.actions
    ∷ "</ul></div>"
    ∷ [])

-- `recommendedActions.flatMap((group) => group.actions)`.
unfoldable pub all_actions : List RecommendedActionGroup → List String
all_actions [] = []
all_actions (group ∷ groups) = group.actions ++ all_actions groups

module _ (js : Js) where
  unfoldable pub render_policy_source_details : PolicyAssessmentResult → String
  render_policy_source_details result = concat (
      "<div class=\"source-detail-grid\"><div><span>분석 조항</span><strong>"
      ∷ number_text js result.policy_source_assessment_basis.analyzed_clauses
      ∷ "</strong></div><div><span>추출 통제</span><strong>"
      ∷ number_text js result.policy_source_assessment_basis.extracted_controls
      ∷ "</strong></div></div><div class=\"standards\"><span>적용 표준 (평가 기준)</span><ul>"
      ∷ each list_item result.policy_source_assessment_basis.assessment_standards
      ∷ "</ul><p>업로드된 정책을 어떤 기준으로 평가했는지 보여주는 Mock 기준입니다.</p></div>"
      ∷ [])

  unfoldable pub domain_row : DomainScore → String
  domain_row item = concat (
      "<div class=\"domain-row\"><div><strong>"
      ∷ escape_html item.label
      ∷ "</strong><span>"
      ∷ number_text js item.score
      ∷ "%</span></div><div class=\"progress\"><span style=\"width: "
      ∷ number_text js item.score
      ∷ "%\"></span></div></div>"
      ∷ [])

  unfoldable pub domain_metric : DomainScore → String
  domain_metric item = concat (
      "<div class=\"metric\"><span>"
      ∷ escape_html item.label
      ∷ "</span><strong>"
      ∷ number_text js item.score
      ∷ "/"
      ∷ number_text js item.max_score
      ∷ "</strong></div>"
      ∷ [])

  unfoldable pub risk_entry : PriorityRisk → String
  risk_entry risk = concat (
      "<li><strong>"
      ∷ escape_html risk.label
      ∷ "</strong><span>"
      ∷ number_text js risk.score
      ∷ "%</span><p>"
      ∷ escape_html risk.description
      ∷ "</p></li>"
      ∷ [])

  unfoldable pub risk_line : PriorityRisk → String
  risk_line risk = concat (
      "<li><strong>"
      ∷ escape_html risk.label
      ∷ "</strong> ("
      ∷ number_text js risk.score
      ∷ "%) - "
      ∷ escape_html risk.description
      ∷ "</li>"
      ∷ [])
