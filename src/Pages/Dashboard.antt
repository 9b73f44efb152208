-- ===== src/Pages/Dashboard.antt =====
-- ts-agentguard/src/assessment/dashboard.ts: the parts of the executive dashboard.
pub mod Document
pub mod Structure
use agentguard_action_proxy.Common.{ℕ, String, List, [], ◌∷◌, concat}
use agentguard_action_proxy.Js.{Js}
use agentguard_action_proxy.Assessment.Types.{
  AnswerLabel, no, not_sure, partial, yes, QuestionExplanation, DomainExplanation, DomainScore,
  StandardsReference, StandardsAlignment, PriorityRisk, RecommendedActionGroup, AssessmentResult,
}
use agentguard_action_proxy.Pages.Html.{escape_html, each, replace_first}
use agentguard_action_proxy.Pages.Parts.{list_item, render_alignment_status, status_class}
use agentguard_action_proxy.Pages.Texts.{number_text, horizon_text}

unfoldable pub top_risks_for_dashboard : AssessmentResult → List PriorityRisk
top_risks_for_dashboard result = result.priority_risks

unfoldable pub render_action_group : RecommendedActionGroup → String
render_action_group group = concat (
    "<article>\n"
    ∷ "    <h3>"
    ∷ escape_html (horizon_text group.label)
    ∷ "</h3>\n"
    ∷ "    <ul>"
    ∷ each list_item group.actions
    ∷ "</ul>\n"
    ∷ "  </article>"
    ∷ [])

unfoldable pub render_standard : StandardsReference → String
render_standard standard = concat (
    "<details class=\"standard-card\">\n"
    ∷ "          <summary><strong>"
    ∷ escape_html standard.framework
    ∷ "</strong><span>"
    ∷ escape_html standard.reference
    ∷ "</span></summary>\n"
    ∷ "          <dl>\n"
    ∷ "            <div><dt>Meaning</dt><dd>"
    ∷ escape_html standard.meaning
    ∷ "</dd></div>\n"
    ∷ "            <div><dt>Current Implication</dt><dd>"
    ∷ escape_html standard.current_implication
    ∷ "</dd></div>\n"
    ∷ "            <div><dt>Recommended Improvement</dt><dd>"
    ∷ escape_html standard.recommended_improvement
    ∷ "</dd></div>\n"
    ∷ "          </dl>\n"
    ∷ "        </details>"
    ∷ [])

unfoldable pub render_answer_label : AnswerLabel → String
render_answer_label yes = "예"
render_answer_label partial = "일부"
render_answer_label not_sure = "확인 필요"
render_answer_label no = "아니오"

unfoldable pub render_maturity_label : String → String
render_maturity_label display_name =
    let one = replace_first "Level 1 Initial" "1단계 초기" display_name in
    let two = replace_first "Level 2 Developing" "2단계 개발 중" one in
    let three = replace_first "Level 3 Managed" "3단계 관리 중" two in
    let four = replace_first "Level 4 Governed" "4단계 거버넌스 운영" three in
    replace_first "Level 5 Optimized" "5단계 최적화" four

module _ (js : Js) where
  unfoldable pub render_domain_score : DomainScore → String
  render_domain_score d = concat (
      "<div class=\"domain-row\">\n"
      ∷ "    <div><strong>"
      ∷ escape_html d.label
      ∷ "</strong><span>"
      ∷ number_text js d.score
      ∷ "%</span></div>\n"
      ∷ "    <div class=\"progress\" aria-label=\""
      ∷ escape_html d.label
      ∷ " 점수 "
      ∷ number_text js d.score
      ∷ " / "
      ∷ number_text js d.max_score
      ∷ "\"><span style=\"width: "
      ∷ number_text js d.score
      ∷ "%\"></span></div>\n"
      ∷ "  </div>"
      ∷ [])

  unfoldable pub render_priority_risk : PriorityRisk → String
  render_priority_risk risk = concat (
      "<li><strong>"
      ∷ escape_html risk.label
      ∷ "</strong><span>"
      ∷ number_text js risk.score
      ∷ "%</span><p>"
      ∷ escape_html risk.description
      ∷ "</p></li>"
      ∷ [])

  unfoldable pub render_priority_risks : List PriorityRisk → String
  render_priority_risks [] = "<p class=\"empty-state\">중대한 우선 관리 위험이 확인되지 않았습니다.</p>"
  render_priority_risks (risk ∷ risks) =
      concat ("<ol>" ∷ each render_priority_risk (risk ∷ risks) ∷ "</ol>" ∷ [])

  unfoldable pub render_standards_alignment : StandardsAlignment → String
  render_standards_alignment item = concat (
      "<article class=\"alignment-card alignment-"
      ∷ status_class item.status
      ∷ "\">\n"
      ∷ "    <div class=\"alignment-head\">\n"
      ∷ "      <div>\n"
      ∷ "        <h3>"
      ∷ escape_html item.label
      ∷ "</h3>\n"
      ∷ "        <p>"
      ∷ escape_html item.summary
      ∷ "</p>\n"
      ∷ "      </div>\n"
      ∷ "      <div class=\"alignment-score\">\n"
      ∷ "        <strong>"
      ∷ number_text js item.score
      ∷ "</strong>\n"
      ∷ "        <span>"
      ∷ escape_html (render_alignment_status item.status)
      ∷ "</span>\n"
      ∷ "      </div>\n"
      ∷ "    </div>\n"
      ∷ "    <div class=\"impact-badge\">표준 영향도 "
      ∷ escape_html item.impact
      ∷ "</div>\n"
      ∷ "    <div class=\"standard-list\">"
      ∷ each render_standard item.standards
      ∷ "</div>\n"
      ∷ "  </article>"
      ∷ [])

  unfoldable pub render_question_explanation : QuestionExplanation → String
  render_question_explanation question = concat (
      "<tr>\n"
      ∷ "    <td>"
      ∷ escape_html question.display_id
      ∷ "</td>\n"
      ∷ "    <td>"
      ∷ escape_html (render_answer_label question.answer)
      ∷ "</td>\n"
      ∷ "    <td>"
      ∷ number_text js question.points
      ∷ "/"
      ∷ number_text js question.max_points
      ∷ "</td>\n"
      ∷ "    <td>"
      ∷ escape_html question.impact
      ∷ "</td>\n"
      ∷ "  </tr>"
      ∷ [])

  unfoldable pub render_explanation : DomainExplanation → String
  render_explanation explanation = concat (
      "<article class=\"explanation-card\">\n"
      ∷ "    <div class=\"explanation-head\">\n"
      ∷ "      <div><h3>"
      ∷ escape_html explanation.label
      ∷ "</h3><p>"
      ∷ escape_html explanation.narrative
      ∷ "</p></div>\n"
      ∷ "      <strong>"
      ∷ number_text js explanation.score
      ∷ "<small>/100</small></strong>\n"
      ∷ "    </div>\n"
      ∷ "    <table>\n"
      ∷ "      <thead><tr><th>문항</th><th>답변</th><th>점수</th><th>평가 영향</th></tr></thead>\n"
      ∷ "      <tbody>"
      ∷ each render_question_explanation explanation.answer_breakdown
      ∷ "</tbody>\n"
      ∷ "    </table>\n"
      ∷ "    <div class=\"findings\"><span>결과</span><ul>"
      ∷ each list_item explanation.findings
      ∷ "</ul></div>\n"
      ∷ "  </article>"
      ∷ [])
