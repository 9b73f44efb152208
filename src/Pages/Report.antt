-- ===== src/Pages/Report.antt =====
-- ts-agentguard/src/assessment/executive-report.ts: the parts of the executive report.
pub mod Document
pub mod Structure
pub mod Received
use agentguard_action_proxy.Common.{ℕ, suc, String, List, [], ◌∷◌, concat}
use agentguard_action_proxy.Common.Lists.{take}
use agentguard_action_proxy.Js.{Js}
use agentguard_action_proxy.Assessment.Types.{
  StandardsAlignment, PriorityRisk, RecommendedActionGroup,
}
use agentguard_action_proxy.Pages.Html.{escape_html, each, each_indexed}
use agentguard_action_proxy.Pages.Parts.{list_item, render_alignment_status, status_class}
use agentguard_action_proxy.Pages.Texts.{number_text, horizon_text}

-- The parts as templates over the texts that they are filled with, and over the markup of the actions.
unfoldable pub roadmap_html : String → String → String
roadmap_html label actions = concat (
    "<article class=\"roadmap-card\">\n"
    ∷ "    <h3>"
    ∷ escape_html label
    ∷ "</h3>\n"
    ∷ "    <ul>"
    ∷ actions
    ∷ "</ul>\n"
    ∷ "  </article>"
    ∷ [])

unfoldable pub risk_html : String → String → String → String → String
risk_html index label score description = concat (
    "<li>\n"
    ∷ "    <div class=\"item-index\">"
    ∷ index
    ∷ "</div>\n"
    ∷ "    <div><strong>"
    ∷ escape_html label
    ∷ "</strong><span>"
    ∷ score
    ∷ "%</span><p>"
    ∷ escape_html description
    ∷ "</p></div>\n"
    ∷ "  </li>"
    ∷ [])

unfoldable pub alignment_html : String → String → String → String → String → String
alignment_html class label summary score status = concat (
    "<article class=\"standard-card status-"
    ∷ class
    ∷ "\">\n"
    ∷ "    <div><h3>"
    ∷ escape_html label
    ∷ "</h3><p>"
    ∷ escape_html summary
    ∷ "</p></div>\n"
    ∷ "    <div class=\"standard-score\"><strong>"
    ∷ score
    ∷ "</strong><span>"
    ∷ escape_html status
    ∷ "</span></div>\n"
    ∷ "  </article>"
    ∷ [])

abbrev pub no_risks_html : String
no_risks_html = "<p class=\"empty-state\">중대한 우선 관리 위험이 확인되지 않았습니다.</p>"

abbrev pub risk_list_html : String → String
risk_list_html risks = concat ("<ol class=\"risk-list\">" ∷ risks ∷ "</ol>" ∷ [])

-- The parts of a result of the assessment.
unfoldable pub render_roadmap : RecommendedActionGroup → String
render_roadmap group = roadmap_html (horizon_text group.label) (each list_item group.actions)

module _ (js : Js) where
  unfoldable pub render_risk : ℕ → PriorityRisk → String
  render_risk index risk =
      risk_html (number_text js (suc index)) risk.label (number_text js risk.score) risk.description

  unfoldable pub render_top_risks : List PriorityRisk → String
  render_top_risks [] = no_risks_html
  render_top_risks (risk ∷ risks) =
      risk_list_html (each_indexed render_risk 0 (take 3 (risk ∷ risks)))

  unfoldable pub render_standards_alignment : StandardsAlignment → String
  render_standards_alignment item =
      alignment_html (status_class item.status) item.label item.summary (number_text js item.score)
        (render_alignment_status item.status)
