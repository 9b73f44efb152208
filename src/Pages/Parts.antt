-- ===== src/Pages/Parts.antt =====
-- Parts of pages that several files of ts-agentguard/src/assessment declare alike.
pub mod Structure
use agentguard_action_proxy.Common.{String, List, [], ◌∷◌, ◌==◌, if◌then◌else◌, concat}
use agentguard_action_proxy.Assessment.Types.{StandardsAlignmentStatus, green, yellow, red}
use agentguard_action_proxy.Pages.Html.{escape_html, each, split_paragraphs}

unfoldable pub paragraph : String → String
paragraph text = concat ("<p>" ∷ escape_html text ∷ "</p>" ∷ [])

unfoldable pub list_item : String → String
list_item text = concat ("<li>" ∷ escape_html text ∷ "</li>" ∷ [])

unfoldable pub render_summary_text : String → String
render_summary_text summary = each paragraph (split_paragraphs summary)

-- `detail ? ... : ""`
unfoldable pub render_detail : String → String
render_detail detail = if detail == "" then "" else paragraph detail

unfoldable pub render_metric : String → String → String → String
render_metric label value detail = concat (
    "<article class=\"metric-card\"><span>"
    ∷ escape_html label
    ∷ "</span><strong>"
    ∷ escape_html value
    ∷ "</strong>"
    ∷ render_detail detail
    ∷ "</article>"
    ∷ [])

unfoldable pub render_alignment_status : StandardsAlignmentStatus → String
render_alignment_status green = "Green"
render_alignment_status yellow = "Yellow"
render_alignment_status red = "Red"

-- `status.toLowerCase()`
unfoldable pub status_class : StandardsAlignmentStatus → String
status_class green = "green"
status_class yellow = "yellow"
status_class red = "red"
