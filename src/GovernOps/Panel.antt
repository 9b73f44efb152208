-- ===== src/GovernOps/Panel.antt =====
-- ts-agentguard/src/demo/governops-preview-panel.ts.
use agentguard_action_proxy.Common.{
  String, Bool, ◌&&◌, ◌||◌, ◌==◌, false, [], ◌∷◌, if◌then◌else◌, concat, join,
}
use agentguard_action_proxy.Js.{Js}
use agentguard_action_proxy.GovernOps.{
  RuntimeContext, GovernOpsPreview, create_govern_ops_preview, enforcement_text, token_status_text,
}
use agentguard_action_proxy.Pages.Html.{is_char}

-- `n.toLocaleString("en-US")`, `Number.isInteger(n)` and `n.toFixed(2)`.
pub record NumberFormats (js : Js) : Type 0 where
  pub to_locale_string : js.Number → String
  pub is_integer : js.Number → Bool
  pub to_fixed_2 : js.Number → String

-- A text of zeros, at least one.
unfoldable are_zeros : String → Bool
unfolding is_char
are_zeros String.[] = false
are_zeros (String.◌∷◌ c s) = let more = are_zeros s in is_char b'0' c && (s == "" || more)

-- `text.replace(/\.?0+$/, "")`: what is in front of the first place from which on there are only
-- zeros, or a point and zeros.
unfoldable strip_zeros : String → String
unfolding is_char are_zeros
strip_zeros String.[] = ""
strip_zeros (String.◌∷◌ c s) =
    let rest = strip_zeros s in
    if (is_char b'.' c && are_zeros s) || are_zeros (String.◌∷◌ c s) then "" else String.◌∷◌ c rest

unfoldable render_row : String → String → String
render_row label value = concat (
    "<div class=\"item\"><div class=\"label\">" ∷ label ∷ "</div><div class=\"value\">" ∷ value
    ∷ "</div></div>" ∷ [])

unfoldable render_decision_badge : String → String
render_decision_badge decision =
    let decision_class = if decision == "BLOCK" then "BLOCKED" else decision in
    concat ("<span class=\"decision " ∷ decision_class ∷ "\">" ∷ decision ∷ "</span>" ∷ [])

module _ {js : Js} (formats : NumberFormats js) where
  unfoldable format_krw : js.Number → String
  format_krw amount = concat (formats.to_locale_string amount ∷ " KRW" ∷ [])

  unfoldable format_multiplier : js.Number → String
  unfolding strip_zeros
  format_multiplier multiplier =
      if formats.is_integer multiplier
      then js.text_of_number multiplier
      else strip_zeros (formats.to_fixed_2 multiplier)

  unfoldable render_runtime_context_summary : RuntimeContext js → String
  unfolding format_multiplier
  render_runtime_context_summary c = concat (
      "GovernOps detected that the AI Agent attempted to execute an action "
      ∷ format_multiplier (js.div c.agent_decision_amount c.user_request_amount)
      ∷ "x larger than the original user request."
      ∷ [])

  unfoldable render_govern_ops_preview_panel_html : GovernOpsPreview js → String
  unfolding render_row render_decision_badge format_krw render_runtime_context_summary
  render_govern_ops_preview_panel_html p = concat (
      "<div class=\"kv\">"
      ∷ render_row "User Request" (format_krw p.runtime_context.user_request_amount)
      ∷ render_row "Agent Decision" (format_krw p.runtime_context.agent_decision_amount)
      ∷ render_row "Deviation"
          (concat (js.text_of_number p.runtime_context.deviation_percent ∷ "%" ∷ []))
      ∷ "</div>"
      ∷ "<div class=\"flow-arrow\">↓</div>"
      ∷ "<div class=\"kv\">"
      ∷ render_row "AGAF Policy" (join ", " p.runtime_policy.source_question_ids)
      ∷ render_row "Decision Record" p.decision_record.decision_id
      ∷ "</div>"
      ∷ "<div class=\"flow-arrow\">↓</div>"
      ∷ "<div class=\"kv\">"
      ∷ render_row "Harness Result"
          (render_decision_badge (enforcement_text p.harness_result.enforcement_action))
      ∷ render_row "Token Status" (token_status_text p.harness_result.token_status)
      ∷ render_row "Execution" p.decision_record.execution_result
      ∷ "</div>"
      ∷ concat
          ("<p class=\"note\">" ∷ render_runtime_context_summary p.runtime_context ∷ "</p>" ∷ [])
      ∷ "<p class=\"note\"><b>No Decision Record → No Token → No Execution</b></p>"
      ∷ [])

  -- The panel of the default preview.
  unfoldable pub kgld_govern_ops_preview_html : String
  unfolding render_govern_ops_preview_panel_html create_govern_ops_preview
  kgld_govern_ops_preview_html = render_govern_ops_preview_panel_html (create_govern_ops_preview js)
