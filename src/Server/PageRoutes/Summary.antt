-- ===== src/Server/PageRoutes/Summary.antt =====
-- The route `/summary`, whose report is filled with what the client sent.
use agentguard_action_proxy.Common.{String, ◌≡◌, refl, some, [], ◌∷◌, concat}
use agentguard_action_proxy.Js.{Js}
use agentguard_action_proxy.Js.Value.{Value, str, obj, Fields, field, end, get}
use agentguard_action_proxy.GovernOps.Panel.{NumberFormats}
use agentguard_action_proxy.Assessment.Types.{AssessmentResult}
use agentguard_action_proxy.Pages.ResultJson.{result_value}
use agentguard_action_proxy.Pages.Report.Document.{
  report_head, report_style, report_opening, report_body, result_parts, report_html,
}
use agentguard_action_proxy.Pages.Report.Received.{received_report}
use agentguard_action_proxy.Pages.Report.Received.Typed.{
  HasLowerCase, with_total, received_parts-with_total,
}
use agentguard_action_proxy.Server.PageRoutes.{
  Files, page, summary, summary_result, reply_with_report, validate_body, serve_page,
}

module _ (js : Js) where
  -- The body whose property `result` is a result of the assessment with a text as its total score.
  abbrev pub body_with : String → AssessmentResult → Value js
  body_with text r = obj (field "result" (with_total (str text) (result_value r)) end)

  module _ (files : Files) (encode_uri_component : String → String) (formats : NumberFormats js)
      (date : String) where
    answered :
        (result : Fields js) (text : String)
        → received_report date (obj result) ≡ some text
        → serve_page js files encode_uri_component formats date
            (summary (some (obj (field "result" (obj result) end))))
          ≡ page text
    unfolding serve_page validate_body summary_result reply_with_report get
    answered result text e = rw (e, reply_with_report) refl

    received_report-with_total :
        HasLowerCase js
        → (r : AssessmentResult) (text : String)
        → received_report date (with_total (str text) (result_value {js = js} r))
          ≡ some (
              concat (
                report_head
                ∷ report_style
                ∷ report_opening date
                ∷ text
                ∷ report_body (result_parts js r)
                ∷ []))
    unfolding received_report report_html report_body
    received_report-with_total lower r text = rw (received_parts-with_total js lower r text) refl

    -- A client that sends a result of the assessment with any text as the total score gets the report
    -- of that result, in which the text stands as it is, between the opening of the document and the
    -- rest of it: markup in the text is markup of the page. `toLowerCase` must make GREEN, YELLOW and
    -- RED into green, yellow and red.
    pub summary-unescaped :
        HasLowerCase js
        → (r : AssessmentResult) (text : String)
        → serve_page js files encode_uri_component formats date (summary (some (body_with text r)))
          ≡ page (
              concat (
                report_head
                ∷ report_style
                ∷ report_opening date
                ∷ text
                ∷ report_body (result_parts js r)
                ∷ []))
    unfolding result_value
    summary-unescaped lower r text = answered _ _ (received_report-with_total lower r text)
