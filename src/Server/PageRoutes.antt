-- ===== src/Server/PageRoutes.antt =====
-- ts-agentguard/src/server.ts: the routes that answer with a page. They neither read nor change the
-- state of the server.
pub mod Summary
use agentguard_action_proxy.Common.{String, List, [], ◌∷◌, Option, none, some, is_some}
use agentguard_action_proxy.Common.Lists.{find_first}
use agentguard_action_proxy.Js.{Js}
use agentguard_action_proxy.Js.Value.{Value, arr, obj, get}
use agentguard_action_proxy.GovernOps.Panel.{NumberFormats, kgld_govern_ops_preview_html}
use agentguard_action_proxy.Assessment.Types.{AssessmentAnswer}
use agentguard_action_proxy.Assessment.Summary.{demo_assessment_answers, evaluate_assessment}
use agentguard_action_proxy.Pages.Landing.{assessment_landing_html}
use agentguard_action_proxy.Pages.Questionnaire.Document.{assessment_questionnaire_html}
use agentguard_action_proxy.Pages.Dashboard.Document.{assessment_dashboard_html}
use agentguard_action_proxy.Pages.Report.Document.{executive_assessment_summary_html}
use agentguard_action_proxy.Pages.Report.Received.{received_report}
use agentguard_action_proxy.Pages.PolicyAssessment.{bank_file, get_policy_assessment_result}
use agentguard_action_proxy.Pages.PolicyAssessment.Document.{
  policy_assessment_dashboard_html, policy_assessment_report_html,
}

pub data PageReply : Type 0 where
  page : String → PageReply
  -- Status 422.
  unprocessable_body : PageReply
  -- An exception, which Fastify answers with status 500: an error that the source throws with this
  -- text, or a TypeError.
  failed : String → PageReply
  type_error : PageReply

-- The requests for pages; a body or a query that its schema refuses is `none`. The body of `/summary`
-- is the JSON value that the client sent, if any.
pub data PageRequest (js : Js) : Type 0 where
  kgld_demo governops_preview_panel demo assessment_demo assessment_start report : PageRequest js
  executive_summary : PageRequest js
  assessment_policy : Option (Option String) → PageRequest js
  assessment_dashboard assessment_report : Option (List AssessmentAnswer) → PageRequest js
  summary : Option (Value js) → PageRequest js
  policy_report : Option String → PageRequest js

-- `validateBody`, and the handler behind it.
unfoldable validate_body {ℓ} : {A : Type ℓ} → Option A → (A → PageReply) → PageReply
validate_body none handler = unprocessable_body
validate_body (some body) handler = handler body

module _ {js : Js} where
  -- `AssessmentSummaryBodySchema`: an object whose property `result` is any object or array.
  unfoldable pub summary_result : Option (Value js) → Option (Value js)
  summary_result (some (obj body)) = elim (get "result" body) [
    | some (obj result) ↦ some (obj result)
    | some (arr result) ↦ some (arr result)
    | _ ↦ none
  ]
  summary_result _ = none

  unfoldable pub reply_with_report : String → Value js → PageReply
  reply_with_report date result = elim (received_report date result) [
    | none ↦ type_error
    | some text ↦ page text
  ]

-- `process.cwd()`, `__dirname`, `path.join` and the files that exist, with their text.
pub record Files : Type 0 where
  pub cwd : String
  pub dirname : String
  pub join_path : List String → String
  pub read_file : String → Option String

module _ (files : Files) where
  -- The first of the three places of a file that exists.
  unfoldable pub candidates : String → List String
  candidates name =
      files.join_path (files.cwd ∷ "ts-agentguard" ∷ "src" ∷ "demo" ∷ name ∷ [])
      ∷ files.join_path (files.cwd ∷ "src" ∷ "demo" ∷ name ∷ [])
      ∷ files.join_path (files.dirname ∷ "demo" ∷ name ∷ [])
      ∷ []

  unfoldable read_candidate : String → List String → PageReply
  read_candidate error paths = elim (find_first (λ path. is_some (files.read_file path)) paths) [
    | none ↦ failed error
    | some path ↦ elim (files.read_file path) [ none ↦ failed error | some text ↦ page text ]
  ]

  unfoldable demo_html : PageReply
  demo_html = read_candidate "demo_html_not_found" (candidates "demo.html")

  unfoldable kgld_demo_html : PageReply
  kgld_demo_html = read_candidate "kgld_demo_html_not_found" (candidates "kgld-vault-demo.html")

module _ (js : Js) (files : Files) (encode_uri_component : String → String)
    (formats : NumberFormats js) (date : String) where
  -- The reply to a request on the day with this date.
  unfoldable pub serve_page : PageRequest js → PageReply
  unfolding kgld_demo_html demo_html read_candidate validate_body
  serve_page kgld_demo = kgld_demo_html files
  serve_page governops_preview_panel = page (kgld_govern_ops_preview_html formats)
  serve_page demo = demo_html files
  serve_page assessment_demo = page assessment_landing_html
  serve_page assessment_start = page (assessment_questionnaire_html js)
  serve_page report =
      page
        (executive_assessment_summary_html js date (evaluate_assessment js demo_assessment_answers))
  serve_page executive_summary =
      page
        (executive_assessment_summary_html js date (evaluate_assessment js demo_assessment_answers))
  serve_page (assessment_policy none) = failed "invalid_query"
  serve_page (assessment_policy (some none)) =
      page (policy_assessment_dashboard_html js (get_policy_assessment_result bank_file))
  serve_page (assessment_policy (some (some source))) =
      page (policy_assessment_dashboard_html js (get_policy_assessment_result source))
  serve_page (assessment_dashboard body) =
      validate_body body
        (λ answers. page (assessment_dashboard_html js (evaluate_assessment js answers)))
  serve_page (assessment_report body) =
      validate_body body (λ answers.
        page (executive_assessment_summary_html js date (evaluate_assessment js answers)))
  serve_page (summary body) = validate_body (summary_result body) (reply_with_report date)
  serve_page (policy_report body) = validate_body body (λ source. page (
      policy_assessment_report_html js encode_uri_component date
        (get_policy_assessment_result source)))

-- The status in the answer to `GET /health`.
abbrev health_status : String
health_status = "ok"
