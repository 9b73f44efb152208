-- ===== src/Tests/Rendering.antt =====
-- Pages of results with hostile texts, and a file of environment variables.
use agentguard_action_proxy.Common.{String, true, none, concat, ◌≡◌, refl, some, [], ◌∷◌}
use agentguard_action_proxy.Common.Dict.{Dict, lookup, insert}
use agentguard_action_proxy.Common.Lists.{length, take}
use agentguard_action_proxy.Assessment.Types.{
  financial_actions, green, yellow, red, days_30, AssessmentResult,
}
use agentguard_action_proxy.Pages.Html.{escape_html, split_paragraphs, replace_first}
use agentguard_action_proxy.Pages.Html.Markup.{picked, is_markup, markup, angles, HasPlainNumbers}
use agentguard_action_proxy.Pages.Dashboard.{render_maturity_label}
use agentguard_action_proxy.Pages.Dashboard.Document.{dashboard_main, assessment_dashboard_html}
use agentguard_action_proxy.Pages.Dashboard.Structure.{dashboard_structure}
use agentguard_action_proxy.Pages.Report.Document.{
  report_head, report_style, report_opening, report_body, result_parts,
  executive_assessment_summary_html,
}
use agentguard_action_proxy.Pages.Report.Received.{
  template, text_only, received_parts, received_report,
}
use agentguard_action_proxy.Pages.Parts.{status_class}
use agentguard_action_proxy.Pages.Report.Received.Typed.{HasLowerCase}
use agentguard_action_proxy.Pages.Report.Structure.{report_structure}
use agentguard_action_proxy.Pages.PolicyAssessment.{base}
use agentguard_action_proxy.GovernOps.Panel.{NumberFormats}
use agentguard_action_proxy.Js.Value.{obj, field, end, get, get_of}
use agentguard_action_proxy.Server.PageRoutes.{
  Files, page, unprocessable_body, type_error, summary, summary_result, reply_with_report,
  serve_page,
}
use agentguard_action_proxy.Server.PageRoutes.Summary.{body_with, summary-unescaped}
use agentguard_action_proxy.Server.Environment.{
  split_lines, strip_quotes, assignment, set_default, load_line, load_lines, load_local_env_file,
}
use agentguard_action_proxy.Server.Environment.Precedence.{or_else, file_value, load_precedence}
use agentguard_action_proxy.Tests.Toy.{toy}

escaped_tag :
    escape_html "<a href='x'>T&\"</a>" ≡ "&lt;a href=&#039;x&#039;&gt;T&amp;&quot;&lt;/a&gt;"
unfolding escape_html
escaped_tag = refl

paragraphs_of : split_paragraphs "a\n\nb\n\n\nc\n" ≡ "a" ∷ "b" ∷ "\nc\n" ∷ []
unfolding split_paragraphs
paragraphs_of = refl

label_of : render_maturity_label "Level 2 Developing" ≡ "2단계 개발 중"
unfolding render_maturity_label replace_first
label_of = refl

toy-HasPlainNumbers : HasPlainNumbers toy
unfolding picked is_markup
toy-HasPlainNumbers n = refl

-- A result with one risk, one alignment, one explanation and one group of actions, under one text.
abbrev result_with : String → AssessmentResult
result_with text = record base {
  executive_summary = text;
  domain_scores =
      record { domain = financial_actions; label = text; score = 40; max_score = 100 } ∷ [];
  priority_risks =
      record { domain = financial_actions; label = text; score = 40; description = text } ∷ [];
  standards_alignment =
      record {
        domain = financial_actions;
        label = text;
        score = 40;
        status = red;
        impact = text;
        summary = text;
        standards = [];
      }
      ∷ [];
  recommended_actions = record { label = days_30; actions = text ∷ [] } ∷ [];
}

abbrev hostile : AssessmentResult
hostile = result_with "\"></p><script>alert('x')</script>"

abbrev calm : AssessmentResult
calm = result_with "-"

dashboard_structure_example :
    (markup (dashboard_main toy hostile) ≡ markup (dashboard_main toy calm))
    × (angles (assessment_dashboard_html toy hostile) ≡ angles (assessment_dashboard_html toy calm))
unfolding length split_paragraphs
dashboard_structure_example = dashboard_structure toy toy-HasPlainNumbers hostile calm (record {
  paragraphs = refl;
  detail = refl;
  domains = refl;
  risks = refl;
  actions = refl;
  standards = refl;
  explanations = refl;
})

report_structure_example :
    markup (executive_assessment_summary_html toy "<today>" hostile)
    ≡ markup (executive_assessment_summary_html toy "" calm)
unfolding length take split_paragraphs
report_structure_example =
    report_structure toy toy-HasPlainNumbers "<today>" "" hostile calm
      (record { paragraphs = refl; risks = refl; actions = refl; standards = refl })

abbrev no_files : Files
no_files = record {
  cwd = "/";
  dirname = "/src";
  join_path = λ parts. concat parts;
  read_file = λ path. none;
}

abbrev toy_formats : NumberFormats toy
toy_formats = record { to_locale_string = λ n. "n"; is_integer = λ n. true; to_fixed_2 = λ n. "n" }

toy-HasLowerCase : HasLowerCase toy
unfolding status_class
toy-HasLowerCase green = refl
toy-HasLowerCase yellow = refl
toy-HasLowerCase red = refl

-- A total score that is a script.
abbrev script : String
script = "<script>alert('x')</script>"

summary-unescaped_example :
    serve_page toy no_files
      (λ s. s)
      toy_formats
      "today"
      (summary (some (body_with toy script calm)))
    ≡ page (
        concat (
          report_head
          ∷ report_style
          ∷ report_opening "today"
          ∷ script
          ∷ report_body (result_parts toy calm)
          ∷ []))
summary-unescaped_example =
    summary-unescaped toy no_files (λ s. s) toy_formats "today" toy-HasLowerCase calm script

-- A body that is no object with a result is refused, and an empty result is a TypeError.
bodies :
    (serve_page toy no_files (λ s. s) toy_formats "today" (summary none) ≡ unprocessable_body)
    × (serve_page toy no_files
          (λ s. s)
          toy_formats
          "today"
          (summary (some (obj (field "result" (obj end) end))))
        ≡ type_error)
unfolding serve_page summary_result reply_with_report received_report received_parts template
    text_only get get_of
bodies = (refl, refl)

abbrev env_file : String
env_file = "# keys\r\nPORT=80\nPORT=81\n\nHOST=localhost\n"

abbrev env : Dict String
env = ("HOST", "0.0.0.0") ∷ []

loaded : load_local_env_file toy (some env_file) env ≡ ("HOST", "0.0.0.0") ∷ ("PORT", "80") ∷ []
unfolding split_lines strip_quotes assignment set_default load_line load_lines load_local_env_file
    lookup insert
loaded = refl

unquoted : strip_quotes "'localhost'" ≡ "localhost"
unfolding strip_quotes
unquoted = refl

load_precedence_example :
    lookup "PORT" (load_local_env_file toy (some env_file) env)
    ≡ or_else (lookup "PORT" env) (file_value toy "PORT" (some env_file))
load_precedence_example = load_precedence toy "PORT" (some env_file) env
