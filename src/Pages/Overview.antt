-- ===== src/Pages/Overview.antt =====
-- ts-agentguard/src/assessment/assessment-html.ts: the first page of the assessment, on the answers of the
-- demo. No route sends it.
use agentguard_action_proxy.Common.{String, [], ◌∷◌, concat}
use agentguard_action_proxy.Js.{Js}
use agentguard_action_proxy.Assessment.Types.{Question, DomainScore, AssessmentResult, domain_text}
use agentguard_action_proxy.Assessment.Questions.{assessment_questions}
use agentguard_action_proxy.Assessment.Summary.{demo_assessment_answers, evaluate_assessment}
use agentguard_action_proxy.Assessment.Roadmap.{top_risks_for, recommendations_for}
use agentguard_action_proxy.Pages.Html.{escape_html, each}
use agentguard_action_proxy.Pages.Parts.{list_item}
use agentguard_action_proxy.Pages.Texts.{number_text, assessment_risk_text}

unfoldable overview_head : String
overview_head = concat (
    "<!doctype html>\n" ∷ "<html lang=\"ko\">\n" ∷ "<head>\n" ∷ "  <meta charset=\"utf-8\" />\n"
    ∷ "  <meta name=\"viewport\" content=\"width=device-width, initial-scale=1\" />\n"
    ∷ "  <title>OpenEntry AI Risk Assessment</title>\n" ∷ [])

unfoldable overview_style : String
overview_style = concat (
    "  <style>\n"
    ∷ "    :root { color-scheme: dark; --bg: #07111f; --panel: #101c2d; --line: #26364d; --text: #eef5ff; --muted: #a9bad3; --accent: #62d5ff; --warn: #ffbd59; }\n"
    ∷ "    * { box-sizing: border-box; }\n"
    ∷ "    button, input, textarea, select { font-family: inherit; }\n"
    ∷ "    body { margin: 0; font-family: Helvetica, \"Helvetica Neue\", Arial, \"Apple SD Gothic Neo\", \"Noto Sans KR\", sans-serif; background: radial-gradient(circle at top left, #15375c 0, var(--bg) 36rem); color: var(--text); }\n"
    ∷ "    main { max-width: 1180px; margin: 0 auto; padding: 44px 22px 56px; }\n"
    ∷ "    .hero { display: grid; gap: 18px; margin-bottom: 28px; }\n"
    ∷ "    .eyebrow { color: var(--accent); font-weight: 700; letter-spacing: .12em; text-transform: uppercase; }\n"
    ∷ "    h1 { margin: 0; font-size: clamp(2rem, 5vw, 4.5rem); line-height: .95; }\n"
    ∷ "    h2 { margin: 0 0 14px; font-size: 1.25rem; }\n"
    ∷ "    p { color: var(--muted); line-height: 1.65; margin: 0; }\n"
    ∷ "    .grid { display: grid; grid-template-columns: repeat(12, 1fr); gap: 18px; }\n"
    ∷ "    .card { grid-column: span 4; background: rgba(16, 28, 45, .88); border: 1px solid var(--line); border-radius: 22px; padding: 22px; box-shadow: 0 20px 55px rgba(0,0,0,.22); }\n"
    ∷ "    .wide { grid-column: span 8; } .full { grid-column: 1 / -1; }\n"
    ∷ "    .metric { font-size: 2.5rem; font-weight: 600; margin-top: 10px; }\n"
    ∷ "    .label { color: var(--muted); font-size: .95rem; }\n"
    ∷ "    .badge { display: inline-flex; padding: 8px 12px; border-radius: 999px; background: rgba(255,189,89,.16); color: var(--warn); font-weight: 700; }\n"
    ∷ "    .domains { display: grid; gap: 12px; }\n"
    ∷ "    .domain-row { display: grid; grid-template-columns: 180px 1fr 70px; gap: 14px; align-items: center; }\n"
    ∷ "    .bar { height: 12px; overflow: hidden; border-radius: 999px; background: #24344b; }\n"
    ∷ "    .bar > span { display: block; height: 100%; border-radius: inherit; background: linear-gradient(90deg, #62d5ff, #8fffcc); }\n"
    ∷ "    ol, ul { margin: 0; padding-left: 22px; color: var(--muted); line-height: 1.8; }\n"
    ∷ "    .questions { columns: 2; column-gap: 34px; }\n"
    ∷ "    .question { break-inside: avoid; margin: 0 0 10px; color: var(--muted); }\n"
    ∷ "    .funnel { display: flex; flex-wrap: wrap; gap: 10px; align-items: center; }\n"
    ∷ "    .step { padding: 12px 16px; border-radius: 16px; border: 1px solid var(--line); background: #0c1727; font-weight: 700; }\n"
    ∷ "    .arrow { color: var(--accent); font-size: 1.4rem; }\n"
    ∷ "    @media (max-width: 860px) { .card, .wide { grid-column: 1 / -1; } .domain-row { grid-template-columns: 1fr; } .questions { columns: 1; } }\n"
    ∷ "  </style>\n" ∷ [])

unfoldable question_line : Question → String
question_line question = concat (
    "<p class=\"question\"><strong>"
    ∷ escape_html (domain_text question.domain)
    ∷ ":</strong> "
    ∷ escape_html question.title
    ∷ "</p>"
    ∷ [])

module _ (js : Js) where
  unfoldable domain_bar : DomainScore → String
  domain_bar score = concat (
      "<div class=\"domain-row\"><strong>"
      ∷ escape_html score.label
      ∷ "</strong><div class=\"bar\" aria-label=\""
      ∷ escape_html score.label
      ∷ " "
      ∷ number_text js score.score
      ∷ " of "
      ∷ number_text js score.max_score
      ∷ "\"><span style=\"width: "
      ∷ js.text_of_number
          (js.mul (js.div (js.number score.score) (js.number score.max_score)) (js.number 100))
      ∷ "%\"></span></div><span>"
      ∷ number_text js score.score
      ∷ "/"
      ∷ number_text js score.max_score
      ∷ "</span></div>"
      ∷ [])

  -- The document behind its style sheet.
  unfoldable overview_main : AssessmentResult → String
  overview_main result = concat (
      "</head>\n"
      ∷ "<body>\n"
      ∷ "  <main>\n"
      ∷ "    <section class=\"hero\">\n"
      ∷ "      <div class=\"eyebrow\">OpenEntry AI Risk Assessment</div>\n"
      ∷ "      <h1>AI Governance Readiness Dashboard</h1>\n"
      ∷ "      <p>Most companies are adopting AI faster than they can govern it. OpenEntry helps organizations assess AI risk, design governance controls, and prepare runtime enforcement through AgentGuard.</p>\n"
      ∷ "      <p>기업은 AI를 도입하는 속도보다 AI를 통제하는 속도가 느립니다. OpenEntry는 AI 리스크를 진단하고, 거버넌스 통제 체계를 설계하며, 향후 AgentGuard를 통해 실행 단계 통제까지 연결합니다.</p>\n"
      ∷ "    </section>\n"
      ∷ "\n"
      ∷ "    <section class=\"grid\">\n"
      ∷ "      <article class=\"card\"><div class=\"label\">Total Score</div><div class=\"metric\">"
      ∷ number_text js result.total_score
      ∷ " / "
      ∷ number_text js result.max_score
      ∷ "</div></article>\n"
      ∷ "      <article class=\"card\"><div class=\"label\">Risk Level</div><div class=\"metric\"><span class=\"badge\">"
      ∷ escape_html (assessment_risk_text result.risk_level)
      ∷ "</span></div></article>\n"
      ∷ "      <article class=\"card\"><div class=\"label\">Maturity Level</div><div class=\"metric\">"
      ∷ escape_html result.maturity_level.display_name
      ∷ "</div></article>\n"
      ∷ "\n"
      ∷ "      <article class=\"card wide\">\n"
      ∷ "        <h2>Domain Scores</h2>\n"
      ∷ "        <div class=\"domains\">\n"
      ∷ "          "
      ∷ each domain_bar result.domain_scores
      ∷ "\n"
      ∷ "        </div>\n"
      ∷ "      </article>\n"
      ∷ "\n"
      ∷ "      <article class=\"card\">\n"
      ∷ "        <h2>Top Risks</h2>\n"
      ∷ "        <ol>"
      ∷ each list_item (top_risks_for result)
      ∷ "</ol>\n"
      ∷ "      </article>\n"
      ∷ "\n"
      ∷ "      <article class=\"card full\">\n"
      ∷ "        <h2>Recommendations</h2>\n"
      ∷ "        <ol>"
      ∷ each list_item (recommendations_for result)
      ∷ "</ol>\n"
      ∷ "      </article>\n"
      ∷ "\n"
      ∷ "      <article class=\"card full\">\n"
      ∷ "        <h2>Assessment Questionnaire</h2>\n"
      ∷ "        <div class=\"questions\">"
      ∷ each question_line assessment_questions
      ∷ "</div>\n"
      ∷ "      </article>\n"
      ∷ "\n"
      ∷ "      <article class=\"card full\">\n"
      ∷ "        <h2>OpenEntry Governance Funnel</h2>\n"
      ∷ "        <div class=\"funnel\"><span class=\"step\">Assessment</span><span class=\"arrow\">→</span><span class=\"step\">Governance Design</span><span class=\"arrow\">→</span><span class=\"step\">Policy Library</span><span class=\"arrow\">→</span><span class=\"step\">AgentGuard Runtime Control</span></div>\n"
      ∷ "      </article>\n"
      ∷ "    </section>\n"
      ∷ "  </main>\n"
      ∷ "</body>\n"
      ∷ "</html>"
      ∷ [])

  unfoldable assessment_html : String
  unfolding overview_head overview_style overview_main
  assessment_html = concat (
      overview_head
      ∷ overview_style
      ∷ overview_main (evaluate_assessment js demo_assessment_answers)
      ∷ [])
