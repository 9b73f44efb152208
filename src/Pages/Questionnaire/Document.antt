-- ===== src/Pages/Questionnaire/Document.antt =====
-- ts-agentguard/src/assessment/pages/questionnaire.ts: the questionnaire as a document.
use agentguard_action_proxy.Common.{String, [], ◌∷◌, map, concat}
use agentguard_action_proxy.Js.{Js}
use agentguard_action_proxy.Js.Value.{arr, texts}
use agentguard_action_proxy.Js.Json.{json_stringify}
use agentguard_action_proxy.Assessment.Questions.{assessment_questions}
use agentguard_action_proxy.Pages.Html.{each_indexed}
use agentguard_action_proxy.Pages.Questionnaire.{render_question}

unfoldable pub questionnaire_head : String
questionnaire_head = concat (
    "<!doctype html>\n" ∷ "<html lang=\"ko\">\n" ∷ "<head>\n" ∷ "  <meta charset=\"utf-8\" />\n"
    ∷ "  <meta name=\"viewport\" content=\"width=device-width, initial-scale=1\" />\n"
    ∷ "  <title>AGAF Assessment MVP v0.1</title>\n" ∷ [])

unfoldable pub questionnaire_style : String
questionnaire_style = concat (
    "  <style>\n"
    ∷ "    :root { color-scheme: dark; --bg: #07111f; --card: #0f1c2e; --panel: #0b1728; --border: #223555; --text: #eaf2ff; --muted: #b8c7dc; --accent: #66d9ef; --button: #2f80ed; --success: #8fffcc; --warn: #ffbd59; }\n"
    ∷ "    * { box-sizing: border-box; }\n"
    ∷ "    button, input, textarea, select { font-family: inherit; }\n"
    ∷ "    body { margin: 0; min-height: 100vh; font-family: Helvetica, \"Helvetica Neue\", Arial, \"Apple SD Gothic Neo\", \"Noto Sans KR\", sans-serif; background: radial-gradient(circle at top left, #12345a 0, var(--bg) 34rem); color: var(--text); }\n"
    ∷ "    main { width: min(980px, calc(100% - 40px)); margin: 0 auto; padding: 72px 0; }\n"
    ∷ "    .card { border: 1px solid var(--border); border-radius: 28px; background: rgba(15, 28, 46, .92); box-shadow: 0 26px 70px rgba(0, 0, 0, .32); padding: clamp(28px, 5vw, 52px); }\n"
    ∷ "    h1 { font-size: clamp(2rem, 6vw, 4rem); line-height: 1; margin: 0 0 18px; }\n"
    ∷ "    p { color: var(--muted); font-size: 1.08rem; line-height: 1.7; }\n"
    ∷ "    .intro { margin-bottom: 34px; }\n" ∷ "    .questions { display: grid; gap: 18px; }\n"
    ∷ "    .section-kicker { margin-bottom: 8px; color: var(--accent); font-weight: 700; letter-spacing: .14em; text-transform: uppercase; }\n"
    ∷ "    h2 { margin: 0 0 10px; }\n"
    ∷ "    .question-card { margin: 0; padding: 22px; border: 1px solid var(--border); border-radius: 20px; background: rgba(11, 23, 40, .72); }\n"
    ∷ "    legend { display: flex; flex-wrap: wrap; gap: 10px 14px; align-items: center; padding: 0 8px; font-weight: 600; }\n"
    ∷ "    .domain { color: var(--accent); }\n"
    ∷ "    .question-number { color: var(--muted); font-size: .92rem; }\n"
    ∷ "    .question-title { margin: 16px 0 18px; color: var(--text); font-weight: 600; }\n"
    ∷ "    .answers { display: grid; grid-template-columns: repeat(4, minmax(120px, 1fr)); gap: 10px; }\n"
    ∷ "    .answer-option { display: grid; grid-template-columns: auto 1fr; gap: 8px; align-items: center; min-height: 48px; padding: 10px 12px; border: 1px solid var(--border); border-radius: 14px; background: var(--panel); color: var(--muted); cursor: pointer; }\n"
    ∷ "    .answer-option:focus-within, .answer-option:hover { border-color: var(--accent); color: var(--text); }\n"
    ∷ "    input { accent-color: var(--accent); }\n"
    ∷ "    .actions { display: flex; flex-wrap: wrap; gap: 14px; align-items: center; justify-content: space-between; margin-top: 30px; }\n"
    ∷ "    button, a { display: inline-flex; align-items: center; min-height: 46px; border-radius: 14px; font-weight: 600; padding: 0 20px; text-decoration: none; }\n"
    ∷ "    button { border: 0; background: var(--button); color: white; cursor: pointer; }\n"
    ∷ "    button:focus, button:hover { background: #1f6fd6; }\n"
    ∷ "    a { border: 1px solid var(--border); color: var(--text); }\n"
    ∷ "    a:focus, a:hover { border-color: var(--accent); }\n"
    ∷ "    .form-message { min-height: 28px; margin: 18px 0 0; color: var(--warn); font-weight: 600; }\n"
    ∷ "    @media (max-width: 840px) { .answers { grid-template-columns: 1fr; } }\n"
    ∷ "  </style>\n" ∷ [])

module _ (js : Js) where
  unfoldable pub questionnaire_form : String
  questionnaire_form = concat (
      "</head>\n"
      ∷ "<body>\n"
      ∷ "  <main>\n"
      ∷ "    <section class=\"card\" aria-labelledby=\"questionnaire-title\">\n"
      ∷ "      <h1 id=\"questionnaire-title\">AGAF Assessment MVP v0.1</h1>\n"
      ∷ "      <p class=\"intro\">25개 질문에 답변하면 Executive Dashboard에서 점수, 위험 수준, 영역별 현황, 권장 실행 계획을 확인할 수 있습니다.</p>\n"
      ∷ "      <form id=\"assessment-form\">\n"
      ∷ "        <div class=\"questions\">"
      ∷ each_indexed (render_question js) 0 assessment_questions
      ∷ "</div>\n"
      ∷ "        <div class=\"actions\">\n"
      ∷ "          <a href=\"/demo/assessment\">Back to Landing</a>\n"
      ∷ "          <button type=\"submit\" name=\"view\" value=\"dashboard\">Generate Dashboard</button>\n"
      ∷ "          <button type=\"submit\" name=\"view\" value=\"report\">Executive Summary</button>\n"
      ∷ "        </div>\n"
      ∷ "      </form>\n"
      ∷ "      <p id=\"form-message\" class=\"form-message\" role=\"status\" aria-live=\"polite\"></p>\n"
      ∷ "    </section>\n"
      ∷ "  </main>\n"
      ∷ [])

  unfoldable pub questionnaire_script : String
  questionnaire_script = concat (
      "  <script>\n"
      ∷ "    const questionIds = "
      ∷ json_stringify {js = js} (arr (texts (map (λ question. question.id) assessment_questions)))
      ∷ ";\n"
      ∷ "\n"
      ∷ "    document.getElementById(\"assessment-form\").addEventListener(\"submit\", async (event) => {\n"
      ∷ "      event.preventDefault();\n"
      ∷ "      const form = event.currentTarget;\n"
      ∷ "      const formData = new FormData(form);\n"
      ∷ "      const message = document.getElementById(\"form-message\");\n"
      ∷ "      const missingCount = questionIds.filter((id) => !formData.has(id)).length;\n"
      ∷ "\n"
      ∷ "      if (missingCount > 0) {\n"
      ∷ "        message.textContent = \"모든 25개 질문에 답변한 뒤 Dashboard를 생성할 수 있습니다. 남은 문항: \" + missingCount;\n"
      ∷ "        return;\n"
      ∷ "      }\n"
      ∷ "\n"
      ∷ "      const answers = questionIds.map((questionId) => ({ questionId, value: Number(formData.get(questionId)) }));\n"
      ∷ "      const submitter = event.submitter;\n"
      ∷ "      const reportRequested = submitter instanceof HTMLButtonElement && submitter.value === \"report\";\n"
      ∷ "      message.textContent = reportRequested ? \"Executive Summary 생성 중...\" : \"Dashboard 생성 중...\";\n"
      ∷ "\n"
      ∷ "      const response = await fetch(reportRequested ? \"/assessment/report\" : \"/assessment/dashboard\", {\n"
      ∷ "        method: \"POST\",\n"
      ∷ "        headers: { \"Content-Type\": \"application/json\" },\n"
      ∷ "        body: JSON.stringify({ answers }),\n"
      ∷ "      });\n"
      ∷ "\n"
      ∷ "      if (!response.ok) {\n"
      ∷ "        message.textContent = reportRequested ? \"Executive Summary 생성에 실패했습니다. 잠시 후 다시 시도해주세요.\" : \"Dashboard 생성에 실패했습니다. 잠시 후 다시 시도해주세요.\";\n"
      ∷ "        return;\n"
      ∷ "      }\n"
      ∷ "\n"
      ∷ "      const html = await response.text();\n"
      ∷ "      document.open();\n"
      ∷ "      document.write(html);\n"
      ∷ "      document.close();\n"
      ∷ "    });\n"
      ∷ "  </script>\n"
      ∷ "</body>\n"
      ∷ "</html>"
      ∷ [])

  unfoldable pub assessment_questionnaire_html : String
  assessment_questionnaire_html =
      concat
        (questionnaire_head ∷ questionnaire_style ∷ questionnaire_form ∷ questionnaire_script ∷ [])
