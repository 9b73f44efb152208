-- ===== src/Pages/Dashboard/Document.antt =====
-- ts-agentguard/src/assessment/dashboard.ts: the executive dashboard as a document.
use agentguard_action_proxy.Common.{String, [], ◌∷◌, concat}
use agentguard_action_proxy.Js.{Js}
use agentguard_action_proxy.Js.Json.{json_stringify}
use agentguard_action_proxy.Assessment.Types.{AssessmentResult}
use agentguard_action_proxy.Pages.Html.{escape_html, each, replace_all}
use agentguard_action_proxy.Pages.ResultJson.{result_value}
use agentguard_action_proxy.Pages.Texts.{number_text, assessment_risk_text, grade_text}
use agentguard_action_proxy.Pages.Parts.{render_summary_text, render_metric}
use agentguard_action_proxy.Pages.Dashboard.{
  top_risks_for_dashboard, render_action_group, render_maturity_label, render_domain_score,
  render_priority_risks, render_standards_alignment, render_explanation,
}

unfoldable pub dashboard_head : String
dashboard_head = concat (
    "<!doctype html>\n" ∷ "<html lang=\"ko\">\n" ∷ "<head>\n" ∷ "  <meta charset=\"utf-8\" />\n"
    ∷ "  <meta name=\"viewport\" content=\"width=device-width, initial-scale=1\" />\n"
    ∷ "  <title>AGAF Executive Dashboard</title>\n" ∷ [])

unfoldable pub dashboard_style : String
dashboard_style = concat (
    "  <style>\n"
    ∷ "    :root { color-scheme: dark; --bg: #07111f; --card: #0f1c2e; --panel: #0b1728; --border: #223555; --text: #eaf2ff; --muted: #b8c7dc; --accent: #66d9ef; --good: #8fffcc; --warn: #ffbd59; --risk: #ff6b6b; }\n"
    ∷ "    * { box-sizing: border-box; }\n"
    ∷ "    button, input, textarea, select { font-family: inherit; }\n"
    ∷ "    body { margin: 0; min-height: 100vh; font-family: Helvetica, \"Helvetica Neue\", Arial, \"Apple SD Gothic Neo\", \"Noto Sans KR\", sans-serif; background: radial-gradient(circle at top left, #164a7d 0, var(--bg) 34rem); color: var(--text); }\n"
    ∷ "    main { width: min(1180px, calc(100% - 40px)); margin: 0 auto; padding: 44px 0 72px; }\n"
    ∷ "    header { display: flex; flex-wrap: wrap; justify-content: space-between; gap: 18px; align-items: center; margin-bottom: 22px; }\n"
    ∷ "    h1 { margin: 0; font-size: clamp(2.2rem, 5vw, 4.6rem); line-height: .95; letter-spacing: -.05em; }\n"
    ∷ "    h2, h3 { margin: 0; }\n" ∷ "    p { color: var(--muted); line-height: 1.7; }\n"
    ∷ "    .eyebrow, .section-kicker { color: var(--accent); font-weight: 700; letter-spacing: .14em; text-transform: uppercase; }\n"
    ∷ "    .header-actions { display: flex; flex-wrap: wrap; gap: 10px; align-items: center; justify-content: flex-end; }\n"
    ∷ "    .back, .summary-button { display: inline-flex; align-items: center; color: var(--text); text-decoration: none; border: 1px solid var(--border); border-radius: 14px; padding: 12px 16px; font: inherit; font-weight: 700; background: rgba(102,217,239,.08); cursor: pointer; }\n"
    ∷ "    .summary-button { border-color: rgba(102,217,239,.5); color: var(--accent); }\n"
    ∷ "    .dashboard-grid { display: grid; grid-template-columns: repeat(12, 1fr); gap: 18px; }\n"
    ∷ "    section { border: 1px solid var(--border); border-radius: 28px; background: rgba(15, 28, 46, .92); box-shadow: 0 22px 60px rgba(0,0,0,.28); padding: 24px; }\n"
    ∷ "    .hero { grid-column: 1 / -1; display: grid; grid-template-columns: 1.1fr 1.9fr; gap: 18px; padding: 0; border: 0; background: transparent; box-shadow: none; }\n"
    ∷ "    .score-panel, .summary-panel { border: 1px solid var(--border); border-radius: 30px; padding: 30px; background: linear-gradient(145deg, rgba(102,217,239,.16), rgba(11,23,40,.92)); box-shadow: 0 24px 70px rgba(0,0,0,.32); }\n"
    ∷ "    .score-panel .label { color: var(--accent); font-weight: 700; text-transform: uppercase; letter-spacing: .14em; }\n"
    ∷ "    .score { margin: 18px 0 10px; font-size: clamp(3.7rem, 9vw, 7rem); line-height: .9; font-weight: 700; letter-spacing: -.07em; }\n"
    ∷ "    .score small { color: var(--muted); font-size: .38em; letter-spacing: -.03em; }\n"
    ∷ "    .risk-badge { display: inline-flex; align-items: center; margin-top: 12px; padding: 10px 14px; border-radius: 999px; background: rgba(255,189,89,.16); color: var(--warn); border: 1px solid rgba(255,189,89,.46); font-weight: 700; }\n"
    ∷ "    .summary-panel h2 { margin: 8px 0 14px; font-size: clamp(1.7rem, 3vw, 2.4rem); }\n"
    ∷ "    .metrics { grid-column: 1 / -1; display: grid; grid-template-columns: repeat(3, 1fr); gap: 18px; }\n"
    ∷ "    .metric-card { min-height: 150px; border: 1px solid var(--border); border-radius: 24px; background: linear-gradient(145deg, rgba(143,255,204,.1), rgba(11,23,40,.9)); padding: 22px; }\n"
    ∷ "    .metric-card span { color: var(--muted); font-size: .82rem; font-weight: 700; letter-spacing: .1em; text-transform: uppercase; }\n"
    ∷ "    .metric-card strong { display: block; margin-top: 16px; font-size: clamp(2.1rem, 5vw, 4rem); line-height: 1; }\n"
    ∷ "    .metric-card p { margin: 12px 0 0; }\n" ∷ "    .domains { grid-column: span 7; }\n"
    ∷ "    .risks { grid-column: span 5; }\n"
    ∷ "    .domains h2, .risks h2, .actions h2, .standards h2 { margin: 6px 0 18px; font-size: 1.35rem; }\n"
    ∷ "    .domain-row { display: grid; gap: 10px; padding: 16px 0; border-top: 1px solid rgba(184,199,220,.16); }\n"
    ∷ "    .domain-row:first-of-type { border-top: 0; padding-top: 0; }\n"
    ∷ "    .domain-row > div:first-child { display: flex; justify-content: space-between; gap: 16px; color: var(--muted); }\n"
    ∷ "    .domain-row strong, .risks strong { color: var(--text); }\n"
    ∷ "    .progress { height: 14px; overflow: hidden; border-radius: 999px; background: rgba(184,199,220,.16); }\n"
    ∷ "    .progress span { display: block; height: 100%; border-radius: inherit; background: linear-gradient(90deg, var(--accent), var(--good)); }\n"
    ∷ "    ol, ul { margin: 0; padding-left: 24px; }\n"
    ∷ "    li { margin: 0 0 14px; color: var(--muted); line-height: 1.55; }\n"
    ∷ "    li::marker { color: var(--accent); font-weight: 700; }\n"
    ∷ "    .risks li span { display: block; margin: 4px 0; color: var(--warn); font-weight: 700; }\n"
    ∷ "    .risks li p { margin: 0; }\n"
    ∷ "    .empty-state { margin: 0; padding: 18px; border: 1px solid rgba(143,255,204,.26); border-radius: 18px; background: rgba(143,255,204,.08); color: var(--text); font-weight: 700; }\n"
    ∷ "    .actions { grid-column: 1 / -1; }\n"
    ∷ "    .action-grid { display: grid; grid-template-columns: repeat(3, 1fr); gap: 14px; }\n"
    ∷ "    .action-grid article { padding: 20px; border: 1px solid var(--border); border-radius: 20px; background: var(--panel); }\n"
    ∷ "    .action-grid h3 { margin-bottom: 16px; color: var(--good); font-size: 1.35rem; }\n"
    ∷ "    .standards { grid-column: 1 / -1; }\n" ∷ "    .standards > p { margin-top: -6px; }\n"
    ∷ "    .alignment-grid { display: grid; grid-template-columns: repeat(2, 1fr); gap: 14px; margin-top: 18px; }\n"
    ∷ "    .alignment-card { padding: 20px; border: 1px solid var(--border); border-radius: 22px; background: var(--panel); }\n"
    ∷ "    .alignment-red { border-color: rgba(255,107,107,.46); }\n"
    ∷ "    .alignment-yellow { border-color: rgba(255,189,89,.46); }\n"
    ∷ "    .alignment-green { border-color: rgba(143,255,204,.36); }\n"
    ∷ "    .alignment-head { display: flex; justify-content: space-between; gap: 18px; align-items: flex-start; }\n"
    ∷ "    .alignment-head h3 { font-size: 1.22rem; }\n"
    ∷ "    .alignment-head p { margin: 8px 0 0; }\n"
    ∷ "    .alignment-score { min-width: 86px; text-align: right; }\n"
    ∷ "    .alignment-score strong { display: block; color: var(--text); font-size: 2.4rem; line-height: 1; }\n"
    ∷ "    .alignment-score span, .impact-badge { display: inline-flex; margin-top: 8px; padding: 7px 10px; border-radius: 999px; color: var(--text); border: 1px solid rgba(184,199,220,.24); background: rgba(184,199,220,.08); font-weight: 700; text-transform: uppercase; letter-spacing: .05em; font-size: .74rem; }\n"
    ∷ "    .impact-badge { color: var(--warn); text-transform: none; letter-spacing: 0; }\n"
    ∷ "    .standard-list { display: grid; grid-template-columns: repeat(2, minmax(0, 1fr)); gap: 10px; padding: 16px 0 0; }\n"
    ∷ "    .standard-card { border: 1px solid rgba(184,199,220,.14); border-radius: 14px; background: rgba(102,217,239,.06); color: var(--muted); overflow: hidden; }\n"
    ∷ "    .standard-card summary { cursor: pointer; list-style-position: inside; padding: 12px; color: var(--text); }\n"
    ∷ "    .standard-card summary strong { display: block; margin: 0 0 5px 20px; }\n"
    ∷ "    .standard-card summary span { display: block; margin-left: 20px; color: var(--muted); font-size: .9rem; }\n"
    ∷ "    .standard-card dl { display: grid; gap: 10px; margin: 0; padding: 0 12px 14px; }\n"
    ∷ "    .standard-card dl div { padding-top: 10px; border-top: 1px solid rgba(184,199,220,.12); }\n"
    ∷ "    .standard-card dt { color: var(--accent); font-size: .72rem; font-weight: 700; letter-spacing: .08em; text-transform: uppercase; }\n"
    ∷ "    .standard-card dd { margin: 4px 0 0; color: var(--muted); line-height: 1.62; }\n"
    ∷ "    .explainability { grid-column: 1 / -1; }\n"
    ∷ "    .explanation-grid { display: grid; gap: 16px; margin-top: 18px; }\n"
    ∷ "    .explanation-card { padding: 20px; border: 1px solid var(--border); border-radius: 22px; background: var(--panel); }\n"
    ∷ "    .explanation-head { display: flex; justify-content: space-between; gap: 18px; align-items: flex-start; margin-bottom: 16px; }\n"
    ∷ "    .explanation-head strong { color: var(--warn); font-size: 2.3rem; line-height: 1; white-space: nowrap; }\n"
    ∷ "    .explanation-head small { color: var(--muted); font-size: 1rem; }\n"
    ∷ "    table { width: 100%; border-collapse: collapse; margin: 12px 0 16px; overflow: hidden; border-radius: 16px; }\n"
    ∷ "    th, td { padding: 12px; border-bottom: 1px solid rgba(184,199,220,.14); text-align: left; color: var(--muted); }\n"
    ∷ "    th { color: var(--text); background: rgba(102,217,239,.08); font-size: .82rem; text-transform: uppercase; letter-spacing: .08em; }\n"
    ∷ "    td:first-child, td:nth-child(2), td:nth-child(3) { color: var(--text); font-weight: 700; white-space: nowrap; }\n"
    ∷ "    .findings { display: grid; gap: 10px; padding: 16px; border: 1px solid rgba(255,189,89,.36); border-radius: 18px; background: rgba(255,189,89,.08); }\n"
    ∷ "    .findings span { color: var(--warn); font-weight: 700; }\n"
    ∷ "    .findings li { margin-bottom: 6px; }\n"
    ∷ "    @media (max-width: 920px) { .hero, .metrics, .dashboard-grid, .action-grid, .alignment-grid, .standard-list { grid-template-columns: 1fr; } .domains, .risks, .actions, .standards, .hero, .metrics { grid-column: 1; } }\n"
    ∷ "  </style>\n" ∷ [])

module _ (js : Js) where
  unfoldable pub serialize_result_for_script : AssessmentResult → String
  serialize_result_for_script result =
      replace_all b'<' "\\u003c" (json_stringify (result_value {js = js} result))

  -- The document between its style sheet and its script.
  unfoldable pub dashboard_main : AssessmentResult → String
  dashboard_main result = concat (
      "</head>\n"
      ∷ "<body>\n"
      ∷ "  <main>\n"
      ∷ "    <header>\n"
      ∷ "      <div><div class=\"eyebrow\">AGAF Assessment MVP v0.3</div><h1>Executive Dashboard</h1><p>현재 5개 Domain과 기존 질문 응답만으로 AI 거버넌스 점수, 위험등급, 규제 준비도, 실행계획을 자동 생성합니다.</p></div>\n"
      ∷ "      <div class=\"header-actions\">\n"
      ∷ "        <a class=\"back\" href=\"/assessment/start\">다시 평가하기</a>\n"
      ∷ "        <button class=\"summary-button\" type=\"button\" id=\"executive-summary-button\">Executive Summary</button>\n"
      ∷ "      </div>\n"
      ∷ "    </header>\n"
      ∷ "    <div class=\"dashboard-grid\">\n"
      ∷ "      <section class=\"hero\" aria-labelledby=\"summary-title\">\n"
      ∷ "        <article class=\"score-panel\">\n"
      ∷ "          <div class=\"label\">AI Governance Score</div>\n"
      ∷ "          <div class=\"score\">"
      ∷ number_text js result.total_score
      ∷ " <small>/ "
      ∷ number_text js result.max_score
      ∷ "</small></div>\n"
      ∷ "          <div class=\"risk-badge\">"
      ∷ escape_html (assessment_risk_text result.risk_level)
      ∷ "</div>\n"
      ∷ "        </article>\n"
      ∷ "        <article class=\"summary-panel\">\n"
      ∷ "          <div class=\"section-kicker\">Executive Summary</div>\n"
      ∷ "          <h2 id=\"summary-title\">경영진 요약</h2>\n"
      ∷ "          "
      ∷ render_summary_text result.executive_summary
      ∷ "\n"
      ∷ "        </article>\n"
      ∷ "      </section>\n"
      ∷ "      <section class=\"metrics\" aria-label=\"Executive readiness metrics\">\n"
      ∷ "        "
      ∷ render_metric "규제 대응 준비도" result.regulatory_readiness "현재 평가 범위 내에서 산정"
      ∷ "\n"
      ∷ "        "
      ∷ render_metric "통제 성숙도" result.control_maturity
          (render_maturity_label result.maturity_level.display_name)
      ∷ "\n"
      ∷ "        "
      ∷ render_metric "감사 대응 준비도" result.audit_readiness
          (concat ("거버넌스 등급 " ∷ grade_text result.governance_grade ∷ []))
      ∷ "\n"
      ∷ "      </section>\n"
      ∷ "      <section class=\"domains\" aria-labelledby=\"domain-title\">\n"
      ∷ "        <div class=\"section-kicker\">5 Domain Overview</div>\n"
      ∷ "        <h2 id=\"domain-title\">영역별 점수 현황</h2>\n"
      ∷ "        "
      ∷ each (render_domain_score js) result.domain_scores
      ∷ "\n"
      ∷ "      </section>\n"
      ∷ "      <section class=\"risks\" aria-labelledby=\"risks-title\">\n"
      ∷ "        <div class=\"section-kicker\">Highest Priority Risks</div>\n"
      ∷ "        <h2 id=\"risks-title\">우선 관리 위험</h2>\n"
      ∷ "        "
      ∷ render_priority_risks js (top_risks_for_dashboard result)
      ∷ "\n"
      ∷ "      </section>\n"
      ∷ "      <section class=\"actions\" aria-labelledby=\"actions-title\">\n"
      ∷ "        <div class=\"section-kicker\">Recommended Actions</div>\n"
      ∷ "        <h2 id=\"actions-title\">권장 실행 계획</h2>\n"
      ∷ "        <div class=\"action-grid\">"
      ∷ each render_action_group result.recommended_actions
      ∷ "</div>\n"
      ∷ "      </section>\n"
      ∷ "      <section class=\"standards\" aria-labelledby=\"standards-title\">\n"
      ∷ "        <div class=\"section-kicker\">Standards Alignment</div>\n"
      ∷ "        <h2 id=\"standards-title\">표준 연계 결과</h2>\n"
      ∷ "        <p>현재 MVP 5개 Domain의 기존 점수를 ISO/IEC 42001, NIST AI RMF, EU AI Act, 금융위 AI 가이드라인 관점의 결과로 요약합니다. 조문 전문과 내부 Crosswalk는 표시하지 않습니다.</p>\n"
      ∷ "        <div class=\"alignment-grid\">"
      ∷ each (render_standards_alignment js) result.standards_alignment
      ∷ "</div>\n"
      ∷ "      </section>\n"
      ∷ "      <section class=\"explainability\" aria-labelledby=\"explainability-title\">\n"
      ∷ "        <div class=\"section-kicker\">Explainability Layer</div>\n"
      ∷ "        <h2 id=\"explainability-title\">왜 이런 점수가 나왔는가?</h2>\n"
      ∷ "        <p>평가 결과는 응답 내용과 영역별 준비 수준을 바탕으로 산정되었습니다. 현재 평가 범위 내에서 양호한 영역과 우선 보완 영역을 함께 확인할 수 있습니다.</p>\n"
      ∷ "        <div class=\"explanation-grid\">"
      ∷ each (render_explanation js) result.explanations
      ∷ "</div>\n"
      ∷ "      </section>\n"
      ∷ "    </div>\n"
      ∷ "  </main>\n"
      ∷ [])

  unfoldable pub dashboard_script : AssessmentResult → String
  dashboard_script result = concat (
      "<script>\n"
      ∷ "    const dashboardResult = "
      ∷ serialize_result_for_script result
      ∷ ";\n"
      ∷ "    document.getElementById(\"executive-summary-button\").addEventListener(\"click\", async () => {\n"
      ∷ "      const response = await fetch(\"/summary\", {\n"
      ∷ "        method: \"POST\",\n"
      ∷ "        headers: { \"Content-Type\": \"application/json\" },\n"
      ∷ "        body: JSON.stringify({ result: dashboardResult }),\n"
      ∷ "      });\n"
      ∷ "      const html = await response.text();\n"
      ∷ "      document.open();\n"
      ∷ "      document.write(html);\n"
      ∷ "      document.close();\n"
      ∷ "    });\n"
      ∷ "  </script>\n"
      ∷ "</body>\n"
      ∷ "</html>"
      ∷ [])

  unfoldable pub assessment_dashboard_html : AssessmentResult → String
  assessment_dashboard_html result =
      concat
        (dashboard_head ∷ dashboard_style ∷ dashboard_main result ∷ dashboard_script result ∷ [])
