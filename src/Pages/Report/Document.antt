-- ===== src/Pages/Report/Document.antt =====
-- ts-agentguard/src/assessment/executive-report.ts: the executive report as a document. The date of
-- the day, as `Intl.DateTimeFormat` writes it, is an argument.
use agentguard_action_proxy.Common.{String, [], ◌∷◌, concat}
use agentguard_action_proxy.Js.{Js}
use agentguard_action_proxy.Assessment.Types.{AssessmentResult}
use agentguard_action_proxy.Pages.Html.{escape_html, each}
use agentguard_action_proxy.Pages.Texts.{number_text, assessment_risk_text}
use agentguard_action_proxy.Pages.Parts.{render_summary_text}
use agentguard_action_proxy.Pages.Report.{
  render_roadmap, render_top_risks, render_standards_alignment,
}

unfoldable pub report_head : String
report_head = concat (
    "<!doctype html>\n" ∷ "<html lang=\"ko\">\n" ∷ "<head>\n" ∷ "  <meta charset=\"utf-8\" />\n"
    ∷ "  <meta name=\"viewport\" content=\"width=device-width, initial-scale=1\" />\n"
    ∷ "  <title>AGAF Executive Assessment Report</title>\n" ∷ [])

unfoldable pub report_style : String
report_style = concat (
    "  <style>\n"
    ∷ "    :root { color-scheme: light; --bg: #eef1f5; --paper: #ffffff; --ink: #172033; --muted: #5d687a; --line: #d7dde7; --navy: #12213a; --blue: #1f4e79; --gold: #a67c00; --red: #9f2f2f; }\n"
    ∷ "    * { box-sizing: border-box; }\n"
    ∷ "    button, input, textarea, select { font-family: inherit; }\n"
    ∷ "    body { margin: 0; min-height: 100vh; font-family: Helvetica, \"Helvetica Neue\", Arial, \"Apple SD Gothic Neo\", \"Noto Sans KR\", sans-serif; background: var(--bg); color: var(--ink); }\n"
    ∷ "    .toolbar { position: sticky; top: 0; z-index: 2; display: flex; justify-content: flex-end; gap: 10px; padding: 14px 22px; background: rgba(238,241,245,.96); border-bottom: 1px solid var(--line); }\n"
    ∷ "    .toolbar a, .toolbar button { border: 1px solid var(--navy); border-radius: 4px; background: var(--navy); color: white; padding: 10px 14px; font: 700 .9rem Helvetica, \"Helvetica Neue\", Arial, \"Apple SD Gothic Neo\", \"Noto Sans KR\", sans-serif; text-decoration: none; cursor: pointer; }\n"
    ∷ "    .toolbar a { background: white; color: var(--navy); }\n"
    ∷ "    main { width: min(960px, calc(100% - 32px)); margin: 28px auto 42px; }\n"
    ∷ "    .report { background: var(--paper); border: 1px solid var(--line); box-shadow: 0 18px 45px rgba(18,33,58,.13); padding: clamp(30px, 5vw, 58px); }\n"
    ∷ "    header { display: grid; grid-template-columns: 1fr auto; gap: 24px; padding-bottom: 24px; border-bottom: 3px solid var(--navy); }\n"
    ∷ "    .eyebrow { color: var(--blue); font: 600 .78rem Helvetica, \"Helvetica Neue\", Arial, \"Apple SD Gothic Neo\", \"Noto Sans KR\", sans-serif; letter-spacing: .16em; text-transform: uppercase; }\n"
    ∷ "    h1 { margin: 10px 0 0; color: var(--navy); font-size: clamp(2rem, 4.4vw, 3.7rem); line-height: 1.02; letter-spacing: -.03em; }\n"
    ∷ "    .meta { min-width: 270px; border: 1px solid var(--line); }\n"
    ∷ "    .meta div { display: flex; justify-content: space-between; gap: 16px; padding: 11px 13px; border-bottom: 1px solid var(--line); font: 700 .88rem Helvetica, \"Helvetica Neue\", Arial, \"Apple SD Gothic Neo\", \"Noto Sans KR\", sans-serif; }\n"
    ∷ "    .meta div:last-child { border-bottom: 0; }\n"
    ∷ "    .meta span { color: var(--muted); }\n"
    ∷ "    section { padding: 26px 0; border-bottom: 1px solid var(--line); break-inside: avoid; }\n"
    ∷ "    h2 { margin: 0 0 18px; color: var(--navy); font: 600 1rem Helvetica, \"Helvetica Neue\", Arial, \"Apple SD Gothic Neo\", \"Noto Sans KR\", sans-serif; letter-spacing: .13em; text-transform: uppercase; }\n"
    ∷ "    h3, p { margin: 0; }\n" ∷ "    p, li { color: var(--muted); line-height: 1.68; }\n"
    ∷ "    .score-grid { display: grid; grid-template-columns: .85fr 1.15fr; gap: 20px; }\n"
    ∷ "    .score-box { border: 2px solid var(--navy); padding: 24px; text-align: center; }\n"
    ∷ "    .score-label { color: var(--blue); font: 600 .82rem Helvetica, \"Helvetica Neue\", Arial, \"Apple SD Gothic Neo\", \"Noto Sans KR\", sans-serif; letter-spacing: .12em; text-transform: uppercase; }\n"
    ∷ "    .score { margin-top: 10px; color: var(--navy); font: 700 clamp(4rem, 10vw, 6.8rem) Helvetica, \"Helvetica Neue\", Arial, \"Apple SD Gothic Neo\", \"Noto Sans KR\", sans-serif; line-height: .9; }\n"
    ∷ "    .score small { color: var(--muted); font-size: .3em; }\n"
    ∷ "    .risk-badge { display: inline-flex; margin-top: 16px; border: 1px solid var(--red); color: var(--red); padding: 8px 12px; font: 700 .94rem Helvetica, \"Helvetica Neue\", Arial, \"Apple SD Gothic Neo\", \"Noto Sans KR\", sans-serif; }\n"
    ∷ "    .metric-grid { display: grid; grid-template-columns: repeat(3, 1fr); gap: 12px; }\n"
    ∷ "    .metric { border-left: 4px solid var(--blue); background: #f7f9fc; padding: 14px; }\n"
    ∷ "    .metric span { display: block; color: var(--muted); font: 600 .76rem Helvetica, \"Helvetica Neue\", Arial, \"Apple SD Gothic Neo\", \"Noto Sans KR\", sans-serif; text-transform: uppercase; }\n"
    ∷ "    .metric strong { display: block; margin-top: 8px; color: var(--navy); font: 700 1.7rem Helvetica, \"Helvetica Neue\", Arial, \"Apple SD Gothic Neo\", \"Noto Sans KR\", sans-serif; }\n"
    ∷ "    .narrative p + p { margin-top: 12px; }\n"
    ∷ "    .risk-list { list-style: none; padding: 0; margin: 0; display: grid; gap: 12px; }\n"
    ∷ "    .risk-list li { display: grid; grid-template-columns: auto 1fr; gap: 14px; padding: 15px; border: 1px solid var(--line); background: #fbfcfe; }\n"
    ∷ "    .item-index { display: grid; place-items: center; width: 34px; height: 34px; border-radius: 999px; background: var(--navy); color: white; font: 700 1rem Helvetica, \"Helvetica Neue\", Arial, \"Apple SD Gothic Neo\", \"Noto Sans KR\", sans-serif; }\n"
    ∷ "    .risk-list strong { color: var(--navy); font: 700 1rem Helvetica, \"Helvetica Neue\", Arial, \"Apple SD Gothic Neo\", \"Noto Sans KR\", sans-serif; }\n"
    ∷ "    .risk-list span { display: block; margin: 4px 0; color: var(--gold); font: 700 .88rem Helvetica, \"Helvetica Neue\", Arial, \"Apple SD Gothic Neo\", \"Noto Sans KR\", sans-serif; }\n"
    ∷ "    .roadmap { display: grid; grid-template-columns: repeat(3, 1fr); gap: 14px; }\n"
    ∷ "    .roadmap-card, .standard-card, .recommendation, .empty-state { border: 1px solid var(--line); background: #fbfcfe; padding: 16px; }\n"
    ∷ "    .roadmap-card h3 { color: var(--blue); font: 700 1.1rem Helvetica, \"Helvetica Neue\", Arial, \"Apple SD Gothic Neo\", \"Noto Sans KR\", sans-serif; margin-bottom: 10px; }\n"
    ∷ "    ul { margin: 0; padding-left: 20px; }\n"
    ∷ "    .standards-grid { display: grid; gap: 12px; }\n"
    ∷ "    .standard-card { display: grid; grid-template-columns: 1fr auto; gap: 18px; align-items: start; }\n"
    ∷ "    .standard-card h3 { color: var(--navy); font: 700 1rem Helvetica, \"Helvetica Neue\", Arial, \"Apple SD Gothic Neo\", \"Noto Sans KR\", sans-serif; margin-bottom: 6px; }\n"
    ∷ "    .standard-score { min-width: 76px; text-align: right; font-family: Helvetica, \"Helvetica Neue\", Arial, \"Apple SD Gothic Neo\", \"Noto Sans KR\", sans-serif; }\n"
    ∷ "    .standard-score strong { display: block; color: var(--navy); font-size: 2rem; line-height: 1; }\n"
    ∷ "    .standard-score span { color: var(--gold); font-weight: 700; text-transform: uppercase; }\n"
    ∷ "    .recommendation { border-left: 5px solid var(--navy); }\n"
    ∷ "    footer { padding-top: 22px; color: var(--muted); font: 700 .9rem Helvetica, \"Helvetica Neue\", Arial, \"Apple SD Gothic Neo\", \"Noto Sans KR\", sans-serif; display: flex; justify-content: space-between; gap: 18px; }\n"
    ∷ "    footer strong { color: var(--navy); }\n"
    ∷ "    @media (max-width: 820px) { header, .score-grid, .metric-grid, .roadmap, .standard-card, footer { grid-template-columns: 1fr; } .meta { min-width: 0; } }\n"
    ∷ "    @media print { body { background: white; } .toolbar { display: none; } main { width: 100%; margin: 0; } .report { border: 0; box-shadow: none; padding: 0; } section { break-inside: avoid; } }\n"
    ∷ "  </style>\n" ∷ [])

-- What the document is filled with: texts, and in the last four the markup of the lists.
pub record ReportParts : Type 0 where
  pub total : String
  pub maximum : String
  pub risk_level : String
  pub regulatory : String
  pub control : String
  pub audit : String
  pub summary : String
  pub risks : String
  pub roadmap : String
  pub standards : String

-- The document behind its style sheet, up to the total score.
unfoldable pub report_opening : String → String
report_opening date = concat (
    "</head>\n"
    ∷ "<body>\n"
    ∷ "  <nav class=\"toolbar\" aria-label=\"Report actions\">\n"
    ∷ "    <a href=\"/assessment/start\">다시 평가하기</a>\n"
    ∷ "    <button type=\"button\" onclick=\"window.print()\">Print Report</button>\n"
    ∷ "  </nav>\n"
    ∷ "  <main>\n"
    ∷ "    <article class=\"report\" aria-labelledby=\"report-title\">\n"
    ∷ "      <header>\n"
    ∷ "        <div>\n"
    ∷ "          <div class=\"eyebrow\">Executive Summary</div>\n"
    ∷ "          <h1 id=\"report-title\">AGAF Executive Assessment Report</h1>\n"
    ∷ "        </div>\n"
    ∷ "        <div class=\"meta\" aria-label=\"Assessment metadata\">\n"
    ∷ "          <div><span>회사명</span><strong>"
    ∷ escape_html "평가 대상 조직"
    ∷ "</strong></div>\n"
    ∷ "          <div><span>평가일</span><strong>"
    ∷ escape_html date
    ∷ "</strong></div>\n"
    ∷ "          <div><span>버전</span><strong>"
    ∷ escape_html "AGAF Assessment MVP v0.3"
    ∷ "</strong></div>\n"
    ∷ "        </div>\n"
    ∷ "      </header>\n"
    ∷ "\n"
    ∷ "      <section aria-labelledby=\"score-title\">\n"
    ∷ "        <h2 id=\"score-title\">Section 1 · AI Governance Score</h2>\n"
    ∷ "        <div class=\"score-grid\">\n"
    ∷ "          <div class=\"score-box\"><div class=\"score-label\">총점</div><div class=\"score\">"
    ∷ [])

-- The document behind the total score.
unfoldable pub report_body : ReportParts → String
report_body parts = concat (
    "<small> / "
    ∷ parts.maximum
    ∷ "</small></div><div class=\"risk-badge\">"
    ∷ escape_html parts.risk_level
    ∷ "</div></div>\n"
    ∷ "          <div class=\"metric-grid\">\n"
    ∷ "            <div class=\"metric\"><span>규제 대응 준비도</span><strong>"
    ∷ escape_html parts.regulatory
    ∷ "</strong></div>\n"
    ∷ "            <div class=\"metric\"><span>통제 성숙도</span><strong>"
    ∷ escape_html parts.control
    ∷ "</strong></div>\n"
    ∷ "            <div class=\"metric\"><span>감사 대응 준비도</span><strong>"
    ∷ escape_html parts.audit
    ∷ "</strong></div>\n"
    ∷ "          </div>\n"
    ∷ "        </div>\n"
    ∷ "      </section>\n"
    ∷ "\n"
    ∷ "      <section class=\"narrative\" aria-labelledby=\"narrative-title\"><h2 id=\"narrative-title\">Section 2 · 경영진 요약</h2>"
    ∷ parts.summary
    ∷ "</section>\n"
    ∷ "      <section aria-labelledby=\"risks-title\"><h2 id=\"risks-title\">Section 3 · Top 3 Risks</h2>"
    ∷ parts.risks
    ∷ "</section>\n"
    ∷ "      <section aria-labelledby=\"roadmap-title\"><h2 id=\"roadmap-title\">Section 4 · 30 / 90 / 180 실행계획</h2><div class=\"roadmap\">"
    ∷ parts.roadmap
    ∷ "</div></section>\n"
    ∷ "      <section aria-labelledby=\"standards-title\"><h2 id=\"standards-title\">Section 5 · 표준 연계 결과</h2><div class=\"standards-grid\">"
    ∷ parts.standards
    ∷ "</div></section>\n"
    ∷ "      <section aria-labelledby=\"recommendation-title\"><h2 id=\"recommendation-title\">Section 6 · 경영진 권고사항</h2><div class=\"recommendation\"><p>AI 활용 확대 이전에 승인·감사·위험관리 체계를 우선 정비할 것을 권고합니다.</p><p>특히 고위험 AI 사용 시 Human Review 체계 구축이 필요합니다.</p></div></section>\n"
    ∷ "\n"
    ∷ "      <footer>\n"
    ∷ "        <div>Assessment generated using <strong>AGAF</strong><br />(AI Governance Assessment Framework)</div>\n"
    ∷ "        <div>© OpenEntry</div>\n"
    ∷ "      </footer>\n"
    ∷ "    </article>\n"
    ∷ "  </main>\n"
    ∷ "</body>\n"
    ∷ "</html>"
    ∷ [])

unfoldable pub report_html : String → ReportParts → String
report_html date parts =
    concat (report_head ∷ report_style ∷ report_opening date ∷ parts.total ∷ report_body parts ∷ [])

module _ (js : Js) where
  unfoldable pub result_parts : AssessmentResult → ReportParts
  result_parts result = record {
    total = number_text js result.total_score;
    maximum = number_text js result.max_score;
    risk_level = assessment_risk_text result.risk_level;
    regulatory = result.regulatory_readiness;
    control = result.control_maturity;
    audit = result.audit_readiness;
    summary = render_summary_text result.executive_summary;
    risks = render_top_risks js result.priority_risks;
    roadmap = each render_roadmap result.recommended_actions;
    standards = each (render_standards_alignment js) result.standards_alignment;
  }

  unfoldable pub executive_assessment_summary_html : String → AssessmentResult → String
  executive_assessment_summary_html date result = report_html date (result_parts result)
