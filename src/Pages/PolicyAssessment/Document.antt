-- ===== src/Pages/PolicyAssessment/Document.antt =====
-- ts-agentguard/src/assessment/policy-assessment.ts: the policy dashboard and the policy report as
-- documents. The date of the day and `encodeURIComponent` are arguments.
use agentguard_action_proxy.Common.{String, [], ◌∷◌, concat, join}
use agentguard_action_proxy.Js.{Js}
use agentguard_action_proxy.Pages.Html.{escape_html, each}
use agentguard_action_proxy.Pages.Texts.{number_text, assessment_risk_text, grade_text}
use agentguard_action_proxy.Pages.Parts.{list_item, render_summary_text, render_metric}
use agentguard_action_proxy.Pages.PolicyAssessment.{PolicyAssessmentResult}
use agentguard_action_proxy.Pages.PolicyAssessment.Parts.{
  action_group, roadmap_card, all_actions, render_policy_source_details, domain_row, domain_metric,
  risk_entry, risk_line,
}

module _ (js : Js) where
  unfoldable pub policy_assessment_dashboard_html : PolicyAssessmentResult → String
  policy_assessment_dashboard_html result = concat (
      "<!doctype html><html lang=\"ko\"><head><meta charset=\"utf-8\" /><meta name=\"viewport\" content=\"width=device-width, initial-scale=1\" /><title>AGAF AI Governance Assessment</title><style>\n"
      ∷ "    :root { color-scheme: dark; --bg: #07111f; --card: #0f1c2e; --panel: #0b1728; --border: #223555; --text: #eaf2ff; --muted: #b8c7dc; --accent: #66d9ef; --good: #8fffcc; --warn: #ffbd59; --risk: #ff6b6b; }\n"
      ∷ "    * { box-sizing: border-box; } button, input, textarea, select { font-family: inherit; }\n"
      ∷ "    body { margin: 0; min-height: 100vh; font-family: Helvetica, \"Helvetica Neue\", Arial, \"Apple SD Gothic Neo\", \"Noto Sans KR\", sans-serif; background: radial-gradient(circle at top left, #164a7d 0, var(--bg) 34rem); color: var(--text); } main { width: min(1180px, calc(100% - 40px)); margin: 0 auto; padding: 44px 0 72px; } header { display: flex; flex-wrap: wrap; justify-content: space-between; gap: 18px; align-items: center; margin-bottom: 22px; } h1 { margin: 0; font-size: clamp(2.2rem, 5vw, 4.6rem); line-height: .95; letter-spacing: -.05em; } h2, h3 { margin: 0; } p { color: var(--muted); line-height: 1.7; } .eyebrow, .section-kicker { color: var(--accent); font-weight: 700; letter-spacing: .14em; text-transform: uppercase; } .header-actions { display: flex; flex-wrap: wrap; gap: 10px; align-items: center; justify-content: flex-end; } .back, .summary-button { display: inline-flex; align-items: center; color: var(--text); text-decoration: none; border: 1px solid var(--border); border-radius: 14px; padding: 12px 16px; font: inherit; font-weight: 700; background: rgba(102,217,239,.08); cursor: pointer; } .summary-button { border-color: rgba(102,217,239,.5); color: var(--accent); } .dashboard-grid { display: grid; grid-template-columns: repeat(12, 1fr); gap: 18px; } section { border: 1px solid var(--border); border-radius: 28px; background: rgba(15, 28, 46, .92); box-shadow: 0 22px 60px rgba(0,0,0,.28); padding: 24px; } .hero { grid-column: 1 / -1; display: grid; grid-template-columns: 1.1fr 1.9fr; gap: 18px; padding: 0; border: 0; background: transparent; box-shadow: none; } .score-panel, .summary-panel { border: 1px solid var(--border); border-radius: 30px; padding: 30px; background: linear-gradient(145deg, rgba(102,217,239,.16), rgba(11,23,40,.92)); box-shadow: 0 24px 70px rgba(0,0,0,.32); } .score-panel .label { color: var(--accent); font-weight: 700; text-transform: uppercase; letter-spacing: .14em; } .score { margin: 18px 0 10px; font-size: clamp(3.7rem, 9vw, 7rem); line-height: .9; font-weight: 700; letter-spacing: -.07em; } .score small { color: var(--muted); font-size: .38em; letter-spacing: -.03em; } .risk-badge { display: inline-flex; align-items: center; margin-top: 12px; padding: 10px 14px; border-radius: 999px; background: rgba(255,189,89,.16); color: var(--warn); border: 1px solid rgba(255,189,89,.46); font-weight: 700; } .source { margin-top: 16px; padding: 14px; border: 1px solid rgba(184,199,220,.2); border-radius: 16px; background: rgba(7,17,31,.38); } .source span { display: block; color: var(--accent); font-size: .78rem; font-weight: 700; letter-spacing: .12em; text-transform: uppercase; } .source strong { display: block; margin-top: 6px; } .source-detail-grid { display: grid; grid-template-columns: repeat(2, 1fr); gap: 10px; margin-top: 14px; } .source-detail-grid div, .standards { border-top: 1px solid rgba(184,199,220,.16); padding-top: 12px; } .standards { margin-top: 12px; } .standards ul { margin-top: 8px; padding-left: 18px; } .standards li { margin-bottom: 6px; } .standards p { margin: 8px 0 0; font-size: .86rem; } .summary-panel h2 { margin: 8px 0 14px; font-size: clamp(1.7rem, 3vw, 2.4rem); } .metrics { grid-column: 1 / -1; display: grid; grid-template-columns: repeat(3, 1fr); gap: 18px; } .metric-card { min-height: 150px; border: 1px solid var(--border); border-radius: 24px; background: linear-gradient(145deg, rgba(143,255,204,.1), rgba(11,23,40,.9)); padding: 22px; } .metric-card span { color: var(--muted); font-size: .82rem; font-weight: 700; letter-spacing: .1em; text-transform: uppercase; } .metric-card strong { display: block; margin-top: 16px; font-size: clamp(2.1rem, 5vw, 4rem); line-height: 1; } .metric-card p { margin: 12px 0 0; } .domains { grid-column: span 7; } .risks { grid-column: span 5; } .actions, .gaps { grid-column: 1 / -1; } .domains h2, .risks h2, .actions h2, .gaps h2 { margin: 6px 0 18px; font-size: 1.35rem; } .domain-row { display: grid; gap: 10px; padding: 16px 0; border-top: 1px solid rgba(184,199,220,.16); } .domain-row:first-of-type { border-top: 0; padding-top: 0; } .domain-row > div:first-child { display: flex; justify-content: space-between; gap: 16px; color: var(--muted); } .domain-row strong, .risks strong { color: var(--text); } .progress { height: 14px; overflow: hidden; border-radius: 999px; background: rgba(184,199,220,.16); } .progress span { display: block; height: 100%; border-radius: inherit; background: linear-gradient(90deg, var(--accent), var(--good)); } ol, ul { margin: 0; padding-left: 24px; } li { margin: 0 0 14px; color: var(--muted); line-height: 1.55; } li::marker { color: var(--accent); font-weight: 700; } .risks li span { display: block; margin: 4px 0; color: var(--warn); font-weight: 700; } .action-grid { display: grid; grid-template-columns: repeat(3, 1fr); gap: 14px; } .action-grid article { padding: 20px; border: 1px solid var(--border); border-radius: 20px; background: var(--panel); } .action-grid h3 { margin-bottom: 16px; color: var(--good); font-size: 1.35rem; } @media (max-width: 920px) { .hero, .metrics, .dashboard-grid, .action-grid { grid-template-columns: 1fr; } .domains, .risks, .actions, .gaps, .hero, .metrics { grid-column: 1; } }\n"
      ∷ "  </style></head><body><main><header><div><div class=\"eyebrow\">AGAF Policy-based Assessment MVP v0.4</div><h1>AGAF AI Governance Assessment</h1><p>"
      ∷ escape_html result.organization_name
      ∷ " AI 정책 평가</p></div><div class=\"header-actions\"><a class=\"back\" href=\"/demo/assessment\">첫 화면으로</a><button class=\"summary-button\" type=\"button\" id=\"policy-summary-button\">Executive Summary</button></div></header><div class=\"dashboard-grid\"><section class=\"hero\"><article class=\"score-panel\"><div class=\"label\">AI Governance Score</div><div class=\"score\">"
      ∷ number_text js result.assessment.total_score
      ∷ " <small>/ "
      ∷ number_text js result.assessment.max_score
      ∷ "</small></div><div class=\"risk-badge\">"
      ∷ escape_html (assessment_risk_text result.assessment.risk_level)
      ∷ "</div><div class=\"source\"><span>Policy Source</span><strong>"
      ∷ escape_html result.policy_source
      ∷ "</strong>"
      ∷ render_policy_source_details js result
      ∷ "</div></article><article class=\"summary-panel\"><div class=\"section-kicker\">Executive Summary</div><h2>"
      ∷ escape_html result.organization_name
      ∷ " 정책 기반 평가 요약</h2>"
      ∷ render_summary_text result.assessment.executive_summary
      ∷ "</article></section><section class=\"metrics\">"
      ∷ render_metric "규제 대응 준비도" result.assessment.regulatory_readiness "정책 문서 기준 Mock 평가"
      ∷ " "
      ∷ render_metric "통제 성숙도" result.assessment.control_maturity
          result.assessment.maturity_level.display_name
      ∷ " "
      ∷ render_metric "감사 대응 준비도" result.assessment.audit_readiness
          (concat ("거버넌스 등급 " ∷ grade_text result.assessment.governance_grade ∷ []))
      ∷ "</section><section class=\"domains\"><div class=\"section-kicker\">Policy Control Overview</div><h2>5 Domain Overview</h2>"
      ∷ each (domain_row js) result.assessment.domain_scores
      ∷ "</section><section class=\"risks\"><div class=\"section-kicker\">Highest Priority Risks</div><h2>우선 관리 위험</h2><ol>"
      ∷ each (risk_entry js) result.assessment.priority_risks
      ∷ "</ol></section><section class=\"gaps\"><div class=\"section-kicker\">Gap Analysis</div><h2>정책 분석 Gap</h2><ul>"
      ∷ each list_item result.gap_analysis
      ∷ "</ul></section><section class=\"actions\"><div class=\"section-kicker\">Recommended Actions</div><h2>권장 실행 계획</h2><div class=\"action-grid\">"
      ∷ each action_group result.assessment.recommended_actions
      ∷ "</div></section></div></main><script>document.getElementById(\"policy-summary-button\").addEventListener(\"click\", async () => { const response = await fetch(\"/assessment/policy/report\", { method: \"POST\", headers: { \"Content-Type\": \"application/json\" }, body: JSON.stringify({ source: "
      ∷ js.json_of_text result.policy_source
      ∷ " }) }); const html = await response.text(); document.open(); document.write(html); document.close(); });</script></body></html>"
      ∷ [])

  unfoldable pub policy_assessment_report_html :
      (String → String) → String → PolicyAssessmentResult → String
  policy_assessment_report_html encode_uri_component date result = concat (
      "<!doctype html><html lang=\"ko\"><head><meta charset=\"utf-8\" /><meta name=\"viewport\" content=\"width=device-width, initial-scale=1\" /><title>"
      ∷ escape_html result.organization_name
      ∷ " AI 정책 평가보고서</title><style>:root { color-scheme: light; --bg: #eef1f5; --paper: #ffffff; --ink: #172033; --muted: #5d687a; --line: #d7dde7; --navy: #12213a; --blue: #1f4e79; --gold: #a67c00; --red: #9f2f2f; } * { box-sizing: border-box; } button, input, textarea, select { font-family: inherit; } body { margin: 0; min-height: 100vh; font-family: Helvetica, \"Helvetica Neue\", Arial, \"Apple SD Gothic Neo\", \"Noto Sans KR\", sans-serif; background: var(--bg); color: var(--ink); } .toolbar { position: sticky; top: 0; z-index: 2; display: flex; justify-content: flex-end; gap: 10px; padding: 14px 22px; background: rgba(238,241,245,.96); border-bottom: 1px solid var(--line); } .toolbar a, .toolbar button { border: 1px solid var(--navy); border-radius: 4px; background: var(--navy); color: white; padding: 10px 14px; font: 700 .9rem Helvetica, \"Helvetica Neue\", Arial, \"Apple SD Gothic Neo\", \"Noto Sans KR\", sans-serif; text-decoration: none; cursor: pointer; } .toolbar a { background: white; color: var(--navy); } main { width: min(960px, calc(100% - 32px)); margin: 28px auto 42px; } .report { background: var(--paper); border: 1px solid var(--line); box-shadow: 0 18px 45px rgba(18,33,58,.13); padding: clamp(30px, 5vw, 58px); } header { display: grid; grid-template-columns: 1fr auto; gap: 24px; padding-bottom: 24px; border-bottom: 3px solid var(--navy); } .eyebrow { color: var(--blue); font: 600 .78rem Helvetica, \"Helvetica Neue\", Arial, \"Apple SD Gothic Neo\", \"Noto Sans KR\", sans-serif; letter-spacing: .16em; text-transform: uppercase; } h1 { margin: 10px 0 0; color: var(--navy); font-size: clamp(2rem, 4.4vw, 3.7rem); line-height: 1.02; letter-spacing: -.03em; } .meta { min-width: 280px; border: 1px solid var(--line); } .meta div { display: flex; justify-content: space-between; gap: 16px; padding: 11px 13px; border-bottom: 1px solid var(--line); font: 700 .88rem Helvetica, \"Helvetica Neue\", Arial, \"Apple SD Gothic Neo\", \"Noto Sans KR\", sans-serif; } .meta div:last-child { border-bottom: 0; } .meta span { color: var(--muted); } section { padding: 26px 0; border-bottom: 1px solid var(--line); break-inside: avoid; } h2 { margin: 0 0 18px; color: var(--navy); font: 600 1rem Helvetica, \"Helvetica Neue\", Arial, \"Apple SD Gothic Neo\", \"Noto Sans KR\", sans-serif; letter-spacing: .13em; text-transform: uppercase; } p, li { color: var(--muted); line-height: 1.68; } .score-grid, .roadmap { display: grid; grid-template-columns: repeat(3, 1fr); gap: 12px; } .metric, .roadmap-card, .box { border-left: 4px solid var(--blue); background: #f7f9fc; padding: 14px; } .metric span { display: block; color: var(--muted); font: 600 .76rem Helvetica, \"Helvetica Neue\", Arial, \"Apple SD Gothic Neo\", \"Noto Sans KR\", sans-serif; text-transform: uppercase; } .metric strong { display: block; margin-top: 8px; color: var(--navy); font: 700 1.7rem Helvetica, \"Helvetica Neue\", Arial, \"Apple SD Gothic Neo\", \"Noto Sans KR\", sans-serif; } .score { color: var(--navy); font: 700 3.2rem Helvetica, \"Helvetica Neue\", Arial, \"Apple SD Gothic Neo\", \"Noto Sans KR\", sans-serif; } .narrative p + p { margin-top: 12px; } h3 { color: var(--blue); font: 700 1.1rem Helvetica, \"Helvetica Neue\", Arial, \"Apple SD Gothic Neo\", \"Noto Sans KR\", sans-serif; margin: 0 0 10px; } @media print { body { background: white; } .toolbar { display: none; } main { width: 100%; margin: 0; } .report { border: 0; box-shadow: none; padding: 0; } }</style></head><body><nav class=\"toolbar\"><a href=\"/assessment/policy?source="
      ∷ encode_uri_component result.policy_source
      ∷ "\">Dashboard</a><button type=\"button\" onclick=\"window.print()\">Print / Save PDF</button></nav><main><article class=\"report\"><header><div><div class=\"eyebrow\">AGAF AI Governance Assessment</div><h1>"
      ∷ escape_html result.organization_name
      ∷ " AI 정책 평가보고서</h1></div><div class=\"meta\"><div><span>Policy Source</span><strong>"
      ∷ escape_html result.policy_source
      ∷ "</strong></div><div><span>평가일</span><strong>"
      ∷ escape_html date
      ∷ "</strong></div><div><span>보고서명</span><strong>"
      ∷ escape_html result.organization_name
      ∷ "_AI정책_평가보고서.pdf</strong></div><div><span>평가 기준</span><strong>"
      ∷ escape_html (join " · " result.policy_source_assessment_basis.assessment_standards)
      ∷ "</strong></div></div></header><section><h2>Section 1 · 정책 개요</h2><p>"
      ∷ escape_html result.policy_overview
      ∷ "</p></section><section><h2>Section 2 · 정책 분석 결과</h2>"
      ∷ render_summary_text result.assessment.executive_summary
      ∷ "</section><section><h2>Section 3 · 규제 대응 수준 / AI Governance Score</h2><div class=\"score-grid\"><div class=\"metric\"><span>AI Governance Score</span><strong class=\"score\">"
      ∷ number_text js result.assessment.total_score
      ∷ "/"
      ∷ number_text js result.assessment.max_score
      ∷ "</strong></div><div class=\"metric\"><span>Regulatory Readiness</span><strong>"
      ∷ escape_html result.assessment.regulatory_readiness
      ∷ "</strong></div><div class=\"metric\"><span>Audit Readiness</span><strong>"
      ∷ escape_html result.assessment.audit_readiness
      ∷ "</strong></div></div></section><section><h2>Section 4 · 5 Domain Analysis</h2><div class=\"score-grid\">"
      ∷ each (domain_metric js) result.assessment.domain_scores
      ∷ "</div></section><section><h2>Section 5 · Gap Analysis</h2><ul>"
      ∷ each list_item result.gap_analysis
      ∷ "</ul></section><section><h2>Section 6 · Highest Priority Risks</h2><ul>"
      ∷ each (risk_line js) result.assessment.priority_risks
      ∷ "</ul></section><section><h2>Section 7 · Recommended Actions</h2><ul>"
      ∷ each list_item (all_actions result.assessment.recommended_actions)
      ∷ "</ul></section><section><h2>Section 8 · Roadmap</h2><div class=\"roadmap\">"
      ∷ each roadmap_card result.assessment.recommended_actions
      ∷ "</div></section></article></main></body></html>"
      ∷ [])
