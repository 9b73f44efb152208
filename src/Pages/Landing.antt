-- ===== src/Pages/Landing.antt =====
-- ts-agentguard/src/assessment/pages/landing.ts: the landing page, a constant.
use agentguard_action_proxy.Common.{String, [], ◌∷◌, concat}

unfoldable pub assessment_landing_html : String
assessment_landing_html = concat (
    "<!doctype html>\n" ∷ "<html lang=\"ko\">\n" ∷ "<head>\n" ∷ "  <meta charset=\"utf-8\" />\n"
    ∷ "  <meta name=\"viewport\" content=\"width=device-width, initial-scale=1\" />\n"
    ∷ "  <title>OpenEntry AI Risk Assessment</title>\n" ∷ "  <style>\n"
    ∷ "    :root { color-scheme: dark; --bg: #07111f; --card: #0f1c2e; --border: #223555; --text: #eaf2ff; --muted: #b8c7dc; --accent: #66d9ef; --button: #2f80ed; }\n"
    ∷ "    * { box-sizing: border-box; }\n"
    ∷ "    button, input, textarea, select { font-family: inherit; }\n"
    ∷ "    body { margin: 0; min-height: 100vh; font-family: Helvetica, \"Helvetica Neue\", Arial, \"Apple SD Gothic Neo\", \"Noto Sans KR\", sans-serif; background: radial-gradient(circle at top left, #12345a 0, var(--bg) 34rem); color: var(--text); }\n"
    ∷ "    main { width: min(980px, calc(100% - 40px)); margin: 0 auto; padding: 72px 0; }\n"
    ∷ "    .card { border: 1px solid var(--border); border-radius: 28px; background: rgba(15, 28, 46, .92); box-shadow: 0 26px 70px rgba(0, 0, 0, .32); padding: clamp(28px, 5vw, 56px); }\n"
    ∷ "    .eyebrow { color: var(--accent); font-size: .9rem; font-weight: 600; letter-spacing: .16em; margin-bottom: 18px; text-transform: uppercase; }\n"
    ∷ "    h1 { font-size: clamp(2.25rem, 7vw, 5rem); line-height: .95; margin: 0 0 22px; }\n"
    ∷ "    p { color: var(--muted); font-size: 1.15rem; line-height: 1.7; margin: 0; }\n"
    ∷ "    .stats { display: grid; grid-template-columns: repeat(3, minmax(0, 1fr)); gap: 16px; margin: 34px 0; }\n"
    ∷ "    .stat { border: 1px solid var(--border); border-radius: 18px; background: rgba(7, 17, 31, .54); padding: 20px; text-align: center; }\n"
    ∷ "    .stat strong { display: block; color: var(--text); font-size: 2rem; line-height: 1; margin-bottom: 8px; }\n"
    ∷ "    .stat span { color: var(--muted); font-weight: 700; }\n"
    ∷ "    .button { display: inline-flex; align-items: center; justify-content: center; min-height: 48px; border: 0; border-radius: 14px; background: var(--button); color: white; font: inherit; font-weight: 600; padding: 0 22px; text-decoration: none; box-shadow: 0 14px 34px rgba(47, 128, 237, .32); cursor: pointer; }\n"
    ∷ "    .button:focus, .button:hover { background: #1f6fd6; }\n"
    ∷ "    .actions { display: flex; flex-wrap: wrap; gap: 12px; align-items: center; }\n"
    ∷ "    .policy-upload { margin-top: 28px; padding-top: 28px; border-top: 1px solid rgba(184,199,220,.18); }\n"
    ∷ "    .policy-upload h2 { margin: 0 0 10px; font-size: 1.35rem; }\n"
    ∷ "    .sr-only { position: absolute; width: 1px; height: 1px; padding: 0; margin: -1px; overflow: hidden; clip: rect(0, 0, 0, 0); white-space: nowrap; border: 0; }\n"
    ∷ "    .policy-form { display: flex; flex-wrap: wrap; gap: 12px; align-items: center; margin-top: 18px; }\n"
    ∷ "    select { min-height: 48px; min-width: min(100%, 320px); border: 1px solid var(--border); border-radius: 14px; background: rgba(7, 17, 31, .72); color: var(--text); font: inherit; font-weight: 600; padding: 0 14px; }\n"
    ∷ "    @media (max-width: 700px) { .stats { grid-template-columns: 1fr; } main { padding: 36px 0; } }\n"
    ∷ "  </style>\n" ∷ "</head>\n" ∷ "<body>\n" ∷ "  <main>\n"
    ∷ "    <section class=\"card\" aria-labelledby=\"assessment-title\">\n"
    ∷ "      <div class=\"eyebrow\">OpenEntry AI Risk Assessment</div>\n"
    ∷ "      <h1 id=\"assessment-title\">AGAF Executive Dashboard</h1>\n"
    ∷ "      <p>25개 문항으로 AI 거버넌스 위험과 실행 우선순위를 빠르게 진단합니다.</p>\n"
    ∷ "      <div class=\"stats\" aria-label=\"Assessment overview\">\n"
    ∷ "        <div class=\"stat\"><strong>5</strong><span>5개 영역</span></div>\n"
    ∷ "        <div class=\"stat\"><strong>25</strong><span>25개 질문</span></div>\n"
    ∷ "        <div class=\"stat\"><strong>5분</strong><span>약 5분 소요</span></div>\n"
    ∷ "      </div>\n"
    ∷ "      <div class=\"actions\"><a class=\"button\" href=\"/assessment/start\">Start Assessment</a></div>\n"
    ∷ "      <section class=\"policy-upload\" aria-labelledby=\"policy-upload-title\">\n"
    ∷ "        <div class=\"eyebrow\">Policy-based Assessment</div>\n"
    ∷ "        <h2 id=\"policy-upload-title\">Upload Policy PDF</h2>\n"
    ∷ "        <p>부서별 AI 정책(PDF)을 업로드하면 정책 기반 AI 거버넌스 수준을 분석하고 경영진 보고서를 자동 생성합니다.</p>\n"
    ∷ "        <form class=\"policy-form\" action=\"/assessment/policy\" method=\"get\">\n"
    ∷ "          <label class=\"sr-only\" for=\"policy-source\">Policy PDF</label>\n"
    ∷ "          <select id=\"policy-source\" name=\"source\" aria-label=\"Policy PDF 샘플 선택\">\n"
    ∷ "            <option value=\"오픈은행_AI_정책.pdf\">오픈은행 AI 정책.pdf</option>\n"
    ∷ "            <option value=\"오픈카드_AI_정책.pdf\">오픈카드 AI 정책.pdf</option>\n"
    ∷ "            <option value=\"오픈증권_AI_정책.pdf\">오픈증권 AI 정책.pdf</option>\n"
    ∷ "          </select>\n"
    ∷ "          <button class=\"button\" type=\"submit\">Analyze Policy</button>\n"
    ∷ "        </form>\n" ∷ "      </section>\n" ∷ "    </section>\n" ∷ "  </main>\n" ∷ "</body>\n"
    ∷ "</html>" ∷ [])
