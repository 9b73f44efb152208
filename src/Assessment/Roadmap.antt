-- ===== src/Assessment/Roadmap.antt =====
-- ts-agentguard/src/assessment/recommendation-engine.ts and recommendations.ts: what else the reports
-- say of a result.
use agentguard_action_proxy.Common.{
  ℕ, zero, suc, String, Option, none, some, List, [], ◌∷◌, map, if◌then◌else◌, ltb, leb, concat,
}
use agentguard_action_proxy.Common.Lists.{take}
use agentguard_action_proxy.Js.{Js}
use agentguard_action_proxy.Assessment.Types.{
  Domain, financial_actions, ai_risk_management, privacy_data_protection,
  model_governance_human_oversight, strategic_governance, AssessmentResult,
}
use agentguard_action_proxy.Assessment.Industry.{
  IndustryType, Phase, default_industry, industry_profile,
}
use agentguard_action_proxy.Assessment.Recommendations.{
  Recommendation, top_weaknesses, generate_recommendations,
}

abbrev quick_win : Domain → String
quick_win strategic_governance = "AI 사용 정책 문서 작성"
quick_win privacy_data_protection = "민감정보 입력 가이드 배포"
quick_win financial_actions = "승인 절차 정의"
quick_win model_governance_human_oversight = "감사 로그 보관기간 정의"
quick_win ai_risk_management = "AI 행동 승인 기준 초안 작성"

-- "30 Days", "60 Days" and "90 Days".
pub data RoadmapDay : Type 0 where
  day_30 day_60 day_90 : RoadmapDay

pub record RoadmapItem : Type 0 where
  pub day : RoadmapDay
  pub title : String

abbrev roadmap_item : RoadmapDay → String → RoadmapItem
roadmap_item day title = record { day = day; title = title }

-- `recommendations[n]?.title`.
unfoldable title_at : ℕ → List Recommendation → Option String
title_at n [] = none
title_at zero (r ∷ rs) = some r.advice.title
title_at (suc n) (r ∷ rs) = title_at n rs

-- `phases.at(-1)?.title`.
unfoldable last_title : List Phase → Option String
last_title [] = none
last_title (p ∷ []) = some p.title
last_title (p ∷ q ∷ ps) = last_title (q ∷ ps)

unfoldable pub or_else : Option String → String → String
or_else none fallback = fallback
or_else (some t) fallback = t

-- `result.industry ?? "TECHNOLOGY"`.
unfoldable industry_or_default : Option IndustryType → IndustryType
industry_or_default none = default_industry
industry_or_default (some i) = i

module _ (js : Js) where
  unfoldable quick_wins_for : AssessmentResult → List String
  quick_wins_for result =
      if leb 90 result.total_score
      then "분기별 Governance 리뷰 일정 수립" ∷ "신규 AI 사용 사례 등록 기준 점검" ∷ "정책 예외 승인 이력 샘플링" ∷ []
      else map (λ s. quick_win s.domain) (top_weaknesses js result)

  unfoldable roadmap_for : AssessmentResult → Option IndustryType → List RoadmapItem
  unfolding title_at last_title or_else industry_or_default
  roadmap_for result industry =
      let chosen = generate_recommendations js result industry in
      if leb 90 result.total_score
      then roadmap_item day_30 "Governance Health Check"
        ∷ roadmap_item day_60 "Control Effectiveness Review"
        ∷ roadmap_item day_90 "Continuous Improvement Program"
        ∷ []
      else roadmap_item day_30 (or_else (title_at 0 chosen) "AI Usage Policy")
        ∷ roadmap_item day_60 (or_else (title_at 1 chosen) "Approval Workflow")
        ∷ roadmap_item day_90 (
            or_else (title_at 2 chosen) (
              or_else (last_title (industry_profile (industry_or_default industry)).phases)
                "AI Governance"))
        ∷ []

  unfoldable pub business_impact_for : AssessmentResult → List String
  business_impact_for result =
      if leb 90 result.total_score
      then "현재 주요 Governance Risk 없음" ∷ []
      else map (λ s. concat (s.label ∷ " 통제 미흡으로 운영·규제 리스크가 증가할 수 있습니다." ∷ []))
          (top_weaknesses js result)

abbrev top_risks : List String
top_risks =
    "No formal AI usage policy" ∷ "Sensitive data may be entered into external AI tools"
    ∷ "No runtime control before AI agent execution"
    ∷ "Insufficient audit trail for AI-assisted decisions"
    ∷ "High-risk agent actions may occur without human approval" ∷ []

-- `slice(2, 5)` of the five texts.
unfoldable pub drop : ℕ → List String → List String
drop zero xs = xs
drop (suc n) [] = []
drop (suc n) (x ∷ xs) = drop n xs

unfoldable pub top_risks_for : AssessmentResult → List String
top_risks_for result =
    if ltb 60 result.total_score then take 3 (drop 2 top_risks) else take 3 top_risks

unfoldable pub recommendations_for : AssessmentResult → List String
recommendations_for result =
    if ltb 80 result.total_score
    then "Extend runtime governance coverage to more agent workflows"
      ∷ "Continuously monitor policy effectiveness"
      ∷ "Benchmark autonomous governance readiness against industry peers"
      ∷ "Prepare AgentGuard runtime control PoC for production-grade enforcement" ∷ []
    else "Establish AI usage policy" ∷ "Define sensitive data handling rules"
      ∷ "Implement approval workflow for high-risk AI actions"
      ∷ "Prepare AgentGuard runtime control PoC" ∷ []
