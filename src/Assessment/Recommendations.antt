-- ===== src/Assessment/Recommendations.antt =====
-- ts-agentguard/src/assessment/recommendation-engine.ts: the recommendations for a result.
pub mod Numbering
use agentguard_action_proxy.Common.{
  ℕ, suc, Bool, false, ◌||◌, String, Option, none, some, List, [], ◌∷◌, ◌++◌, map, if◌then◌else◌,
  leb,
}
use agentguard_action_proxy.Common.Lists.{keep, take, sort_by}
use agentguard_action_proxy.Js.{Js}
use agentguard_action_proxy.Assessment.Types.{
  Domain, financial_actions, ai_risk_management, privacy_data_protection,
  model_governance_human_oversight, strategic_governance, is_domain, DomainScore, AssessmentResult,
}
use agentguard_action_proxy.Assessment.Priorities.{comes_first}
use agentguard_action_proxy.Assessment.Industry.{
  IndustryType, financial, manufacturing, healthcare, public, technology,
}

-- A recommendation before it is numbered.
pub record Advice : Type 0 where
  pub title : String
  pub reason : String
  pub expected_outcome : String

pub record Recommendation : Type 0 where
  pub priority : ℕ
  pub advice : Advice

abbrev advise : String → String → String → Advice
advise title reason outcome = record { title = title; reason = reason; expected_outcome = outcome }

abbrev domain_recommendations : Domain → List Advice
domain_recommendations strategic_governance =
    advise "AI Usage Policy" "AI 사용 기준이 불명확하면 Shadow AI와 부적절한 도구 사용이 빠르게 확산됩니다."
      "허용된 AI 사용 범위와 책임 기준 확보"
    ∷ advise "Shadow AI Identification" "승인되지 않은 AI 사용은 데이터 유출과 규제 대응 공백으로 이어질 수 있습니다."
        "조직 내 비인가 AI 사용 현황 가시화"
    ∷ advise "AI Usage Approval Process" "고위험 AI 활용은 사전 승인 없이 확대될 경우 운영 리스크가 누적됩니다."
        "AI 사용 요청에 대한 일관된 검토 및 승인 체계 확보"
    ∷ []
domain_recommendations privacy_data_protection =
    advise "Sensitive Data Classification" "민감정보 분류가 없으면 외부 AI 도구 입력 통제가 작동하기 어렵습니다." "데이터 유출 위험 감소"
    ∷ advise "Data Input Policy" "AI 프롬프트 입력 기준이 없으면 개인정보와 영업비밀이 외부로 전달될 수 있습니다."
        "AI 입력 데이터에 대한 명확한 허용·금지 기준 확보"
    ∷ advise "External AI Data Control" "외부 AI 사용 통제가 약하면 데이터 보관 위치와 재사용 여부를 검증하기 어렵습니다."
        "외부 AI 사용 시 민감정보 노출 가능성 축소"
    ∷ []
domain_recommendations financial_actions =
    advise "Access Permission Model" "권한 모델이 불명확하면 AI와 사용자가 필요한 범위를 초과해 시스템에 접근할 수 있습니다."
      "역할 기반 접근 기준 정립"
    ∷ advise "Least Privilege Enforcement" "과도한 권한은 자동화된 작업의 피해 범위를 확대합니다."
        "불필요한 권한 축소 및 오남용 가능성 감소"
    ∷ advise "Approval Governance" "중요 작업에 승인 체계가 없으면 고위험 변경이 검토 없이 실행될 수 있습니다."
        "고위험 작업에 대한 사전 통제 확보"
    ∷ []
domain_recommendations model_governance_human_oversight =
    advise "Audit Log Framework" "감사 로그가 없으면 AI 사용과 결과의 책임 소재를 확인하기 어렵습니다."
      "AI 의사결정과 실행 이력에 대한 추적성 확보"
    ∷ advise "Execution Traceability" "실행 추적 체계가 약하면 사고 발생 시 원인 분석과 재현이 지연됩니다."
        "문제 발생 시 신속한 조사와 대응 가능"
    ∷ advise "Log Retention Policy" "보관 정책이 없으면 규제 대응과 내부 감사에 필요한 증적이 소실될 수 있습니다."
        "감사와 규제 대응을 위한 증적 보존 기준 확보"
    ∷ []
domain_recommendations ai_risk_management =
    advise "AI Approval Workflow" "비인가 AI 행동은 직접적인 운영 리스크와 시스템 변경 리스크로 연결됩니다." "AI 행동에 대한 승인 통제 확보"
    ∷ advise "Runtime Monitoring" "AI 행동 중 모니터링이 없으면 의도하지 않은 작업을 조기에 탐지하기 어렵습니다."
        "AI 행동의 실시간 가시성 확보"
    ∷ advise "AIGuard PoC" "고위험 AI 행동은 정책 기반 통제 가능성을 작은 범위에서 검증해야 합니다." "AI Governance 적용 가능성 검증"
    ∷ []

abbrev industry_priority_domains : IndustryType → List Domain
industry_priority_domains technology = strategic_governance ∷ ai_risk_management ∷ []
industry_priority_domains financial = ai_risk_management ∷ financial_actions ∷ []
industry_priority_domains healthcare =
    privacy_data_protection ∷ model_governance_human_oversight ∷ []
industry_priority_domains public = model_governance_human_oversight ∷ []
industry_priority_domains manufacturing = financial_actions ∷ []

-- `industryReasons[industry]?.[domain]`.
abbrev industry_reason : IndustryType → Domain → Option String
industry_reason financial ai_risk_management = some "금융산업에서는 비인가 AI 행동이 직접적인 운영 리스크로 연결됩니다."
industry_reason healthcare privacy_data_protection = some "의료 데이터는 높은 개인정보 민감도를 가집니다."
industry_reason public model_governance_human_oversight = some "공공부문은 투명성과 감사 가능성이 신뢰 확보의 핵심입니다."
industry_reason manufacturing financial_actions =
    some "제조 환경에서는 권한 없는 변경이 생산 운영과 품질 리스크로 이어질 수 있습니다."
industry_reason technology strategic_governance =
    some "기술 조직은 AI 도입 속도가 빨라 사용 정책 부재 시 Shadow AI가 빠르게 확산됩니다."
industry_reason technology ai_risk_management =
    some "기술 조직의 AI는 개발·운영 시스템에 접근할 가능성이 높아 실행 통제가 중요합니다."
industry_reason _ _ = none

unfoldable pub contains_domain : Domain → List Domain → Bool
contains_domain d [] = false
contains_domain d (e ∷ es) = is_domain e d || contains_domain d es

-- `[...new Set(domains)]`, behind the domains already seen.
unfoldable pub distinct_after : List Domain → List Domain → List Domain
unfolding contains_domain
distinct_after seen [] = []
distinct_after seen (d ∷ ds) =
    let again = distinct_after seen ds in
    let first = distinct_after (d ∷ seen) ds in if contains_domain d seen then again else d ∷ first

-- The priority domains of an industry, none without an industry.
unfoldable pub priority_domains : Option IndustryType → List Domain
priority_domains none = []
priority_domains (some i) = industry_priority_domains i

unfoldable reason_for : Option IndustryType → Domain → Advice → Advice
reason_for none d item = item
reason_for (some i) d item = elim (industry_reason i d) [
  | none ↦ item
  | some r ↦ record item { reason = r }
]

-- `flatMap`.
unfoldable pub advice_for : Option IndustryType → List Domain → List Advice
unfolding reason_for
advice_for industry [] = []
advice_for industry (d ∷ ds) =
    map (reason_for industry d) (domain_recommendations d) ++ advice_for industry ds

-- `map((item, index) => ({ ...item, priority: index + 1 }))`, from an index on.
unfoldable pub numbered_from : ℕ → List Advice → List Recommendation
numbered_from index [] = []
numbered_from index (item ∷ items) =
    record { priority = suc index; advice = item } ∷ numbered_from (suc index) items

module _ (js : Js) where
  unfoldable pub top_weaknesses : AssessmentResult → List DomainScore
  top_weaknesses result = take 3 (sort_by (comes_first js) result.domain_scores)

  unfoldable pub ordered_domains : AssessmentResult → Option IndustryType → List Domain
  unfolding contains_domain distinct_after
  ordered_domains result industry =
      let weak = map (λ s. s.domain) (top_weaknesses result) in
      let prior = priority_domains industry in
      distinct_after [] (keep (λ d. contains_domain d prior) weak ++ (weak ++ prior))

  unfoldable pub generate_recommendations :
      AssessmentResult → Option IndustryType → List Recommendation
  unfolding ordered_domains numbered_from advice_for
  generate_recommendations result industry =
      if leb 90 result.total_score
      then record {
        priority = 1;
        advice =
            advise "Continuous Improvement Program"
              "현재 주요 Governance Risk는 식별되지 않았습니다. 높은 성숙도를 유지하려면 정기 점검과 개선 루프가 필요합니다."
              "AI Governance 성숙도 유지 및 신규 리스크 조기 탐지";
      }
        ∷ []
      else numbered_from 0 (take 5 (advice_for industry (ordered_domains result industry)))
