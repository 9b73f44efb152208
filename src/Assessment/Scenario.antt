-- ===== src/Assessment/Scenario.antt =====
-- ts-agentguard/src/assessment/scenario-engine.ts: the business scenario of an industry.
pub mod Likelihood
use agentguard_action_proxy.Common.{ℕ, String, none, some, List, [], ◌∷◌, if◌then◌else◌, leb}
use agentguard_action_proxy.Common.Lists.{find_first}
use agentguard_action_proxy.Assessment.Industry.{
  IndustryType, financial, manufacturing, healthcare, public, technology,
}
use agentguard_action_proxy.Assessment.Types.{
  Domain, financial_actions, ai_risk_management, privacy_data_protection,
  model_governance_human_oversight, is_domain, AssessmentResult,
}

pub data ImpactScore : Type 0 where
  low medium high critical : ImpactScore

pub record ScenarioRule : Type 0 where
  pub industry : IndustryType
  pub scenario : String
  pub trigger_domain : Domain
  pub threshold : ℕ
  pub impacts : List String
  pub potential_impact : List String
  pub executive_scenario : String
  pub executive_impact : List String

pub record BusinessScenario : Type 0 where
  pub rule : ScenarioRule
  pub likelihood : ImpactScore
  pub severity : ImpactScore
  pub impact_score : ImpactScore

abbrev pub scenario_library : IndustryType → ScenarioRule
scenario_library healthcare = record {
  industry = healthcare;
  scenario = "환자정보가 외부 AI에 입력됨";
  trigger_domain = privacy_data_protection;
  threshold = 3;
  impacts = "개인정보 유출" ∷ "규제 위반" ∷ "평판 손상" ∷ [];
  potential_impact = "규제 조사 가능성" ∷ "고객 신뢰도 하락" ∷ "데이터 유출 위험" ∷ [];
  executive_scenario = "환자정보가 외부 AI에 입력될 가능성 존재";
  executive_impact = "개인정보보호법 위반" ∷ "감사 리스크 증가" ∷ [];
}
scenario_library financial = record {
  industry = financial;
  scenario = "AI AI가 승인 없이 송금 실행";
  trigger_domain = ai_risk_management;
  threshold = 3;
  impacts = "금전 손실" ∷ "감사 이슈" ∷ "규제 리스크" ∷ [];
  potential_impact = "금전 손실" ∷ "규제 감사" ∷ "거래 정지" ∷ [];
  executive_scenario = "AI AI가 승인 없이 송금을 실행할 가능성 존재";
  executive_impact = "금전 손실 가능성" ∷ "규제 감사 및 거래 통제 리스크 증가" ∷ [];
}
scenario_library manufacturing = record {
  industry = manufacturing;
  scenario = "생산설비 변경 명령 자동 실행";
  trigger_domain = financial_actions;
  threshold = 3;
  impacts = "생산 중단" ∷ "안전 사고" ∷ [];
  potential_impact = "생산 라인 중단" ∷ "작업자 안전 사고" ∷ "품질 및 납기 차질" ∷ [];
  executive_scenario = "생산설비 변경 명령이 충분한 승인 없이 자동 실행될 가능성 존재";
  executive_impact = "생산 중단 리스크" ∷ "안전 사고 및 운영 감사 리스크 증가" ∷ [];
}
scenario_library public = record {
  industry = public;
  scenario = "행정 데이터 오사용";
  trigger_domain = model_governance_human_oversight;
  threshold = 3;
  impacts = "감사 지적" ∷ "대민 신뢰 하락" ∷ [];
  potential_impact = "감사 지적 가능성" ∷ "민원 및 대민 신뢰도 하락" ∷ "행정 투명성 논란" ∷ [];
  executive_scenario = "행정 데이터가 목적과 다르게 사용될 가능성 존재";
  executive_impact = "감사 지적 증가" ∷ "대민 신뢰 하락" ∷ [];
}
scenario_library technology = record {
  industry = technology;
  scenario = "GitHub 코드 자동 반영";
  trigger_domain = ai_risk_management;
  threshold = 3;
  impacts = "서비스 장애" ∷ "보안 사고" ∷ [];
  potential_impact = "서비스 장애" ∷ "보안 취약점 배포" ∷ "고객 영향 및 복구 비용 증가" ∷ [];
  executive_scenario = "GitHub 코드가 충분한 검토 없이 자동 반영될 가능성 존재";
  executive_impact = "서비스 장애 가능성" ∷ "보안 사고 및 고객 영향 증가" ∷ [];
}

unfoldable pub score_for_domain : AssessmentResult → Domain → ℕ
score_for_domain result d = elim (find_first (λ s. is_domain s.domain d) result.domain_scores) [
  | none ↦ 0
  | some s ↦ s.score
]

unfoldable pub impact_score_for : ℕ → ImpactScore
impact_score_for score =
    if leb score 3
    then critical
    else if leb score 6
    then high
    else if leb score 10
    then medium
    else low

unfoldable pub likelihood_for : ℕ → ImpactScore
likelihood_for score = if leb score 3 then high else if leb score 6 then medium else low

unfoldable pub business_scenario_for : AssessmentResult → IndustryType → BusinessScenario
business_scenario_for result industry =
    let rule = scenario_library industry in
    let score = score_for_domain result rule.trigger_domain in
    record {
      rule = rule;
      likelihood = if leb score rule.threshold then likelihood_for score else low;
      severity = impact_score_for score;
      impact_score = impact_score_for score;
    }
