-- ===== src/Pages/PolicyAssessment.antt =====
-- ts-agentguard/src/assessment/policy-assessment.ts: the results that the assessment of a policy
-- document is answered with, one fixed result for each sample document.
pub mod Parts
pub mod Document
pub mod Selection
use agentguard_action_proxy.Common.{ℕ, String, Bool, ◌||◌, List, [], ◌∷◌, ◌==◌, if◌then◌else◌}
use agentguard_action_proxy.Assessment.Types.{
  Domain, financial_actions, ai_risk_management, privacy_data_protection,
  model_governance_human_oversight, strategic_governance, AssessmentRiskLevel, high_risk,
  medium_risk, grade_c, partially_ready, DomainScore, PriorityRisk, days_30, days_90, days_180,
  Horizon, RecommendedActionGroup, AssessmentResult,
}

abbrev pub bank_file : String
bank_file = "오픈은행_AI_정책.pdf"

abbrev pub card_file : String
card_file = "오픈카드_AI_정책.pdf"

abbrev pub securities_file : String
securities_file = "오픈증권_AI_정책.pdf"

abbrev policy_samples : List String
policy_samples = bank_file ∷ card_file ∷ securities_file ∷ []

pub record PolicySourceAssessmentBasis : Type 0 where
  pub analyzed_clauses : ℕ
  pub extracted_controls : ℕ
  pub assessment_standards : List String

-- `PolicyAssessmentResult extends AssessmentResult`.
pub record PolicyAssessmentResult : Type 0 where
  pub assessment : AssessmentResult
  pub organization_name : String
  pub policy_source : String
  pub policy_overview : String
  pub policy_source_assessment_basis : PolicySourceAssessmentBasis
  pub gap_analysis : List String

-- The properties of `base`, with the others as they are where a sample does not set them.
abbrev pub base : AssessmentResult
base = record {
  total_score = 0;
  max_score = 100;
  risk_level = high_risk;
  maturity_level = record { level = 2; label = "Developing"; display_name = "Level 2 Developing" };
  governance_grade = grade_c;
  ai_readiness = partially_ready;
  domain_scores = [];
  standards_alignment = [];
  priority_risks = [];
  explanations = [];
  recommended_actions = [];
  executive_summary = "";
  regulatory_readiness = "Partially Ready";
  control_maturity = "Developing";
  audit_readiness = "Not Ready";
}

abbrev scored : Domain → String → ℕ → DomainScore
scored domain label score = record {
  domain = domain;
  label = label;
  score = score;
  max_score = 100;
}

abbrev at_risk : Domain → String → ℕ → String → PriorityRisk
at_risk domain label score description = record {
  domain = domain;
  label = label;
  score = score;
  description = description;
}

abbrev within : Horizon → List String → RecommendedActionGroup
within label actions = record { label = label; actions = actions }

abbrev open_bank_assessment : AssessmentResult
open_bank_assessment = record base {
  total_score = 58;
  executive_summary =
      "오픈은행 디지털전략부 AI 정책은 AI 사용 절차는 정의되어 있으나 Prompt 관리, AI 승인, 위험평가, 로그 관리, 개인정보 통제가 부족합니다.\n\n우선적으로 AI 실행 승인, Prompt Logging, AI Risk Review를 도입하고 외부 LLM 사용 승인 기준을 명확히 할 것을 권장합니다.";
  domain_scores =
      scored strategic_governance "전략 거버넌스" 54
      ∷ scored ai_risk_management "AI 위험관리" 50
      ∷ scored privacy_data_protection "개인정보 보호" 62
      ∷ scored model_governance_human_oversight "AI 운영관리" 45
      ∷ scored financial_actions "금전 실행 관리" 66
      ∷ [];
  priority_risks =
      at_risk strategic_governance "AI 승인 절차" 54 "업무별 AI 사용 승인권자와 예외 승인 기준이 정책에 충분히 분리되어 있지 않습니다."
      ∷ at_risk model_governance_human_oversight "Prompt Logging" 45
          "입력 Prompt, 출력 결과, 사용자, 목적을 감사 가능한 형태로 보존하는 기준이 필요합니다."
      ∷ at_risk ai_risk_management "AI Risk Review" 50 "신규 AI 사용 전 위험등급 산정과 사후 재검토 절차가 약합니다."
      ∷ at_risk privacy_data_protection "개인정보 보호" 62 "개인정보·고객정보 입력 제한과 비식별 처리 기준을 강화해야 합니다."
      ∷ at_risk financial_actions "외부 LLM 사용" 66 "외부 LLM 사용 신청, 승인, 사용 범위 기록 체계가 필요합니다."
      ∷ [];
  recommended_actions =
      within days_30 ("Prompt Logging 도입" ∷ "AI 사용 이력 저장" ∷ "외부 LLM 승인 절차 초안 수립" ∷ [])
      ∷ within days_90 ("AI 승인 Workflow 구축" ∷ "AI Risk Register 작성" ∷ "개인정보 입력 제한 정책 배포" ∷ [])
      ∷ within days_180 ("정기 AI Risk Review 운영" ∷ "감사 증적 리포트 자동화" ∷ "부서별 AI 통제 책임자 지정" ∷ [])
      ∷ [];
}

unfoldable pub open_bank : PolicyAssessmentResult
open_bank = record {
  assessment = open_bank_assessment;
  organization_name = "오픈은행";
  policy_source = bank_file;
  policy_overview =
      "오픈은행 디지털전략부 AI 정책은 AI 활용 범위와 기본 사용 절차를 정의하고 있으나, 실행 승인·Prompt 관리·로그 보존·위험평가 기준은 별도 통제로 분리되어 있지 않습니다.";
  policy_source_assessment_basis = record {
    analyzed_clauses = 18;
    extracted_controls = 42;
    assessment_standards = "금융위원회 AI 가이드라인" ∷ "ISO/IEC 42001" ∷ "NIST AI RMF" ∷ [];
  };
  gap_analysis =
      "Prompt와 출력 결과에 대한 보존기간·접근권한 정의 부족" ∷ "고위험 AI 사용 전 승인 및 위험평가 단계 부족"
      ∷ "외부 AI 서비스 사용 현황을 중앙에서 추적하는 통제 부족" ∷ [];
}

abbrev open_card_assessment : AssessmentResult
open_card_assessment = record base {
  total_score = 64;
  executive_summary =
      "오픈카드 AI 정책은 개인정보 보호 원칙과 AI 사용 제한 사항은 비교적 명확하지만 승인 이력, Prompt 변경관리, 모델 사용 목적별 위험등급 관리가 미흡합니다.\n\nAI Risk Register와 승인 Workflow를 연결하고 감사 대응 로그를 표준화할 것을 권장합니다.";
  domain_scores =
      scored strategic_governance "전략 거버넌스" 62
      ∷ scored ai_risk_management "AI 위험관리" 58
      ∷ scored privacy_data_protection "개인정보 보호" 74
      ∷ scored model_governance_human_oversight "AI 운영관리" 52
      ∷ scored financial_actions "금전 실행 관리" 70
      ∷ [];
  priority_risks =
      at_risk model_governance_human_oversight "Prompt Logging" 52
        "Prompt 변경 이력과 업무 목적별 사용 근거를 감사 증적으로 남기는 체계가 필요합니다."
      ∷ at_risk ai_risk_management "AI Risk Review" 58 "AI 사용 유형별 위험등급 기준과 재평가 주기를 명문화해야 합니다."
      ∷ at_risk strategic_governance "AI 승인 절차" 62 "승인권자, 승인 조건, 예외 처리 기준을 Workflow로 구현해야 합니다."
      ∷ at_risk privacy_data_protection "개인정보 보호" 74 "개인정보 입력 제한은 있으나 위반 탐지 및 사후 감사 증적이 부족합니다."
      ∷ at_risk financial_actions "외부 LLM 사용" 70 "외부 AI 서비스 사용 범위와 승인 결과를 중앙 대장으로 관리해야 합니다."
      ∷ [];
  recommended_actions =
      within days_30 ("AI Risk Register 작성" ∷ "Prompt Logging 항목 표준화" ∷ "외부 AI 사용 현황 조사" ∷ [])
      ∷ within days_90 ("AI 승인 Workflow 구축" ∷ "고위험 AI 사용 재검토 절차 도입" ∷ "개인정보 통제 체크리스트 운영" ∷ [])
      ∷ within days_180 ("감사 대응 리포트 정례화" ∷ "AI 정책 예외 승인 대장 운영" ∷ "부서별 통제 성숙도 점검" ∷ [])
      ∷ [];
}

unfoldable pub open_card : PolicyAssessmentResult
open_card = record {
  assessment = open_card_assessment;
  organization_name = "오픈카드";
  policy_source = card_file;
  policy_overview =
      "오픈카드 AI 정책은 부서별 AI 활용 원칙과 개인정보 입력 제한을 포함하지만, 승인 이력과 모델·Prompt 변경관리의 감사 추적성이 제한적입니다.";
  policy_source_assessment_basis = record {
    analyzed_clauses = 16;
    extracted_controls = 37;
    assessment_standards = "금융위원회 AI 가이드라인" ∷ "ISO/IEC 42001" ∷ "NIST AI RMF" ∷ [];
  };
  gap_analysis = "승인 이력과 정책 예외 이력의 중앙 관리 부족" ∷ "Prompt 변경관리 기준 부족" ∷ "위험등급별 재평가 주기 미정의" ∷ [];
}

abbrev open_securities_assessment : AssessmentResult
open_securities_assessment = record base {
  total_score = 72;
  risk_level = medium_risk;
  regulatory_readiness = "Ready";
  audit_readiness = "Partially Ready";
  executive_summary =
      "오픈증권 AI 정책은 AI 승인과 로그 관리 방향이 정의되어 있으나 운영 증적의 표준화와 외부 AI 사용에 대한 위험등급별 통제는 추가 보완이 필요합니다.\n\nAGAF 기반으로 Prompt Logging, Risk Register, 분기별 Control Review를 연결하면 감사 대응 수준을 빠르게 높일 수 있습니다.";
  domain_scores =
      scored strategic_governance "전략 거버넌스" 76
      ∷ scored ai_risk_management "AI 위험관리" 70
      ∷ scored privacy_data_protection "개인정보 보호" 74
      ∷ scored model_governance_human_oversight "AI 운영관리" 68
      ∷ scored financial_actions "금전 실행 관리" 72
      ∷ [];
  priority_risks =
      at_risk model_governance_human_oversight "Prompt Logging" 68
        "로그 항목은 정의되어 있으나 보존기간과 감사 제출 형식을 표준화해야 합니다."
      ∷ at_risk ai_risk_management "AI Risk Review" 70 "정책 변경 시 Risk Register 업데이트 책임을 명확히 해야 합니다."
      ∷ at_risk financial_actions "외부 LLM 사용" 72 "외부 LLM 승인 절차를 위험등급별로 차등화해야 합니다."
      ∷ at_risk privacy_data_protection "개인정보 보호" 74 "고객정보 입력 제한 정책의 교육 이수 및 점검 증적을 강화해야 합니다."
      ∷ at_risk strategic_governance "AI 사용 감사" 76 "분기별 사용 현황과 예외 승인 내역을 감사 패키지로 정례화해야 합니다."
      ∷ [];
  recommended_actions =
      within days_30 ("Prompt Logging 보존 기준 확정" ∷ "AI Risk Register 템플릿 배포" ∷ "외부 AI 승인 양식 정비" ∷ [])
      ∷ within days_90 ("분기별 AI Control Review 운영" ∷ "감사 증적 패키지 표준화" ∷ "정책 예외 승인 기준 확정" ∷ [])
      ∷ within days_180 ("AGAF Control Mapping 자동화 준비" ∷ "고위험 사용 사례 샘플 감사" ∷ "정책 기반 리포트 정례화" ∷ [])
      ∷ [];
}

unfoldable pub open_securities : PolicyAssessmentResult
open_securities = record {
  assessment = open_securities_assessment;
  organization_name = "오픈증권";
  policy_source = securities_file;
  policy_overview = "오픈증권 AI 정책은 AI 사용 목적, 승인 책임, 로그 관리 방향을 포함하고 있어 정책 기반 평가 흐름을 보여주기에 적합한 샘플입니다.";
  policy_source_assessment_basis = record {
    analyzed_clauses = 22;
    extracted_controls = 51;
    assessment_standards = "금융위원회 AI 가이드라인" ∷ "ISO/IEC 42001" ∷ "NIST AI RMF" ∷ [];
  };
  gap_analysis =
      "로그 보존 및 제출 포맷 표준화 필요" ∷ "Risk Register 책임자 및 업데이트 주기 명확화 필요" ∷ "외부 AI 사용 위험등급별 승인 기준 보완 필요"
      ∷ [];
}

unfoldable pub is_policy_sample_file : String → Bool
is_policy_sample_file value = value == bank_file || value == card_file || value == securities_file

-- `policyResults[source]`, for a sample.
unfoldable policy_results : String → PolicyAssessmentResult
policy_results source =
    if source == card_file
    then open_card
    else if source == securities_file
    then open_securities
    else open_bank

unfoldable pub get_policy_assessment_result : String → PolicyAssessmentResult
unfolding is_policy_sample_file policy_results
get_policy_assessment_result source =
    if is_policy_sample_file source then policy_results source else open_bank
