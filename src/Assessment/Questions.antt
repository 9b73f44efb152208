-- ===== src/Assessment/Questions.antt =====
-- ts-agentguard/src/assessment/questions.ts: the labels of the domains and the questions.
use agentguard_action_proxy.Common.{String, List, [], ◌∷◌}
use agentguard_action_proxy.Assessment.Types.{
  Domain, financial_actions, ai_risk_management, privacy_data_protection,
  model_governance_human_oversight, strategic_governance, Question,
}

abbrev pub domain_label : Domain → String
domain_label financial_actions = "D04 금전 실행 관리"
domain_label ai_risk_management = "D08 AI 위험관리"
domain_label privacy_data_protection = "D13 개인정보 및 데이터 보호"
domain_label model_governance_human_oversight = "D17 AI 운영 관리 및 사람의 검토"
domain_label strategic_governance = "D25 전략 거버넌스"

-- `Object.keys(domainLabels)`.
abbrev pub domains : List Domain
domains =
    financial_actions ∷ ai_risk_management ∷ privacy_data_protection
    ∷ model_governance_human_oversight ∷ strategic_governance ∷ []

abbrev question : String → String → Domain → String → Question
question id display_id domain title = record {
  id = id;
  display_id = display_id;
  domain = domain;
  title = title;
}

abbrev pub assessment_questions : List Question
assessment_questions =
    question "financial_actions_1" "Q041" financial_actions
      "AI가 결제, 환불, 송금 등 금전 관련 행동을 하기 전에 승인 절차가 있습니까?"
    ∷ question "financial_actions_2" "Q042" financial_actions "AI가 승인 없이 회사 비용을 발생시킬 위험을 관리하고 있습니까?"
    ∷ question "financial_actions_3" "Q043" financial_actions
        "AI가 잘못된 금액이나 잘못된 거래처로 처리하지 않도록 확인 절차가 있습니까?"
    ∷ question "financial_actions_4" "Q044" financial_actions "금전 관련 AI 행동의 책임자와 승인 기준이 명확합니까?"
    ∷ question "financial_actions_5" "Q045" financial_actions "금전 관련 AI 사용 내역을 사후에 검토할 수 있습니까?"
    ∷ question "ai_risk_management_1" "Q071" ai_risk_management "AI가 회사 정책을 위반할 위험을 정기적으로 점검합니까?"
    ∷ question "ai_risk_management_2" "Q072" ai_risk_management "AI가 승인 없이 행동할 위험을 줄이기 위한 기준이 있습니까?"
    ∷ question "ai_risk_management_3" "Q073" ai_risk_management
        "AI가 잘못된 결정을 내릴 경우 즉시 중단하거나 수정할 방법이 있습니까?"
    ∷ question "ai_risk_management_4" "Q074" ai_risk_management
        "AI 사용으로 생길 수 있는 고객, 재무, 평판 위험을 관리합니까?"
    ∷ question "ai_risk_management_5" "Q075" ai_risk_management "새로운 AI 사용 사례를 도입하기 전에 위험을 검토합니까?"
    ∷ question "privacy_data_protection_1" "Q131" privacy_data_protection
        "AI가 고객정보를 외부로 보낼 위험을 관리하고 있습니까?"
    ∷ question "privacy_data_protection_2" "Q132" privacy_data_protection
        "직원들이 AI에 입력하면 안 되는 정보의 기준을 알고 있습니까?"
    ∷ question "privacy_data_protection_3" "Q133" privacy_data_protection
        "개인정보나 영업비밀이 AI 사용 과정에서 노출되지 않도록 확인합니까?"
    ∷ question "privacy_data_protection_4" "Q134" privacy_data_protection
        "AI 사용 시 고객정보 보호 책임자가 검토할 수 있는 절차가 있습니까?"
    ∷ question "privacy_data_protection_5" "Q135" privacy_data_protection
        "데이터 보호 사고가 발생했을 때 대응 절차가 준비되어 있습니까?"
    ∷ question "model_governance_human_oversight_1" "Q171" model_governance_human_oversight
        "중요한 AI 결과를 사람이 검토하는 절차가 있습니까?"
    ∷ question "model_governance_human_oversight_2" "Q172" model_governance_human_oversight
        "AI가 잘못된 결정을 내렸을 때 책임자와 수정 절차가 명확합니까?"
    ∷ question "model_governance_human_oversight_3" "Q173" model_governance_human_oversight
        "AI 결과의 품질과 오류를 정기적으로 확인합니까?"
    ∷ question "model_governance_human_oversight_4" "Q174" model_governance_human_oversight
        "AI가 고객이나 직원에게 큰 영향을 주는 결정을 단독으로 하지 않도록 제한합니까?"
    ∷ question "model_governance_human_oversight_5" "Q175" model_governance_human_oversight
        "AI 사용 변경사항을 기록하고 승인합니까?"
    ∷ question "strategic_governance_1" "Q251" strategic_governance "경영진이 AI 사용 원칙과 책임 기준을 승인했습니까?"
    ∷ question "strategic_governance_2" "Q252" strategic_governance
        "AI 거버넌스가 회사의 사업 목표와 위험 관리 계획에 포함되어 있습니까?"
    ∷ question "strategic_governance_3" "Q253" strategic_governance "AI 관련 역할과 의사결정 권한이 명확합니까?"
    ∷ question "strategic_governance_4" "Q254" strategic_governance
        "AI 관련 규제와 감사 요구사항을 정기적으로 확인합니까?"
    ∷ question "strategic_governance_5" "Q255" strategic_governance "AI 거버넌스 개선 계획과 실행 일정이 있습니까?"
    ∷ []
