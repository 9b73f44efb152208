-- ===== src/Assessment/ScoringTables.antt =====
-- ts-agentguard/src/assessment/scoring.ts: the tables of texts.
use agentguard_action_proxy.Common.{String, List, [], ◌∷◌}
use agentguard_action_proxy.Assessment.Types.{
  Domain, financial_actions, ai_risk_management, privacy_data_protection,
  model_governance_human_oversight, strategic_governance, AssessmentRiskLevel, critical_risk,
  high_risk, medium_risk, low_risk, Horizon, days_30, days_90, days_180,
}

abbrev pub priority_risk_description : Domain → String
priority_risk_description financial_actions = "AI 금전 실행 및 거래 관련 승인·한도·감사 통제가 부족합니다."
priority_risk_description ai_risk_management = "AI 위험 식별, 위험등급 산정, 잔여위험 평가 체계가 미흡합니다."
priority_risk_description privacy_data_protection = "AI 데이터 보호 및 민감정보 처리 통제 체계가 부족합니다."
priority_risk_description model_governance_human_oversight = "고위험 AI 통제 및 사람의 검토 절차가 부족합니다."
priority_risk_description strategic_governance = "전사 AI 거버넌스 책임과 경영진 보고 체계가 충분히 정착되지 않았습니다."

abbrev pub time_horizon_actions : AssessmentRiskLevel → Horizon → List String
time_horizon_actions low_risk days_30 = "현재 AI 관리 기준 점검" ∷ "주요 AI 사용 현황 최신화" ∷ "정기 보고 일정 확인" ∷ []
time_horizon_actions low_risk days_90 = "내부 정책 및 운영 기준 재검토" ∷ "감사 기록 보존 상태 점검" ∷ "임직원 교육 계획 갱신" ∷ []
time_horizon_actions low_risk days_180 = "정기 재평가 수행" ∷ "규제 변화 반영 여부 점검" ∷ "AI 거버넌스 운영 성숙도 개선" ∷ []
time_horizon_actions medium_risk days_30 = "우선 관리 영역 개선 계획 수립" ∷ "담당자와 일정 확인" ∷ "필수 운영 기준 보완" ∷ []
time_horizon_actions medium_risk days_90 =
    "내부 정책 및 증빙 체계 보완" ∷ "주요 AI 사용 현황 점검" ∷ "임직원 교육 계획 갱신" ∷ []
time_horizon_actions medium_risk days_180 = "개선 결과 재점검" ∷ "정기 보고 체계 운영" ∷ "규제 변화 반영 여부 확인" ∷ []
time_horizon_actions high_risk days_30 = "고위험 영역 개선 조치 착수" ∷ "경영진 보고 일정 확정" ∷ "핵심 승인 기준 보완" ∷ []
time_horizon_actions high_risk days_90 = "위험관리 운영 기준 정비" ∷ "감사 기록 점검 체계 구축" ∷ "개인정보 보호 절차 보완" ∷ []
time_horizon_actions high_risk days_180 = "개선 이행 결과 검토" ∷ "정기 재평가 수행" ∷ "AI 거버넌스 운영 수준 개선" ∷ []
time_horizon_actions critical_risk days_30 =
    "경영진 주도 즉시 개선 회의 개최" ∷ "우선 관리 위험 식별" ∷ "승인·감사·개인정보 보호 기준 긴급 보완" ∷ []
time_horizon_actions critical_risk days_90 =
    "핵심 통제 이행 상태 점검" ∷ "고위험 AI 사용 관리 체계 구축" ∷ "책임자 및 보고 체계 확정" ∷ []
time_horizon_actions critical_risk days_180 =
    "재평가 및 미해결 위험 보고" ∷ "규제 대응 수준 점검" ∷ "전사 AI 거버넌스 운영 개선" ∷ []

abbrev pub explanation_findings : Domain → List String
explanation_findings financial_actions =
    "금전 실행 사전 승인 부재" ∷ "거래 한도 및 예외 승인 기준 미흡" ∷ "금전 실행 감사 추적성 부족" ∷ []
explanation_findings ai_risk_management = "AI 위험 목록 부재" ∷ "위험등급 체계 미흡" ∷ "잔여위험 평가 부재" ∷ []
explanation_findings privacy_data_protection =
    "민감정보 입력 기준 미흡" ∷ "고객정보 외부 전송 통제 부족" ∷ "데이터 보호 사고 대응 준비 부족" ∷ []
explanation_findings model_governance_human_oversight =
    "사람의 검토 절차 미흡" ∷ "고위험 AI 단독 의사결정 제한 부족" ∷ "AI 결과 품질 점검 루프 부족" ∷ []
explanation_findings strategic_governance =
    "경영진 승인 원칙 부재" ∷ "AI 역할과 의사결정 권한 불명확" ∷ "AI 거버넌스 개선 일정 미흡" ∷ []
