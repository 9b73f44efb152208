-- ===== src/Assessment/Types.antt =====
-- ts-agentguard/src/assessment/types.ts. The fields `maxScore` and `maxPoints` of constant type are
-- kept as numbers.
use agentguard_action_proxy.Common.{ℕ, String, Bool, List, ◌==◌}

pub data Domain : Type 0 where
  financial_actions ai_risk_management privacy_data_protection : Domain
  model_governance_human_oversight strategic_governance : Domain

-- The text that a domain is in the source, where `===` compares domains.
abbrev pub domain_text : Domain → String
domain_text financial_actions = "FINANCIAL_ACTIONS"
domain_text ai_risk_management = "AI_RISK_MANAGEMENT"
domain_text privacy_data_protection = "PRIVACY_DATA_PROTECTION"
domain_text model_governance_human_oversight = "MODEL_GOVERNANCE_HUMAN_OVERSIGHT"
domain_text strategic_governance = "STRATEGIC_GOVERNANCE"

abbrev pub is_domain : Domain → Domain → Bool
is_domain d e = domain_text d == domain_text e

pub record Question : Type 0 where
  pub id : String
  pub domain : Domain
  pub title : String
  pub display_id : String

-- 0, 1, 2 and 4.
pub data AnswerValue : Type 0 where
  none_of_it not_sure_of_it part_of_it all_of_it : AnswerValue

abbrev pub points : AnswerValue → ℕ
points none_of_it = 0
points not_sure_of_it = 1
points part_of_it = 2
points all_of_it = 4

pub data AssessmentRiskLevel : Type 0 where
  critical_risk high_risk medium_risk low_risk : AssessmentRiskLevel

pub data AssessmentGrade : Type 0 where
  grade_d grade_c grade_b grade_a grade_a_plus : AssessmentGrade

pub data AssessmentReadiness : Type 0 where
  not_ready partially_ready ready advanced : AssessmentReadiness

pub record AssessmentAnswer : Type 0 where
  pub question_id : String
  pub value : AnswerValue

pub data AnswerLabel : Type 0 where
  no not_sure partial yes : AnswerLabel

pub record QuestionExplanation : Type 0 where
  pub question_id : String
  pub display_id : String
  pub title : String
  pub answer : AnswerLabel
  pub points : ℕ
  pub max_points : ℕ
  pub impact : String

pub record DomainExplanation : Type 0 where
  pub domain : Domain
  pub label : String
  pub score : ℕ
  pub max_score : ℕ
  pub answered_points : ℕ
  pub max_points : ℕ
  pub answer_breakdown : List QuestionExplanation
  pub findings : List String
  pub narrative : String

pub record DomainScore : Type 0 where
  pub domain : Domain
  pub label : String
  pub score : ℕ
  pub max_score : ℕ

pub data StandardsAlignmentStatus : Type 0 where
  green yellow red : StandardsAlignmentStatus

pub record StandardsReference : Type 0 where
  pub framework : String
  pub reference : String
  pub meaning : String
  pub current_implication : String
  pub recommended_improvement : String

pub record StandardsAlignment : Type 0 where
  pub domain : Domain
  pub label : String
  pub score : ℕ
  pub status : StandardsAlignmentStatus
  pub impact : String
  pub summary : String
  pub standards : List StandardsReference

pub record PriorityRisk : Type 0 where
  pub domain : Domain
  pub label : String
  pub score : ℕ
  pub description : String

-- The labels "30 Days", "90 Days" and "180 Days".
pub data Horizon : Type 0 where
  days_30 days_90 days_180 : Horizon

pub record RecommendedActionGroup : Type 0 where
  pub label : Horizon
  pub actions : List String

pub record MaturityLevel : Type 0 where
  pub level : ℕ
  pub label : String
  pub display_name : String

pub record AssessmentResult : Type 0 where
  pub total_score : ℕ
  pub max_score : ℕ
  pub risk_level : AssessmentRiskLevel
  pub maturity_level : MaturityLevel
  pub governance_grade : AssessmentGrade
  pub ai_readiness : AssessmentReadiness
  pub domain_scores : List DomainScore
  pub standards_alignment : List StandardsAlignment
  pub priority_risks : List PriorityRisk
  pub explanations : List DomainExplanation
  pub recommended_actions : List RecommendedActionGroup
  pub executive_summary : String
  pub regulatory_readiness : String
  pub control_maturity : String
  pub audit_readiness : String
