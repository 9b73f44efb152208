-- ===== src/Pages/Texts.antt =====
-- ts-agentguard/src/assessment/types.ts: the texts that the enumerations are in the source.
use agentguard_action_proxy.Common.{ℕ, String}
use agentguard_action_proxy.Js.{Js}
use agentguard_action_proxy.Assessment.Types.{
  AssessmentRiskLevel, critical_risk, high_risk, medium_risk, low_risk, AssessmentGrade, grade_d,
  grade_c, grade_b, grade_a, grade_a_plus, AssessmentReadiness, not_ready, partially_ready, ready,
  advanced, AnswerLabel, no, not_sure, partial, yes, StandardsAlignmentStatus, green, yellow, red,
  Horizon, days_30, days_90, days_180,
}

abbrev pub assessment_risk_text : AssessmentRiskLevel → String
assessment_risk_text critical_risk = "Critical Risk"
assessment_risk_text high_risk = "High Risk"
assessment_risk_text medium_risk = "Medium Risk"
assessment_risk_text low_risk = "Low Risk"

abbrev pub grade_text : AssessmentGrade → String
grade_text grade_d = "D"
grade_text grade_c = "C"
grade_text grade_b = "B"
grade_text grade_a = "A"
grade_text grade_a_plus = "A+"

abbrev pub readiness_text : AssessmentReadiness → String
readiness_text not_ready = "Not Ready"
readiness_text partially_ready = "Partially Ready"
readiness_text ready = "Ready"
readiness_text advanced = "Advanced"

abbrev pub answer_text : AnswerLabel → String
answer_text no = "NO"
answer_text not_sure = "NOT SURE"
answer_text partial = "PARTIAL"
answer_text yes = "YES"

abbrev pub status_text : StandardsAlignmentStatus → String
status_text green = "GREEN"
status_text yellow = "YELLOW"
status_text red = "RED"

abbrev pub horizon_text : Horizon → String
horizon_text days_30 = "30 Days"
horizon_text days_90 = "90 Days"
horizon_text days_180 = "180 Days"

-- A number in a template literal.
abbrev pub number_text : Js → ℕ → String
number_text js n = js.text_of_number (js.number n)
