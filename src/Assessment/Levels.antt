-- ===== src/Assessment/Levels.antt =====
-- ts-agentguard/src/assessment/scoring.ts: the risk level, the grade, the readiness and the maturity
-- of a score.
pub mod Coherence
use agentguard_action_proxy.Common.{ℕ, String, if◌then◌else◌, ltb, leb}
use agentguard_action_proxy.Assessment.Types.{
  AssessmentRiskLevel, critical_risk, high_risk, medium_risk, low_risk, AssessmentGrade, grade_d,
  grade_c, grade_b, grade_a, grade_a_plus, AssessmentReadiness, not_ready, partially_ready, ready,
  advanced, MaturityLevel,
}

unfoldable pub calculate_assessment_risk_level : ℕ → AssessmentRiskLevel
calculate_assessment_risk_level score =
    if ltb score 50
    then critical_risk
    else if ltb score 70
    then high_risk
    else if ltb score 90
    then medium_risk
    else low_risk

unfoldable pub calculate_assessment_grade : ℕ → AssessmentGrade
calculate_assessment_grade score =
    if leb score 49
    then grade_d
    else if leb score 69
    then grade_c
    else if leb score 84
    then grade_b
    else if leb score 94
    then grade_a
    else grade_a_plus

unfoldable pub calculate_readiness : ℕ → AssessmentReadiness
calculate_readiness score =
    if leb score 49
    then not_ready
    else if leb score 69
    then partially_ready
    else if leb score 84
    then ready
    else advanced

abbrev maturity : ℕ → String → String → MaturityLevel
maturity level label display_name = record {
  level = level;
  label = label;
  display_name = display_name;
}

unfoldable pub calculate_maturity_level : ℕ → MaturityLevel
calculate_maturity_level score =
    if leb score 49
    then maturity 1 "Initial" "Level 1 Initial"
    else if leb score 69
    then maturity 2 "Developing" "Level 2 Developing"
    else if leb score 84
    then maturity 3 "Managed" "Level 3 Managed"
    else if leb score 94
    then maturity 4 "Governed" "Level 4 Governed"
    else maturity 5 "Optimized" "Level 5 Optimized"
