-- ===== src/Assessment/Levels/Coherence.antt =====
-- The four scales of a score, compared.
use agentguard_action_proxy.Common.{ℕ, ◌≡◌, ◌↔◌, ◌⊎◌, arith}
use agentguard_action_proxy.Assessment.Types.{
  AssessmentGrade, grade_d, grade_c, grade_b, grade_a, grade_a_plus, critical_risk, high_risk,
  low_risk, not_ready, partially_ready, advanced,
}
use agentguard_action_proxy.Assessment.Levels.{
  calculate_assessment_risk_level, calculate_assessment_grade, calculate_readiness,
  calculate_maturity_level,
}

-- The place of a grade from D on.
abbrev pub grade_rank : AssessmentGrade → ℕ
grade_rank grade_d = 1
grade_rank grade_c = 2
grade_rank grade_b = 3
grade_rank grade_a = 4
grade_rank grade_a_plus = 5

-- The grade, the readiness, the risk level and the maturity of a score agree: the maturity level is
-- the place of the grade, grade D is a critical risk and not ready, grade C is a high risk and
-- partially ready, and a low risk has grade A or A+ and is advanced.
pub levels_agree :
    (s : ℕ)
    → ((calculate_maturity_level s).level ≡ grade_rank (calculate_assessment_grade s))
      × ((calculate_assessment_grade s ≡ grade_d)
          ↔ (calculate_assessment_risk_level s ≡ critical_risk))
      × ((calculate_assessment_grade s ≡ grade_d) ↔ (calculate_readiness s ≡ not_ready))
      × ((calculate_assessment_grade s ≡ grade_c) ↔ (calculate_assessment_risk_level s ≡ high_risk))
      × ((calculate_assessment_grade s ≡ grade_c) ↔ (calculate_readiness s ≡ partially_ready))
      × ((calculate_assessment_risk_level s ≡ low_risk)
          → ((calculate_assessment_grade s ≡ grade_a)
              ⊎ (calculate_assessment_grade s ≡ grade_a_plus))
            × (calculate_readiness s ≡ advanced))
unfolding calculate_assessment_risk_level calculate_assessment_grade calculate_readiness
    calculate_maturity_level
levels_agree s = ground arith
