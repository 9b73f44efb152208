-- ===== src/Risk/Bounds.antt =====
-- The score and the scale that the levels divide.
use agentguard_action_proxy.Common.{ℕ, ◌≤◌, ◌<◌, Bool, arith}
use agentguard_action_proxy.Js.{Js}
use agentguard_action_proxy.Models.{ActionRequest, RiskLevel, low, medium, high, critical}
use agentguard_action_proxy.Risk.{
  RiskScore, Tally, zero_tally, add_action_type, add_circumstances, add_history, level, capped,
  score_kgld, score_gold, score_general, score_risk,
}

-- The scores that a level stands for.
unfoldable pub IsLevelOf : RiskLevel → ℕ → Type 0
IsLevelOf low score = score < 40
IsLevelOf medium score = (40 ≤ score) × (score < 70)
IsLevelOf high score = (70 ≤ score) × (score < 90)
IsLevelOf critical score = 90 ≤ score

-- A score from 0 to 100 with the level that belongs to it.
pub record IsGraded (r : RiskScore) : Type 0 where
  pub within : r.score ≤ 100
  pub graded : IsLevelOf r.level r.score

level-IsLevelOf : (score : ℕ) → IsLevelOf (level score) score
unfolding level IsLevelOf
level-IsLevelOf score = ground arith

capped-IsGraded : (t : Tally) → IsGraded (capped t)
unfolding capped
capped-IsGraded t = record { within = omega arith; graded = level-IsLevelOf _ }

module _ {js : Js} where
  score_kgld-IsGraded : (a : ActionRequest js) → IsGraded (score_kgld a)
  unfolding score_kgld IsLevelOf
  score_kgld-IsGraded a = ground arith

  score_gold-IsGraded : (a : ActionRequest js) → IsGraded (score_gold a)
  unfolding score_gold IsLevelOf
  score_gold-IsGraded a = ground arith

  -- Every risk score lies between 0 and 100, and its level is low below 40, medium from 40 and below
  -- 70, high from 70 and below 90, and critical from 90, on the fixed scores of loans and gold
  -- purchases as on the computed ones.
  pub score_risk-IsGraded :
      (a : ActionRequest js) (repeated_attempts : ℕ) (has_human_approval : Bool)
      → IsGraded (score_risk a repeated_attempts has_human_approval)
  unfolding score_risk score_general
  score_risk-IsGraded a n h = ground (
    arith,
    score_kgld-IsGraded a,
    score_gold-IsGraded a,
    capped-IsGraded (add_history n h (add_circumstances a (add_action_type a zero_tally))),
  )
