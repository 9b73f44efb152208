-- ===== src/Risk/History.antt =====
-- What earlier attempts and a human approval do to the score.
use agentguard_action_proxy.Common.{
  ℕ, ◌+◌, ◌*◌, ◌≤◌, ◌≡◌, min, Bool, true, false, arith, if◌then◌else◌,
}
use agentguard_action_proxy.Js.{Js}
use agentguard_action_proxy.Models.{ActionRequest}
use agentguard_action_proxy.Risk.{
  Tally, zero_tally, add_when, add_history, add_circumstances, add_action_type, capped,
  score_general, score_risk,
}

-- The points for earlier attempts.
abbrev attempt_points : ℕ → ℕ
attempt_points n = min 15 (n * 5)

-- The points for a missing approval.
abbrev approval_points : Bool → ℕ
approval_points h = if h then 0 else 10

add_history-score :
    (n : ℕ) (h : Bool) (t : Tally)
    → (add_history n h t).score ≡ t.score + approval_points h + attempt_points n
unfolding add_history add_when
add_history-score n h t = ground arith

module _ {js : Js} where
  -- The points that the action itself brings.
  base : ActionRequest js → ℕ
  base a = (add_circumstances a (add_action_type a zero_tally)).score

  score_general-sum :
      (a : ActionRequest js) (n : ℕ) (h : Bool)
      → (score_general a n h).score ≡ min 100 (base a + approval_points h + attempt_points n)
  unfolding score_general capped base
  score_general-sum a n h =
      omega (arith, add_history-score n h (add_circumstances a (add_action_type a zero_tally)))

  -- More attempts never lower the score and add 15 points at most; a human approval never raises
  -- the score and takes off 10 points at most.
  pub score_risk-history :
      (a : ActionRequest js) (m n : ℕ) (h : Bool)
      → m ≤ n
      → ((score_risk a m h).score ≤ (score_risk a n h).score)
        × ((score_risk a n h).score ≤ (score_risk a m h).score + 15)
        × ((score_risk a n true).score ≤ (score_risk a n false).score)
        × ((score_risk a n false).score ≤ (score_risk a n true).score + 10)
  unfolding score_risk
  score_risk-history a m n h le = ground (
    arith,
    score_general-sum a m h,
    score_general-sum a n h,
    score_general-sum a n true,
    score_general-sum a n false,
  )
