-- ===== src/Assessment/Scores/Bounds.antt =====
-- The scores and the points of the answers.
use agentguard_action_proxy.Common.{
  ℕ, ◌+◌, ◌*◌, ◌/◌, ◌≤◌, String, ◌≡◌, refl, List, [], ◌∷◌, map, arith,
}
use agentguard_action_proxy.Common.Dict.{Dict}
use agentguard_action_proxy.Common.Lists.{length, keep, sum_of}
use agentguard_action_proxy.Assessment.Types.{
  Domain, financial_actions, ai_risk_management, privacy_data_protection,
  model_governance_human_oversight, strategic_governance, AnswerValue, Question,
}
use agentguard_action_proxy.Assessment.Questions.{domains}
use agentguard_action_proxy.Assessment.Scores.{
  round_ratio, points_for, domain_questions, domain_total, domain_score, domain_scores_of,
  total_score_of,
}

points_for-le : (values : Dict AnswerValue) (id : String) → points_for values id ≤ 4
unfolding points_for
points_for-le values id = ground arith

sum_of-le :
    (values : Dict AnswerValue) (qs : List Question)
    → sum_of (λ q. points_for values q.id) qs ≤ length qs * 4
unfolding sum_of length
sum_of-le values [] = omega arith
sum_of-le values (q ∷ qs) =
    let head = points_for-le values q.id in let tail = sum_of-le values qs in omega arith

five_questions : (d : Domain) → length (domain_questions d) ≡ 5
unfolding length domain_questions keep
five_questions financial_actions = refl
five_questions ai_risk_management = refl
five_questions privacy_data_protection = refl
five_questions model_governance_human_oversight = refl
five_questions strategic_governance = refl

domain_total-le : (values : Dict AnswerValue) (d : Domain) → domain_total values d ≤ 20
unfolding domain_total
domain_total-le values d =
    let all = sum_of-le values (domain_questions d) in let five = five_questions d in omega arith

pub domain_score-total :
    (values : Dict AnswerValue) (d : Domain)
    → (domain_score values d).score ≡ 5 * domain_total values d
unfolding domain_score round_ratio
domain_score-total values d = rw (five_questions d) (omega arith)

-- The scores of some domains, added.
abbrev pub sum_of_scores : Dict AnswerValue → List Domain → ℕ
sum_of_scores values ds = sum_of (λ s. s.score) (map (domain_score values) ds)

sum_of_scores-le :
    (values : Dict AnswerValue) (ds : List Domain) → sum_of_scores values ds ≤ length ds * 100
unfolding sum_of length
sum_of_scores-le values [] = omega arith
sum_of_scores-le values (d ∷ ds) =
    let exact = domain_score-total values d in
    let small = domain_total-le values d in let tail = sum_of_scores-le values ds in omega arith

-- The total is the rounded fifth of the sum.
pub total_score-sum :
    (values : Dict AnswerValue)
    → total_score_of (domain_scores_of values) ≡ (2 * sum_of_scores values domains + 5) / 10
unfolding total_score_of domain_scores_of round_ratio length
total_score-sum values = refl

five_hundred : (values : Dict AnswerValue) → sum_of_scores values domains ≤ 500
unfolding length
five_hundred values = sum_of_scores-le values domains

-- Whatever is answered, the score of a domain is five times the points of its answers, and it and
-- the total score are 100 at most.
pub scores-IsPercentage :
    (values : Dict AnswerValue)
    → ((d : Domain)
        → ((domain_score values d).score ≡ 5 * domain_total values d)
          × ((domain_score values d).score ≤ 100))
      × (total_score_of (domain_scores_of values) ≤ 100)
scores-IsPercentage values = (
  (λ d. (domain_score-total values d, score-le d)),
  (let all = five_hundred values in rw (total_score-sum values) (omega arith)),
)
  where
    score-le : (d : Domain) → (domain_score values d).score ≤ 100
    score-le d =
        let exact = domain_score-total values d in
        let small = domain_total-le values d in omega arith
