-- ===== src/Assessment/Scores/Growth.antt =====
-- How the scores change with the answers.
use agentguard_action_proxy.Common.{◌≤◌, String, List, [], ◌∷◌, arith}
use agentguard_action_proxy.Common.Dict.{Dict}
use agentguard_action_proxy.Common.Lists.{sum_of}
use agentguard_action_proxy.Assessment.Types.{Domain, AnswerValue, Question}
use agentguard_action_proxy.Assessment.Questions.{domains}
use agentguard_action_proxy.Assessment.Scores.{
  points_for, domain_questions, domain_total, domain_score, domain_scores_of, total_score_of,
}
use agentguard_action_proxy.Assessment.Scores.Bounds.{
  sum_of_scores, domain_score-total, total_score-sum,
}

module _ (old new : Dict AnswerValue) where
  -- Every question has at least as many points.
  abbrev IsBetter : Type 0
  IsBetter = (id : String) → points_for old id ≤ points_for new id

  module _ (better : IsBetter) where
    total_le :
        (qs : List Question)
        → sum_of (λ q. points_for old q.id) qs ≤ sum_of (λ q. points_for new q.id) qs
    unfolding sum_of
    total_le [] = omega arith
    total_le (q ∷ qs) = let head = better q.id in let tail = total_le qs in omega arith

    score_le : (d : Domain) → (domain_score old d).score ≤ (domain_score new d).score
    unfolding domain_total
    score_le d =
        let before = domain_score-total old d in
        let after = domain_score-total new d in
        let grown = total_le (domain_questions d) in omega arith

    sum_of_scores_le : (ds : List Domain) → sum_of_scores old ds ≤ sum_of_scores new ds
    unfolding sum_of
    sum_of_scores_le [] = omega arith
    sum_of_scores_le (d ∷ ds) =
        let head = score_le d in let tail = sum_of_scores_le ds in omega arith

    -- If every question has at least as many points as before, no score of a domain and no total
    -- score is lower than before.
    pub better_answers_lem :
        ((d : Domain) → (domain_score old d).score ≤ (domain_score new d).score)
        × (total_score_of (domain_scores_of old) ≤ total_score_of (domain_scores_of new))
    better_answers_lem = (
      score_le,
      (let sums = sum_of_scores_le domains in
          rw (total_score-sum old, total_score-sum new) (omega arith)),
    )
