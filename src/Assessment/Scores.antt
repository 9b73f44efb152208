-- ===== src/Assessment/Scores.antt =====
-- ts-agentguard/src/assessment/scoring.ts, the scores of `evaluateAssessment`.
pub mod Bounds
pub mod Growth
use agentguard_action_proxy.Common.{ℕ, ◌+◌, ◌*◌, ◌/◌, String, none, some, List, [], ◌∷◌, map}
use agentguard_action_proxy.Common.Dict.{Dict, insert, lookup}
use agentguard_action_proxy.Common.Lists.{length, keep, sum_of}
use agentguard_action_proxy.Assessment.Types.{
  Domain, is_domain, Question, AnswerValue, points, AssessmentAnswer, DomainScore,
}
use agentguard_action_proxy.Assessment.Questions.{domain_label, domains, assessment_questions}

-- `Math.round(n / d)`: a half is rounded up.
unfoldable pub round_ratio : ℕ → ℕ → ℕ
round_ratio n d = (2 * n + d) / (2 * d)

-- `Object.fromEntries`: the last answer to a question counts.
unfoldable pub add_answers : Dict AnswerValue → List AssessmentAnswer → Dict AnswerValue
add_answers values [] = values
add_answers values (a ∷ rest) = add_answers (insert a.question_id a.value values) rest

unfoldable pub answer_values : List AssessmentAnswer → Dict AnswerValue
unfolding add_answers
answer_values answers = add_answers [] answers

-- `answerValues[id] ?? 0`.
unfoldable pub points_for : Dict AnswerValue → String → ℕ
points_for values id = elim (lookup id values) [ none ↦ 0 | some v ↦ points v ]

unfoldable pub domain_questions : Domain → List Question
domain_questions d = keep (λ q. is_domain q.domain d) assessment_questions

unfoldable pub domain_total : Dict AnswerValue → Domain → ℕ
domain_total values d = sum_of (λ q. points_for values q.id) (domain_questions d)

-- The source computes with doubles; their error is far below the half at which rounding changes.
unfoldable pub domain_score : Dict AnswerValue → Domain → DomainScore
domain_score values d = record {
  domain = d;
  label = domain_label d;
  score = round_ratio (domain_total values d * 100) (length (domain_questions d) * 4);
  max_score = 100;
}

unfoldable pub domain_scores_of : Dict AnswerValue → List DomainScore
domain_scores_of values = map (domain_score values) domains

unfoldable pub total_score_of : List DomainScore → ℕ
total_score_of scores = round_ratio (sum_of (λ d. d.score) scores) (length scores)
