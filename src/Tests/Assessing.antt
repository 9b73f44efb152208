-- ===== src/Tests/Assessing.antt =====
-- The assessment on sample answers.
use agentguard_action_proxy.Common.{
  ◌*◌, ◌≡◌, ◌≤◌, ◌<◌, ◌↔◌, ◌⊎◌, refl, false, String, List, [], ◌∷◌, arith,
}
use agentguard_action_proxy.Common.Dict.{Dict, insert, lookup}
use agentguard_action_proxy.Common.Lists.{length, keep, sum_of}
use agentguard_action_proxy.Common.Lists.Sorting.{In}
use agentguard_action_proxy.Assessment.Types.{
  Domain, privacy_data_protection, ai_risk_management, AnswerValue, part_of_it, all_of_it,
  AssessmentAnswer, DomainScore, grade_d, grade_c, grade_a, grade_a_plus, critical_risk, high_risk,
  low_risk, not_ready, partially_ready, advanced,
}
use agentguard_action_proxy.Assessment.Levels.{
  calculate_assessment_risk_level, calculate_assessment_grade, calculate_readiness,
  calculate_maturity_level,
}
use agentguard_action_proxy.Assessment.Levels.Coherence.{grade_rank, levels_agree}
use agentguard_action_proxy.Assessment.Scores.{
  round_ratio, add_answers, answer_values, points_for, domain_questions, domain_total, domain_score,
  domain_scores_of, total_score_of,
}
use agentguard_action_proxy.Assessment.Scores.Bounds.{scores-IsPercentage}
use agentguard_action_proxy.Assessment.Scores.Growth.{better_answers_lem}
use agentguard_action_proxy.Assessment.Priorities.{is_low_risk}
use agentguard_action_proxy.Assessment.Priorities.Selection.{chosen, chosen-IsLowest}
use agentguard_action_proxy.Assessment.Summary.{evaluate_assessment}
use agentguard_action_proxy.Assessment.Industry.{healthcare}
use agentguard_action_proxy.Assessment.Scenario.{low, high, business_scenario_for}
use agentguard_action_proxy.Assessment.Scenario.Likelihood.{trigger_points, scenario_rating}
use agentguard_action_proxy.Tests.Toy.{toy}

-- Two good answers on privacy, and nothing else.
abbrev few_answers : List AssessmentAnswer
few_answers =
    record { question_id = "privacy_data_protection_1"; value = all_of_it }
    ∷ record { question_id = "privacy_data_protection_2"; value = part_of_it }
    ∷ []

abbrev few_values : Dict AnswerValue
few_values = answer_values few_answers

abbrev low_scores : List DomainScore
low_scores = domain_scores_of few_values

scoring : Unit {0}
unfolding insert lookup length keep sum_of round_ratio add_answers answer_values points_for
    domain_questions domain_total domain_score domain_scores_of total_score_of
scoring = tt

few_scores :
    ((domain_score few_values privacy_data_protection).score ≡ 30)
    × ((domain_score few_values ai_risk_management).score ≡ 0)
    × (total_score_of low_scores ≡ 6)
unfolding scoring
few_scores = (refl, refl, refl)

levels_agree_example :
    ((calculate_maturity_level 95).level ≡ grade_rank (calculate_assessment_grade 95))
    × ((calculate_assessment_grade 95 ≡ grade_d)
        ↔ (calculate_assessment_risk_level 95 ≡ critical_risk))
    × ((calculate_assessment_grade 95 ≡ grade_d) ↔ (calculate_readiness 95 ≡ not_ready))
    × ((calculate_assessment_grade 95 ≡ grade_c) ↔ (calculate_assessment_risk_level 95 ≡ high_risk))
    × ((calculate_assessment_grade 95 ≡ grade_c) ↔ (calculate_readiness 95 ≡ partially_ready))
    × ((calculate_assessment_risk_level 95 ≡ low_risk)
        → ((calculate_assessment_grade 95 ≡ grade_a)
            ⊎ (calculate_assessment_grade 95 ≡ grade_a_plus))
          × (calculate_readiness 95 ≡ advanced))
levels_agree_example = levels_agree 95

scores-IsPercentage_example :
    ((d : Domain)
      → ((domain_score few_values d).score ≡ 5 * domain_total few_values d)
        × ((domain_score few_values d).score ≤ 100))
    × (total_score_of low_scores ≤ 100)
scores-IsPercentage_example = scores-IsPercentage few_values

nothing_less : (id : String) → points_for [] id ≤ points_for few_values id
unfolding points_for lookup
nothing_less id = omega arith

better_answers_lem_example :
    ((d : Domain) → (domain_score [] d).score ≤ (domain_score few_values d).score)
    × (total_score_of (domain_scores_of []) ≤ total_score_of low_scores)
better_answers_lem_example = better_answers_lem [] few_values nothing_less

not_low : is_low_risk critical_risk ≡ false
unfolding is_low_risk
not_low = refl

chosen-IsLowest_example :
    (length (chosen toy low_scores critical_risk) ≤ 3)
    × ((d : DomainScore)
        → In d (chosen toy low_scores critical_risk)
        → In d low_scores × (d.score < 70))
    × ((d : DomainScore)
        → In d low_scores
        → d.score < 70
        → In d (chosen toy low_scores critical_risk)
          ⊎ ((length (chosen toy low_scores critical_risk) ≡ 3)
              × ((e : DomainScore)
                  → In e (chosen toy low_scores critical_risk)
                  → e.score ≤ d.score)))
chosen-IsLowest_example = chosen-IsLowest toy low_scores critical_risk not_low

scenario_rating_example :
    (((business_scenario_for (evaluate_assessment toy few_answers) healthcare).likelihood ≡ high)
      ↔ (trigger_points toy few_answers healthcare ≡ 0))
    × (((business_scenario_for (evaluate_assessment toy few_answers) healthcare).likelihood ≡ low)
        ↔ (1 ≤ trigger_points toy few_answers healthcare))
    × ((3 ≤ trigger_points toy few_answers healthcare)
        → ((business_scenario_for (evaluate_assessment toy few_answers) healthcare).severity ≡ low))
scenario_rating_example = scenario_rating toy few_answers healthcare
