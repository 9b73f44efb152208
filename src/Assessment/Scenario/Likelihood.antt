-- ===== src/Assessment/Scenario/Likelihood.antt =====
-- How the scenario engine rates an assessed organisation.
use agentguard_action_proxy.Common.{
  ℕ, ◌*◌, ◌≤◌, ◌≡◌, ◌↔◌, refl, ◌∙◌, List, if◌then◌else◌, leb, arith,
}
use agentguard_action_proxy.Common.Lists.{find_first}
use agentguard_action_proxy.Js.{Js}
use agentguard_action_proxy.Assessment.Types.{
  Domain, financial_actions, ai_risk_management, privacy_data_protection,
  model_governance_human_oversight, strategic_governance, AssessmentAnswer,
}
use agentguard_action_proxy.Assessment.Scores.{
  answer_values, domain_total, domain_score, domain_scores_of,
}
use agentguard_action_proxy.Assessment.Scores.Bounds.{domain_score-total}
use agentguard_action_proxy.Assessment.Summary.{evaluate_assessment}
use agentguard_action_proxy.Assessment.Industry.{
  IndustryType, financial, manufacturing, healthcare, public, technology,
}
use agentguard_action_proxy.Assessment.Scenario.{
  low, high, scenario_library, score_for_domain, business_scenario_for, likelihood_for,
  impact_score_for,
}

same_threshold : (i : IndustryType) → (scenario_library i).threshold ≡ 3
same_threshold financial = refl
same_threshold manufacturing = refl
same_threshold healthcare = refl
same_threshold public = refl
same_threshold technology = refl

-- The ratings of a score that is five times the points.
rating_at :
    (score points threshold : ℕ)
    → score ≡ 5 * points
    → threshold ≡ 3
    → (((if leb score threshold then likelihood_for score else low) ≡ high) ↔ (points ≡ 0))
      × (((if leb score threshold then likelihood_for score else low) ≡ low) ↔ (1 ≤ points))
      × ((3 ≤ points) → (impact_score_for score ≡ low))
unfolding likelihood_for impact_score_for
rating_at score points threshold five three = ground arith

module _ (js : Js) (answers : List AssessmentAnswer) where
  -- The scenario engine reads the score of its domain.
  score_for_domain-evaluate :
      (d : Domain)
      → score_for_domain (evaluate_assessment js answers) d
        ≡ (domain_score (answer_values answers) d).score
  unfolding score_for_domain evaluate_assessment domain_scores_of find_first domain_score
  score_for_domain-evaluate financial_actions = refl
  score_for_domain-evaluate ai_risk_management = refl
  score_for_domain-evaluate privacy_data_protection = refl
  score_for_domain-evaluate model_governance_human_oversight = refl
  score_for_domain-evaluate strategic_governance = refl

  -- The points of the domain that triggers the scenario of an industry.
  abbrev pub trigger_points : IndustryType → ℕ
  trigger_points i = domain_total (answer_values answers) (scenario_library i).trigger_domain

  -- The scenario of an organisation that was assessed is highly likely exactly when no question of
  -- its domain has any points, and of low likelihood exactly when one has; it is never of medium
  -- likelihood. From three of the twenty points on its severity is low too.
  pub scenario_rating :
      (i : IndustryType)
      → (((business_scenario_for (evaluate_assessment js answers) i).likelihood ≡ high)
          ↔ (trigger_points i ≡ 0))
        × (((business_scenario_for (evaluate_assessment js answers) i).likelihood ≡ low)
            ↔ (1 ≤ trigger_points i))
        × ((3 ≤ trigger_points i)
            → ((business_scenario_for (evaluate_assessment js answers) i).severity ≡ low))
  unfolding business_scenario_for
  scenario_rating i =
      rating_at
        (score_for_domain (evaluate_assessment js answers) (scenario_library i).trigger_domain)
        (trigger_points i) (scenario_library i).threshold
        (score_for_domain-evaluate (scenario_library i).trigger_domain
          ∙ domain_score-total (answer_values answers) (scenario_library i).trigger_domain)
        (same_threshold i)
