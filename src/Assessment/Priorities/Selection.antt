-- ===== src/Assessment/Priorities/Selection.antt =====
-- Which domains become priority risks.
use agentguard_action_proxy.Common.{◌≤◌, ◌<◌, true, false, ◌≡◌, ◌⊎◌, List, arith}
use agentguard_action_proxy.Common.Lists.{length, keep}
use agentguard_action_proxy.Common.Lists.Sorting.{
  In, In-take, length-take, keep-In, In-keep, sort_by-In, In-sort_by,
}
use agentguard_action_proxy.Common.Lists.Lowest.{
  IsRising, GoesByScore, keep-IsRising, sort_by-IsRising, take-IsLowest,
}
use agentguard_action_proxy.Js.{Js}
use agentguard_action_proxy.Assessment.Types.{AssessmentRiskLevel, DomainScore}
use agentguard_action_proxy.Assessment.Priorities.{
  is_low_risk, is_weak, comes_first, sorted_domain_scores, weak_domain_scores,
}

module _ (js : Js) where
  comes_first-GoesByScore : GoesByScore (λ (d : DomainScore). d.score) (comes_first js)
  unfolding comes_first
  comes_first-GoesByScore d e = ground arith

  weak_of_score : (d : DomainScore) → d.score < 70 → is_weak d ≡ true
  unfolding is_weak
  weak_of_score d low = ground arith

  score_of_weak : (d : DomainScore) → is_weak d ≡ true → d.score < 70
  unfolding is_weak
  score_of_weak d weak = ground arith

  module _ (scores : List DomainScore) where
    -- The assessed domains under 70, the lowest score first.
    abbrev candidates : List DomainScore
    candidates = keep is_weak (sorted_domain_scores js scores)

    candidates-IsRising : IsRising (λ (d : DomainScore). d.score) candidates
    unfolding sorted_domain_scores
    candidates-IsRising =
        keep-IsRising (λ (d : DomainScore). d.score) is_weak (sorted_domain_scores js scores)
          (sort_by-IsRising (λ (d : DomainScore). d.score) (comes_first js) comes_first-GoesByScore
            scores)

    In-candidates : (d : DomainScore) → In d candidates → In d scores × (d.score < 70)
    unfolding sorted_domain_scores
    In-candidates d h =
        let kept = In-keep is_weak (sorted_domain_scores js scores) d h in
        (In-sort_by (comes_first js) scores d kept.0, score_of_weak d kept.1)

    candidates-In : (d : DomainScore) → In d scores → d.score < 70 → In d candidates
    unfolding sorted_domain_scores
    candidates-In d h low =
        keep-In is_weak (sorted_domain_scores js scores) d (sort_by-In (comes_first js) scores d h)
          (weak_of_score d low)

    module _ (risk_level : AssessmentRiskLevel) where
      -- The domains that are chosen.
      abbrev pub chosen : List DomainScore
      chosen = weak_domain_scores js scores risk_level

      -- Unless the risk is low, at most three domains are chosen, each an assessed one with a score
      -- under 70; and an assessed domain under 70 that is not chosen gives way to three chosen ones
      -- of which none has a higher score.
      pub chosen-IsLowest :
          is_low_risk risk_level ≡ false
          → (length chosen ≤ 3)
            × ((d : DomainScore) → In d chosen → In d scores × (d.score < 70))
            × ((d : DomainScore)
                → In d scores
                → d.score < 70
                → In d chosen
                  ⊎ ((length chosen ≡ 3) × ((e : DomainScore) → In e chosen → e.score ≤ d.score)))
      unfolding weak_domain_scores
      chosen-IsLowest not_low = rw not_low (
        length-take 3 candidates,
        (λ d h. In-candidates d (In-take 3 candidates d h)),
        (λ d h low.
            take-IsLowest (λ (e : DomainScore). e.score) 3 candidates candidates-IsRising d
              (candidates-In d h low)),
      )
