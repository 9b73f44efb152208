-- ===== src/Assessment/Recommendations/Numbering.antt =====
-- How the recommendations are counted and ordered.
use agentguard_action_proxy.Common.{
  ℕ, suc, ◌≤◌, ◌≡◌, refl, ap, inl, inr, Bool-cases, Option, List, [], ◌∷◌, arith, leb,
}
use agentguard_action_proxy.Common.Lists.{length, take}
use agentguard_action_proxy.Common.Lists.Sorting.{length-take}
use agentguard_action_proxy.Js.{Js}
use agentguard_action_proxy.Assessment.Types.{AssessmentResult}
use agentguard_action_proxy.Assessment.Industry.{IndustryType}
use agentguard_action_proxy.Assessment.Recommendations.{
  Advice, Recommendation, advice_for, numbered_from, ordered_domains, generate_recommendations,
}

-- The priorities count up from `n`.
unfoldable IsNumbered : ℕ → List Recommendation → Type 0
IsNumbered n [] = Unit
IsNumbered n (r ∷ rs) = (r.priority ≡ suc n) × IsNumbered (suc n) rs

numbered_from-IsNumbered : (n : ℕ) (items : List Advice) → IsNumbered n (numbered_from n items)
unfolding IsNumbered numbered_from
numbered_from-IsNumbered n [] = tt
numbered_from-IsNumbered n (item ∷ items) = (refl, numbered_from-IsNumbered (suc n) items)

length-numbered_from : (n : ℕ) (items : List Advice) → length (numbered_from n items) ≡ length items
unfolding length numbered_from
length-numbered_from n [] = refl
length-numbered_from n (item ∷ items) = ap suc (length-numbered_from (suc n) items)

module _ (js : Js) where
  -- The recommendations for any result and industry are numbered from 1 on without a gap, and there
  -- are five at most.
  recommendations-IsNumbered :
      (result : AssessmentResult) (industry : Option IndustryType)
      → IsNumbered 0 (generate_recommendations js result industry)
        × (length (generate_recommendations js result industry) ≤ 5)
  unfolding generate_recommendations IsNumbered length
  recommendations-IsNumbered result industry = elim (Bool-cases (leb 90 result.total_score)) [
    | inl mature ↦ rw mature ((refl, tt), omega arith)
    | inr weak ↦ rw weak (numbered_from-IsNumbered 0 advices, five)
  ]
    where
      advices : List Advice
      advices = take 5 (advice_for industry (ordered_domains js result industry))

      five : length (numbered_from 0 advices) ≤ 5
      five =
          rw (length-numbered_from 0 advices)
            (length-take 5 (advice_for industry (ordered_domains js result industry)))
