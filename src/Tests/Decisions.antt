-- ===== src/Tests/Decisions.antt =====
-- The policy and the risk score on sample requests.
use agentguard_action_proxy.Common.{◌+◌, ◌≡◌, ◌≤◌, ◌↔◌, refl, true, false, arith}
use agentguard_action_proxy.Js.Value.{
  get, nullish_or, truthy, is_true, number_parameter, string_parameter, text_of,
}
use agentguard_action_proxy.Models.{allow, review_required, deny}
use agentguard_action_proxy.Kgld.{is_kgld_lending_action, collateral_value, loan_to_value}
use agentguard_action_proxy.Gold.{is_buy_gold_action, get_gold_action_details}
use agentguard_action_proxy.Policy.{
  evaluate_kgld_policy, evaluate_gold_policy, is_large_budget_change, targets_production,
  has_compromise_signal, evaluate_general_policy, evaluate_named_policy, evaluate_policy,
}
use agentguard_action_proxy.Policy.Denials.{IsDenied, evaluate_policy-deny_iff}
use agentguard_action_proxy.Policy.Lending.{uncollateralised-allow, unordered_grams-allow}
use agentguard_action_proxy.Risk.{
  level, add_when, score_kgld, score_gold, add_action_type, add_circumstances, add_history, capped,
  score_general, score_risk,
}
use agentguard_action_proxy.Risk.Bounds.{IsGraded, score_risk-IsGraded}
use agentguard_action_proxy.Risk.History.{score_risk-history}
use agentguard_action_proxy.Risk.Coherence.{decision_level, kgld_level-decision}
use agentguard_action_proxy.Risk.Floors.{deny-score}
use agentguard_action_proxy.Tests.Toy.{
  fin, status_lookup, deletion, safe_loan, bare_loan, large_purchase, garbled_purchase, not-lt_nan,
}

reading : Unit {0}
unfolding get nullish_or truthy is_true number_parameter string_parameter text_of
    is_kgld_lending_action collateral_value loan_to_value is_buy_gold_action get_gold_action_details
reading = tt

unfoldable pub policy : Unit {0}
unfolding reading evaluate_kgld_policy evaluate_gold_policy is_large_budget_change
    targets_production has_compromise_signal evaluate_general_policy evaluate_named_policy
    evaluate_policy
policy = tt

risk : Unit {0}
unfolding policy level add_when score_kgld score_gold add_action_type add_circumstances add_history
    capped score_general score_risk
risk = tt

decisions :
    ((evaluate_policy status_lookup).decision ≡ allow)
    × ((evaluate_policy deletion).decision ≡ deny)
    × ((evaluate_policy safe_loan).decision ≡ allow)
    × ((evaluate_policy large_purchase).decision ≡ review_required)
unfolding policy
decisions = (refl, refl, refl, refl)

scores :
    ((score_risk deletion 0 false).score ≡ 100)
    × ((score_risk status_lookup 2 false).score ≡ 20)
    × ((score_risk safe_loan 7 false).score ≡ 25)
unfolding risk
scores = (refl, refl, refl)

evaluate_policy-deny_iff_example : ((evaluate_policy deletion).decision ≡ deny) ↔ IsDenied deletion
evaluate_policy-deny_iff_example = evaluate_policy-deny_iff deletion

deny-score_example : 70 ≤ (score_risk deletion 0 true).score
unfolding policy
deny-score_example = deny-score deletion 0 true refl refl

score_risk-IsGraded_example : IsGraded (score_risk deletion 3 false)
score_risk-IsGraded_example = score_risk-IsGraded deletion 3 false

score_risk-history_example :
    ((score_risk status_lookup 1 false).score ≤ (score_risk status_lookup 4 false).score)
    × ((score_risk status_lookup 4 false).score ≤ (score_risk status_lookup 1 false).score + 15)
    × ((score_risk status_lookup 4 true).score ≤ (score_risk status_lookup 4 false).score)
    × ((score_risk status_lookup 4 false).score ≤ (score_risk status_lookup 4 true).score + 10)
score_risk-history_example = score_risk-history status_lookup 1 4 false (omega arith)

kgld_level-decision_example :
    (score_risk safe_loan 0 false).level ≡ decision_level (evaluate_policy safe_loan).decision
unfolding reading
kgld_level-decision_example = kgld_level-decision safe_loan 0 false refl

uncollateralised-allow_example :
    (loan_to_value bare_loan ≡ fin 0) × ((evaluate_policy bare_loan).decision ≡ allow)
unfolding reading
uncollateralised-allow_example = uncollateralised-allow bare_loan refl refl refl refl

unordered_grams-allow_example : (evaluate_policy garbled_purchase).decision ≡ allow
unfolding reading
unordered_grams-allow_example =
    unordered_grams-allow garbled_purchase refl refl refl refl (λ m. (refl, not-lt_nan m))
