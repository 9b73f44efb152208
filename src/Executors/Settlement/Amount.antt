-- ===== src/Executors/Settlement/Amount.antt =====
-- The amount that is settled, and what the policy and the risk score know of it.
use agentguard_action_proxy.Common.{ℕ, String, Bool, ◌≡◌}
use agentguard_action_proxy.Js.{Js}
use agentguard_action_proxy.Js.Value.{str, assign, get-assign, text_of}
use agentguard_action_proxy.Models.{ActionRequest}
use agentguard_action_proxy.Kgld.{is_kgld_lending_action, collateral_value, loan_to_value}
use agentguard_action_proxy.Gold.{is_buy_gold_action, get_gold_action_details}
use agentguard_action_proxy.Policy.{
  evaluate_kgld_policy, evaluate_gold_policy, evaluate_named_policy, evaluate_general_policy,
  is_large_budget_change, targets_production, has_compromise_signal, evaluate_policy,
}
use agentguard_action_proxy.Risk.{
  score_kgld, score_gold, add_action_type, add_circumstances, score_general, score_risk,
}
use agentguard_action_proxy.Executors.Settlement.{Environment, settlement_request}
use agentguard_action_proxy.Executors.Settlement.Reading.{read_string}

module _ {js : Js} (a : ActionRequest js) (amount : String) where
  -- The action with another settlement amount.
  abbrev pub with_amount : ActionRequest js
  with_amount = record a { parameters = assign "settlementAmount" (str amount) a.parameters }

  same_ltv : loan_to_value with_amount ≡ loan_to_value a
  unfolding loan_to_value collateral_value
  same_ltv = simp get-assign

  same_gold : get_gold_action_details with_amount ≡ get_gold_action_details a
  unfolding get_gold_action_details
  same_gold = simp get-assign

  same_budget : is_large_budget_change with_amount ≡ is_large_budget_change a
  unfolding is_large_budget_change
  same_budget = simp get-assign

  same_policy : evaluate_policy with_amount ≡ evaluate_policy a
  unfolding evaluate_policy evaluate_kgld_policy evaluate_gold_policy evaluate_named_policy
      evaluate_general_policy is_kgld_lending_action is_buy_gold_action targets_production
      has_compromise_signal
  same_policy = simp (same_ltv, same_gold, same_budget)

  same_risk : (n : ℕ) (h : Bool) → score_risk with_amount n h ≡ score_risk a n h
  unfolding score_risk score_kgld score_gold score_general add_action_type add_circumstances
      is_kgld_lending_action is_buy_gold_action targets_production
  same_risk n h = simp (same_ltv, same_gold, same_budget)

  -- The amount that the orchestrator is asked to transfer is the text given as settlementAmount; the
  -- policy and the risk score of the action are the same for every such text.
  pub settlement_amount_free :
      (env : Environment) (n : ℕ) (h : Bool)
      → ((settlement_request env with_amount).amount ≡ amount)
        × (evaluate_policy with_amount ≡ evaluate_policy a)
        × (score_risk with_amount n h ≡ score_risk a n h)
  unfolding settlement_request read_string text_of
  settlement_amount_free env n h = (simp get-assign, same_policy, same_risk n h)
