-- ===== src/Policy/Lending.antt =====
-- Loans without collateral, and amounts that are no numbers.
use agentguard_action_proxy.Common.{◌≡◌, true, false, arith, starts_with, eq_iff}
use agentguard_action_proxy.Js.{Js}
use agentguard_action_proxy.Js.Value.{get, number_parameter}
use agentguard_action_proxy.Models.{ActionRequest, allow, deny}
use agentguard_action_proxy.Kgld.{is_kgld_lending_action, collateral_value, loan_to_value}
use agentguard_action_proxy.Gold.{
  is_buy_gold_action, get_gold_action_details, gold_allowed_currency, gold_target_prefix,
}
use agentguard_action_proxy.Policy.{evaluate_kgld_policy, evaluate_gold_policy, evaluate_policy}

-- A number that is neither at most nor above another one: NaN.
abbrev IsUnordered : (js : Js) → js.Number → Type 0
IsUnordered js n = (m : js.Number) → (js.num_le n m ≡ false) × (js.num_lt m n ≡ false)

module _ {js : Js} where
  -- A loan for which neither a ratio nor a positive collateral value is stated is allowed, however
  -- large the loan amount: the ratio then counts as 0.
  pub uncollateralised-allow :
      (a : ActionRequest js)
      → is_kgld_lending_action a ≡ true
      → js.num_truthy (number_parameter (get "ltv" a.context)) ≡ false
      → js.num_lt (js.number 0) (collateral_value a) ≡ false
      → js.num_le (js.number 0) (js.number 60) ≡ true
      → (loan_to_value a ≡ js.number 0) × ((evaluate_policy a).decision ≡ allow)
  unfolding loan_to_value evaluate_policy evaluate_kgld_policy
  uncollateralised-allow a kgld ltv collateral order = ground arith

  -- A gold purchase in the allowed currency from an allowed vault whose amount reads as NaN is
  -- allowed, like one of at most 100 g.
  pub unordered_grams-allow :
      (a : ActionRequest js)
      → is_kgld_lending_action a ≡ false
      → is_buy_gold_action a ≡ true
      → (get_gold_action_details a).currency ≡ gold_allowed_currency
      → starts_with a.target_resource gold_target_prefix ≡ true
      → IsUnordered js (get_gold_action_details a).gold_amount_grams
      → (evaluate_policy a).decision ≡ allow
  unfolding evaluate_policy evaluate_gold_policy
  unordered_grams-allow a kgld gold currency target nan = ground (
    arith,
    nan (js.number 1000),
    nan (js.number 100),
    eq_iff (get_gold_action_details a).currency gold_allowed_currency,
  )

  -- A loan whose ratio is NaN is denied.
  unordered_ltv-deny :
      (a : ActionRequest js)
      → is_kgld_lending_action a ≡ true
      → IsUnordered js (loan_to_value a)
      → (evaluate_policy a).decision ≡ deny
  unfolding evaluate_policy evaluate_kgld_policy
  unordered_ltv-deny a kgld nan = ground (arith, nan (js.number 60), nan (js.number 70))
