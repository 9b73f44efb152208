-- ===== src/Policy/Denials.antt =====
-- Which actions the policy denies.
use agentguard_action_proxy.Common.{
  ◌≡◌, ◌≢◌, ◌⊎◌, ◌↔◌, refl, eq_apart, true, false, arith, starts_with, eq_iff,
}
use agentguard_action_proxy.Js.{Js}
use agentguard_action_proxy.Models.{ActionRequest, deny}
use agentguard_action_proxy.Kgld.{is_kgld_lending_action, loan_to_value}
use agentguard_action_proxy.Gold.{
  is_buy_gold_action, get_gold_action_details, gold_allowed_currency, gold_target_prefix,
}
use agentguard_action_proxy.Policy.{
  evaluate_kgld_policy, evaluate_gold_policy, evaluate_general_policy, evaluate_named_policy,
  evaluate_policy, targets_production, has_compromise_signal,
}

module _ {js : Js} where
  abbrev pub IsLoanDenied : ActionRequest js → Type 0
  IsLoanDenied a =
      (js.num_le (loan_to_value a) (js.number 60) ≡ false)
      × (js.num_le (loan_to_value a) (js.number 70) ≡ false)

  abbrev IsGoldDenied : ActionRequest js → Type 0
  IsGoldDenied a =
      ((get_gold_action_details a).currency ≢ gold_allowed_currency)
      ⊎ (starts_with a.target_resource gold_target_prefix ≡ false)
      ⊎ (js.num_lt (js.number 1000) (get_gold_action_details a).gold_amount_grams ≡ true)

  abbrev pub IsNamedDenied : ActionRequest js → Type 0
  IsNamedDenied a =
      ((a.action_type ≡ "github.delete_repository") × (targets_production a ≡ true))
      ⊎ (a.action_type ≡ "github.read_token_attempt")
      ⊎ ((a.action_type ≡ "github.export_secrets") × (has_compromise_signal a ≡ true))

  -- The whole deny list, class by class.
  abbrev pub IsDenied : ActionRequest js → Type 0
  IsDenied a =
      ((is_kgld_lending_action a ≡ true) × IsLoanDenied a)
      ⊎ ((is_kgld_lending_action a ≡ false) × (is_buy_gold_action a ≡ true) × IsGoldDenied a)
      ⊎ ((is_kgld_lending_action a ≡ false) × (is_buy_gold_action a ≡ false) × IsNamedDenied a)

  evaluate_general_policy-ne-deny :
      (a : ActionRequest js) → (evaluate_general_policy a).decision ≢ deny
  unfolding evaluate_general_policy
  evaluate_general_policy-ne-deny a = ground arith

  loan_deny_iff :
      (a : ActionRequest js) → ((evaluate_kgld_policy a).decision ≡ deny) ↔ IsLoanDenied a
  unfolding evaluate_kgld_policy
  loan_deny_iff a = ground arith

  gold_deny_iff :
      (a : ActionRequest js) → ((evaluate_gold_policy a).decision ≡ deny) ↔ IsGoldDenied a
  unfolding evaluate_gold_policy
  gold_deny_iff a =
      ground (arith, eq_iff (get_gold_action_details a).currency gold_allowed_currency)

  named_deny_iff :
      (a : ActionRequest js) → ((evaluate_named_policy a).decision ≡ deny) ↔ IsNamedDenied a
  unfolding evaluate_named_policy
  named_deny_iff a = ground (
    arith,
    evaluate_general_policy-ne-deny a,
    eq_iff a.action_type "github.delete_repository",
    eq_iff a.action_type "github.read_token_attempt",
    eq_iff a.action_type "github.export_secrets",
    eq_apart a.action_type "github.read_token_attempt" "github.change_branch_protection" refl,
    eq_apart a.action_type "github.export_secrets" "github.change_branch_protection" refl,
    eq_apart a.action_type "github.export_secrets" "github.read_token_attempt" refl,
  )

  -- The policy denies an action exactly when it is on the deny list: a loan above both limits, a gold
  -- purchase with another currency, another target or more than 1000 g, the deletion of a production
  -- repository, an attempt to read tokens, or an export of secrets under a compromise signal.
  pub evaluate_policy-deny_iff :
      (a : ActionRequest js) → ((evaluate_policy a).decision ≡ deny) ↔ IsDenied a
  unfolding evaluate_policy
  evaluate_policy-deny_iff a = ground (arith, loan_deny_iff a, gold_deny_iff a, named_deny_iff a)
