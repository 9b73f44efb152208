-- ===== src/Risk/Coherence.antt =====
-- The policy and the risk score on loans and gold purchases.
use agentguard_action_proxy.Common.{ℕ, ◌≡◌, Bool, true, false, arith, starts_with, eq_iff}
use agentguard_action_proxy.Js.{Js}
use agentguard_action_proxy.Models.{
  ActionRequest, Decision, allow, review_required, deny, RiskLevel, low, medium, critical,
}
use agentguard_action_proxy.Kgld.{is_kgld_lending_action}
use agentguard_action_proxy.Gold.{
  is_buy_gold_action, get_gold_action_details, gold_allowed_currency, gold_target_prefix,
}
use agentguard_action_proxy.Policy.{evaluate_kgld_policy, evaluate_gold_policy, evaluate_policy}
use agentguard_action_proxy.Risk.{score_kgld, score_gold, score_risk}

-- The level that goes with each decision.
abbrev pub decision_level : Decision → RiskLevel
decision_level allow = low
decision_level review_required = medium
decision_level deny = critical

module _ {js : Js} where
  -- For a KGLD loan the risk level says what the policy says: low for ALLOW, medium for
  -- REVIEW_REQUIRED and critical for DENY, whatever the attempts and the approval.
  pub kgld_level-decision :
      (a : ActionRequest js) (n : ℕ) (h : Bool)
      → is_kgld_lending_action a ≡ true
      → (score_risk a n h).level ≡ decision_level (evaluate_policy a).decision
  unfolding score_risk evaluate_policy score_kgld evaluate_kgld_policy
  kgld_level-decision a n h kgld = ground arith

  -- So it does for a gold purchase in the allowed currency from an allowed vault.
  gold_level-decision :
      (a : ActionRequest js) (n : ℕ) (h : Bool)
      → is_kgld_lending_action a ≡ false
      → is_buy_gold_action a ≡ true
      → (get_gold_action_details a).currency ≡ gold_allowed_currency
      → starts_with a.target_resource gold_target_prefix ≡ true
      → (score_risk a n h).level ≡ decision_level (evaluate_policy a).decision
  unfolding score_risk evaluate_policy score_gold evaluate_gold_policy
  gold_level-decision a n h kgld gold currency target =
      ground (arith, eq_iff (get_gold_action_details a).currency gold_allowed_currency)
