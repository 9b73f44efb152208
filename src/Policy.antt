-- ===== src/Policy.antt =====
-- ts-agentguard/src/policy.ts: the decision on a requested action.
pub mod Denials
pub mod Lending
use agentguard_action_proxy.Common.{
  String, Bool, List, [], ◌∷◌, ◌==◌, ◌&&◌, ◌||◌, not, if◌then◌else◌, starts_with, ends_with,
  includes,
}
use agentguard_action_proxy.Js.{Js}
use agentguard_action_proxy.Js.Value.{get, truthy, is_true, number_parameter}
use agentguard_action_proxy.Models.{ActionRequest, Decision, allow, review_required, deny}
use agentguard_action_proxy.Kgld.{is_kgld_lending_action, loan_to_value}
use agentguard_action_proxy.Gold.{
  is_buy_gold_action, get_gold_action_details, gold_allowed_currency, gold_target_prefix,
}

pub record PolicyEvaluation : Type 0 where
  pub decision : Decision
  pub matched_policies : List String
  pub reason : String

-- Each branch of the source pushes one policy and returns.
abbrev matched : Decision → String → String → PolicyEvaluation
matched d policy why = record { decision = d; matched_policies = policy ∷ []; reason = why }

module _ {js : Js} where
  -- The branch on KGLD loans.
  unfoldable pub evaluate_kgld_policy : ActionRequest js → PolicyEvaluation
  evaluate_kgld_policy a =
      if js.num_le (loan_to_value a) (js.number 60)
      then matched allow "allow_kgld_ltv_up_to_60"
          "KGLD collateralized RLUSD loan is within safe LTV limit."
      else if js.num_le (loan_to_value a) (js.number 70)
      then matched review_required "require_additional_kgld_collateral"
          "Additional KGLD collateral is required before RLUSD loan settlement."
      else matched deny "deny_kgld_ltv_over_70" "LTV exceeds maximum risk threshold."

  -- The branch on purchases of gold.
  unfoldable pub evaluate_gold_policy : ActionRequest js → PolicyEvaluation
  evaluate_gold_policy a =
      if not ((get_gold_action_details a).currency == gold_allowed_currency)
      then matched deny "deny_gold_currency_not_allowed" "Gold purchases are only allowed with XRP."
      else if not (starts_with a.target_resource gold_target_prefix)
      then matched deny "deny_gold_target_not_allowed"
          "Gold purchases are only allowed for gold:vault_* targets."
      else if js.num_lt (js.number 1000) (get_gold_action_details a).gold_amount_grams
      then matched deny "deny_gold_amount_over_1000g" "Gold purchases over 1000g are denied."
      else if js.num_lt (js.number 100) (get_gold_action_details a).gold_amount_grams
      then matched review_required "review_gold_amount_101_to_1000g"
          "Gold purchases from 101g to 1000g require human review."
      else matched allow "allow_gold_amount_up_to_100g" "Gold purchases up to 100g are allowed."

  -- `before > 0 && after / before >= 10`.
  unfoldable pub is_large_budget_change : ActionRequest js → Bool
  is_large_budget_change a =
      let before = number_parameter (get "current_budget" a.parameters) in
      let after = number_parameter (get "new_budget" a.parameters) in
      js.num_lt (js.number 0) before && js.num_le (js.number 10) (js.div after before)

  unfoldable pub targets_production : ActionRequest js → Bool
  targets_production a = includes (js.to_lower_case a.target_resource) "production"

  unfoldable pub has_compromise_signal : ActionRequest js → Bool
  has_compromise_signal a =
      truthy (get "prompt_injection_detected" a.context)
      || truthy (get "tool_poisoning_detected" a.context)

  -- What follows the branches on named action types.
  unfoldable pub evaluate_general_policy : ActionRequest js → PolicyEvaluation
  evaluate_general_policy a =
      if a.action_type == "browser.update_ad_budget" && is_large_budget_change a
      then matched review_required "review_large_budget_change"
          "Budget increase >=10x requires approval."
      else if ends_with a.action_type ".share_external"
      then matched review_required "review_external_sharing" "External sharing requires approval."
      else if is_true (get "admin_level_action" a.context)
      then matched review_required "review_admin_level_action"
          "Admin-level actions require approval."
      else matched allow "default_allow" "No blocking policy matched."

  -- The branches on named action types.
  unfoldable pub evaluate_named_policy : ActionRequest js → PolicyEvaluation
  evaluate_named_policy a =
      if a.action_type == "github.delete_repository" && targets_production a
      then matched deny "deny_production_repository_delete"
          "Deleting a production repository is blocked by policy."
      else if a.action_type == "github.change_branch_protection"
      then matched review_required "review_branch_protection_change"
          "Branch protection changes require human approval."
      else if a.action_type == "github.read_token_attempt"
      then matched deny "deny_credential_access_attempt" "Credential access attempt is denied."
      else if a.action_type == "github.export_secrets"
      then if has_compromise_signal a
        then matched deny "deny_secret_export_under_compromise_signal"
            "Secret export is denied when compromise signals are detected."
        else matched review_required "deny_or_review_secret_export"
            "Secret export requires security review."
      else if a.action_type == "github.modify_ci_workflow"
      then matched review_required "review_or_deny_cicd_tampering"
          "CI/CD workflow modifications require security review."
      else if a.action_type == "automation.mass_action_abuse"
      then matched review_required "review_or_deny_mass_automation"
          "Mass automation actions require human approval."
      else if a.action_type == "github.get_repository_status"
      then matched allow "allow_readonly_status" "Read-only status lookup is allowed."
      else evaluate_general_policy a

  unfoldable pub evaluate_policy : ActionRequest js → PolicyEvaluation
  evaluate_policy a =
      if is_kgld_lending_action a
      then evaluate_kgld_policy a
      else if is_buy_gold_action a
      then evaluate_gold_policy a
      else evaluate_named_policy a
