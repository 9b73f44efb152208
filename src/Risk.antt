-- ===== src/Risk.antt =====
-- ts-agentguard/src/risk.ts: the risk score of a requested action.
pub mod Bounds
pub mod History
pub mod Coherence
pub mod Floors
use agentguard_action_proxy.Common.{
  ℕ, ◌+◌, ◌*◌, min, String, Bool, List, [], ◌∷◌, ◌++◌, ◌==◌, ◌&&◌, ◌||◌, not, leb, ltb,
  if◌then◌else◌, ends_with,
}
use agentguard_action_proxy.Js.{Js}
use agentguard_action_proxy.Js.Value.{get, truthy}
use agentguard_action_proxy.Models.{ActionRequest, RiskLevel, low, medium, high, critical}
use agentguard_action_proxy.Kgld.{is_kgld_lending_action, loan_to_value}
use agentguard_action_proxy.Gold.{is_buy_gold_action, get_gold_action_details}
use agentguard_action_proxy.Policy.{is_large_budget_change, targets_production}

pub record RiskScore : Type 0 where
  pub score : ℕ
  pub level : RiskLevel
  pub factors : List String

unfoldable pub level : ℕ → RiskLevel
level score =
    if leb 90 score
    then critical
    else if leb 70 score
    then high
    else if leb 40 score
    then medium
    else low

-- The two local variables of `scoreRisk`.
pub record Tally : Type 0 where
  pub score : ℕ
  pub factors : List String

abbrev pub zero_tally : Tally
zero_tally = record { score = 0; factors = [] }

-- `if (test) { score += points; factors.push(...names); }`
unfoldable pub add_when : Bool → ℕ → List String → Tally → Tally
add_when test points names t =
    if test then record { score = t.score + points; factors = t.factors ++ names } else t

module _ {js : Js} where
  unfoldable pub score_kgld : ActionRequest js → RiskScore
  score_kgld a =
      if js.num_le (loan_to_value a) (js.number 60)
      then record { score = 25; level = low; factors = "safe_ltv" ∷ [] }
      else if js.num_le (loan_to_value a) (js.number 70)
      then record { score = 55; level = medium; factors = "additional_collateral_required" ∷ [] }
      else record { score = 90; level = critical; factors = "ltv_over_limit" ∷ [] }

  unfoldable pub score_gold : ActionRequest js → RiskScore
  score_gold a =
      let grams = (get_gold_action_details a).gold_amount_grams in
      if js.num_lt (js.number 1000) grams
      then record {
        score = 95;
        level = critical;
        factors = "gold_amount_over_limit" ∷ "gold_trade_denied" ∷ [];
      }
      else if js.num_lt (js.number 100) grams
      then record { score = 60; level = medium; factors = "gold_amount_requires_review" ∷ [] }
      else record { score = 20; level = low; factors = "gold_amount_low_risk" ∷ [] }

  -- The additions that the type of the action brings.
  unfoldable pub add_action_type : ActionRequest js → Tally → Tally
  add_action_type a t =
      add_when (a.action_type == "automation.mass_action_abuse") 65
        ("destructive_automation" ∷ "prompt_injection_detected" ∷ "tool_poisoning_detected" ∷ [])
        (add_when (a.action_type == "github.export_secrets") 85
          ("secret_exfiltration_attempt" ∷ "secret_export" ∷ "prompt_injection_detected"
            ∷ "tool_poisoning_detected" ∷ [])
          (add_when (a.action_type == "github.modify_ci_workflow") 75
            ("cicd_tampering_attempt" ∷ "prompt_injection_detected" ∷ "tool_poisoning_detected"
              ∷ [])
            (add_when (a.action_type == "github.read_token_attempt") 80
              ("credential_access_attempt" ∷ "prompt_injection_detected" ∷ "tool_poisoning_detected"
                ∷ [])
              (add_when
                (a.action_type == "github.delete_repository"
                  || a.action_type == "aws.open_security_group")
                65 ("destructive_action" ∷ []) t))))

  -- The additions that the target, the context and the parameters bring.
  unfoldable pub add_circumstances : ActionRequest js → Tally → Tally
  add_circumstances a t =
      add_when (a.action_type == "browser.update_ad_budget" && is_large_budget_change a) 65
        ("abnormal_budget_increase" ∷ [])
        (add_when
          (a.action_type == "github.change_branch_protection"
            || truthy (get "admin_level_action" a.context))
          20 ("admin_privilege_change" ∷ [])
          (add_when (ends_with a.action_type "share_external") 15 ("external_destination" ∷ [])
            (add_when (targets_production a) 25 ("production_resource" ∷ []) t)))

-- The additions that approval and earlier attempts bring.
unfoldable pub add_history : ℕ → Bool → Tally → Tally
add_history repeated_attempts has_human_approval t =
    add_when (ltb 0 repeated_attempts) (min 15 (repeated_attempts * 5)) ("repeated_attempts" ∷ [])
      (add_when (not has_human_approval) 10 ("no_human_approval" ∷ []) t)

-- `Math.min(100, score)` and the level that belongs to it.
unfoldable pub capped : Tally → RiskScore
capped t = record { score = min 100 t.score; level = level (min 100 t.score); factors = t.factors }

module _ {js : Js} where
  unfoldable pub score_general : ActionRequest js → ℕ → Bool → RiskScore
  score_general a repeated_attempts has_human_approval = capped (
      add_history repeated_attempts has_human_approval
        (add_circumstances a (add_action_type a zero_tally)))

  unfoldable pub score_risk : ActionRequest js → ℕ → Bool → RiskScore
  score_risk a repeated_attempts has_human_approval =
      if is_kgld_lending_action a
      then score_kgld a
      else if is_buy_gold_action a
      then score_gold a
      else score_general a repeated_attempts has_human_approval
