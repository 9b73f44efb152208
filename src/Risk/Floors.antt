-- ===== src/Risk/Floors.antt =====
-- The scores of what the policy denies.
use agentguard_action_proxy.Common.{
  ℕ, ◌+◌, ◌≤◌, ◌≡◌, Bool, false, ◌||◌, arith, ◌==◌, eq_iff, if◌then◌else◌, String, List,
}
use agentguard_action_proxy.Js.{Js}
use agentguard_action_proxy.Models.{ActionRequest, deny}
use agentguard_action_proxy.Gold.{is_buy_gold_action}
use agentguard_action_proxy.Policy.{evaluate_policy, targets_production}
use agentguard_action_proxy.Policy.Denials.{IsNamedDenied, IsLoanDenied, evaluate_policy-deny_iff}
use agentguard_action_proxy.Risk.{
  Tally, zero_tally, add_when, add_history, add_circumstances, add_action_type, capped, score_kgld,
  score_general, score_risk,
}

-- The points that a test adds.
abbrev points_if : Bool → ℕ → ℕ
points_if b p = if b then p else 0

points_if-or : (x y : Bool) (p : ℕ) → points_if x p ≤ points_if (x || y) p
points_if-or x y p = ground arith

add_when-score :
    (b : Bool) (p : ℕ) (names : List String) (t : Tally)
    → (add_when b p names t).score ≡ t.score + points_if b p
unfolding add_when
add_when-score b p names t = ground arith

le-add_history : (n : ℕ) (h : Bool) (t : Tally) → t.score ≤ (add_history n h t).score
unfolding add_history
le-add_history n h t = omega (arith, add_when-score)

module _ {js : Js} where
  add_action_type-floor :
      (a : ActionRequest js) (t : Tally)
      → points_if (a.action_type == "github.delete_repository") 65
          + points_if (a.action_type == "github.read_token_attempt") 80
          + points_if (a.action_type == "github.export_secrets") 85
        ≤ (add_action_type a t).score
  unfolding add_action_type
  add_action_type-floor a t = omega (
    arith,
    add_when-score,
    points_if-or (a.action_type == "github.delete_repository")
        (a.action_type == "aws.open_security_group") 65,
  )

  add_circumstances-floor :
      (a : ActionRequest js) (t : Tally)
      → t.score + points_if (targets_production a) 25 ≤ (add_circumstances a t).score
  unfolding add_circumstances
  add_circumstances-floor a t = omega (arith, add_when-score)

  -- The sum before the cap of a general action that is denied.
  named-floor :
      (a : ActionRequest js) (n : ℕ) (h : Bool)
      → IsNamedDenied a
      → 70 ≤ (add_history n h (add_circumstances a (add_action_type a zero_tally))).score
  named-floor a n h denied = ground (
    arith,
    le-add_history n h (add_circumstances a (add_action_type a zero_tally)),
    add_circumstances-floor a (add_action_type a zero_tally),
    add_action_type-floor a zero_tally,
    eq_iff a.action_type "github.delete_repository",
    eq_iff a.action_type "github.read_token_attempt",
    eq_iff a.action_type "github.export_secrets",
  )

  general-floor :
      (a : ActionRequest js) (n : ℕ) (h : Bool) → IsNamedDenied a → 70 ≤ (score_general a n h).score
  unfolding score_general capped
  general-floor a n h denied = omega (arith, named-floor a n h denied)

  kgld-floor : (a : ActionRequest js) → IsLoanDenied a → 70 ≤ (score_kgld a).score
  unfolding score_kgld
  kgld-floor a denied = ground arith

  -- An action other than a gold purchase that the policy denies scores at least 70, which is a high
  -- or a critical risk, whatever the attempts and even with a human approval.
  pub deny-score :
      (a : ActionRequest js) (n : ℕ) (h : Bool)
      → is_buy_gold_action a ≡ false
      → (evaluate_policy a).decision ≡ deny
      → 70 ≤ (score_risk a n h).score
  unfolding score_risk
  deny-score a n h other denied =
      ground (arith, (evaluate_policy-deny_iff a).0 denied, kgld-floor a, general-floor a n h)
