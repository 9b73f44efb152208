-- ===== src/Server/Preview.antt =====
-- ts-agentguard/src/server.ts, the handler of `/actions/preview`.
use agentguard_action_proxy.Common.{
  ℕ, ◌+◌, String, Bool, true, false, none, some, [], ◌∷◌, concat, if◌then◌else◌,
}
use agentguard_action_proxy.Common.Dict.{lookup, insert}
use agentguard_action_proxy.Js.{Js}
use agentguard_action_proxy.Js.Value.{Fields, end, field, bool, num, str, arr, obj, texts, spread}
use agentguard_action_proxy.Models.{
  ActionRequest, PreviewResponse, Decision, review_required, decision_text, risk_level_text,
  actor_type_text,
}
use agentguard_action_proxy.Gold.{gold_audit_fields}
use agentguard_action_proxy.Kgld.{kgld_audit_fields}
use agentguard_action_proxy.Policy.{evaluate_policy}
use agentguard_action_proxy.Risk.{score_risk}
use agentguard_action_proxy.Audit.{AuditLog, log}
use agentguard_action_proxy.Server.State.{Clock, AgentGuardState, Reply, previewed}

-- `decision === Decision.REVIEW_REQUIRED`
abbrev is_review : Decision → Bool
is_review review_required = true
is_review _ = false

module _ {js : Js} where
  unfoldable pub action_audit_fields : ActionRequest js → Fields js
  action_audit_fields a = spread (gold_audit_fields a) (kgld_audit_fields a)

  -- The key of the attempt counter.
  unfoldable pub attempt_key : ActionRequest js → String
  attempt_key a = concat (a.actor_id ∷ ":" ∷ a.action_type ∷ ":" ∷ a.target_resource ∷ [])

  -- `attemptCounter.get(key) ?? 0`
  unfoldable pub attempts : ActionRequest js → AgentGuardState js → ℕ
  attempts a s = elim (lookup (attempt_key a) s.attempt_counter) [ none ↦ 0 | some n ↦ n ]

  -- The preview of an action after some earlier attempts; no approval counts here.
  unfoldable pub preview_of : ActionRequest js → ℕ → PreviewResponse
  preview_of a n =
      let policy = evaluate_policy a in
      let risk = score_risk a n false in
      record {
        action_id = a.action_id;
        interpreted_action_meaning = concat (
            actor_type_text a.actor_type
            ∷ ":"
            ∷ a.actor_id
            ∷ " requests "
            ∷ a.action_type
            ∷ " on "
            ∷ a.target_system
            ∷ "/"
            ∷ a.target_resource
            ∷ []);
        risk_score = risk.score;
        risk_level = risk.level;
        matched_policies = policy.matched_policies;
        decision = policy.decision;
        reason = policy.reason;
        approval_required = is_review policy.decision;
        risk_factors = risk.factors;
      }

  preview_fields : PreviewResponse → Fields js
  preview_fields p = field "action_id" (str p.action_id) (
      field "interpreted_action_meaning" (str p.interpreted_action_meaning) (
        field "risk_score" (num (js.number p.risk_score)) (
          field "risk_level" (str (risk_level_text p.risk_level)) (
            field "matched_policies" (arr (texts p.matched_policies)) (
              field "decision" (str (decision_text p.decision)) (
                field "reason" (str p.reason) (
                  field "approval_required" (bool p.approval_required)
                    (field "risk_factors" (arr (texts p.risk_factors)) end))))))))

  -- The events of a preview, in their order.
  unfoldable pub preview_audit :
      Clock → ActionRequest js → PreviewResponse → AuditLog js → AuditLog js
  unfolding preview_fields
  preview_audit clock a p events =
      let extra = action_audit_fields a in
      let id =
        λ (rest : Fields js). obj (spread (field "action_id" (str a.action_id) rest) extra) in
      let requested =
        log (clock 0) "action_requested" (id (field "action_type" (str a.action_type) end))
          events in
      let evaluated =
        log (clock 1) "policy_evaluated"
          (id (
            field "matched_policies" (arr (texts p.matched_policies))
              (field "decision" (str (decision_text p.decision)) end)))
          requested in
      let scored =
        log (clock 2) "risk_scored"
          (id (
            field "risk_score" (num (js.number p.risk_score)) (
              field "risk_level" (str (risk_level_text p.risk_level))
                (field "risk_factors" (arr (texts p.risk_factors)) end))))
          evaluated in
      let asked =
        if p.approval_required
        then log (clock 3) "approval_requested" (id end) scored
        else scored in
      log (clock 4) "preview_generated" (obj (spread (preview_fields p) extra)) asked

  unfoldable pub post_preview :
      Clock → ActionRequest js → AgentGuardState js → AgentGuardState js × Reply js
  post_preview clock a s =
      let p = preview_of a (attempts a s) in
      (
        record s {
          audit = preview_audit clock a p s.audit;
          previews = insert a.action_id p s.previews;
          attempt_counter = insert (attempt_key a) (attempts a s + 1) s.attempt_counter;
        },
        previewed p,
      )
