-- ===== src/Server/Execute.antt =====
-- ts-agentguard/src/server.ts, the handler of `/actions/execute`: up to the call of the executor,
-- and from its result on.
use agentguard_action_proxy.Common.{String, Bool, Option, none, some, ◌==◌, ◌||◌, if◌then◌else◌}
use agentguard_action_proxy.Common.Dict.{lookup}
use agentguard_action_proxy.Js.{Js}
use agentguard_action_proxy.Js.Value.{
  Fields, end, field, bool, num, str, obj, get, spread, optional_field,
}
use agentguard_action_proxy.Models.{
  ActionRequest, ExecutionResult, Decision, allow, review_required, deny,
}
use agentguard_action_proxy.Token.{validate_for_execution}
use agentguard_action_proxy.Audit.{AuditLog, log, ApprovalDecision, approved, get_approval}
use agentguard_action_proxy.Server.State.{
  Clock, Executor, settlement_orchestrator, mock_github, mock_browser, AgentGuardState, Reply,
  bad_request, blocked, started,
}
use agentguard_action_proxy.Server.Preview.{action_audit_fields}

-- What the preview and the approval say of an execution.
pub data Gate : Type 0 where
  policy_denied approval_not_granted passed : Gate

-- The two tests on `preview.decision`.
unfoldable pub gate : Decision → Option ApprovalDecision → Gate
gate deny approval = policy_denied
gate review_required (some approved) = passed
gate review_required _ = approval_not_granted
gate allow approval = passed

-- `executor.constructor.name`
abbrev executor_name : Executor → String
executor_name settlement_orchestrator = "SettlementOrchestratorExecutor"
executor_name mock_github = "MockGitHubExecutor"
executor_name mock_browser = "MockBrowserExecutor"

-- `isDrift`
unfoldable pub is_drift : String → Bool
is_drift reason = reason == "request_fingerprint_mismatch" || reason == "loan_amount_mismatch"

module _ {js : Js} where
  unfoldable pub create_executor : ActionRequest js → Executor
  create_executor a =
      if a.target_system == "settlement_orchestrator"
      then settlement_orchestrator
      else if a.target_system == "github"
      then mock_github
      else mock_browser

  abbrev block_fields : ActionRequest js → String → Fields js
  block_fields a reason =
      spread (field "action_id" (str a.action_id) (field "reason" (str reason) end))
        (action_audit_fields a)

  -- `validationPayload`
  unfoldable pub validation_payload : ActionRequest js → String → Fields js
  validation_payload a reason =
      let drift = field "threatType" (str "AI_AGENT_DRIFT") (
        field "approvedField" (str "loanAmountRLUSD") (
          field "approvedValue" (num (js.number 500))
            (optional_field "executionValue" (get "loanAmountRLUSD" a.parameters) end))) in
      spread
        (spread
          (field "action_id" (str a.action_id) (
            field "reason"
              (str (if is_drift reason then "request_fingerprint_mismatch" else reason))
              (field "outcome" (str "blocked") end)))
          (if is_drift reason then drift else end))
        (action_audit_fields a)

  -- The events of a failed validation.
  unfoldable pub failure_audit : Clock → ActionRequest js → String → AuditLog js → AuditLog js
  failure_audit clock a reason events =
      let payload = obj (validation_payload a reason) in
      let failed = log (clock 1) "execution_token_validation_failed" payload events in
      let mismatch =
        if reason == "target_mismatch"
        then log (clock 3) "unauthorized_vault_access" payload
            (log (clock 2) "target_mismatch" payload failed)
        else failed in
      log (clock 4) "execution_blocked" payload mismatch

  -- The validation of the token, once the gate is passed.
  unfoldable pub validate_and_start :
      Clock → String → ActionRequest js → AgentGuardState js → AgentGuardState js × Reply js
  validate_and_start clock token_id a s =
      let v = validate_for_execution (clock 0) token_id a s.tokens in
      if v.valid
      then (let payload =
            field "action_id" (str a.action_id)
              (field "executor" (str (executor_name (create_executor a))) end) in
          (
            record s {
              tokens = v.tokens;
              audit =
                  log (clock 1) "execution_attempted" (obj (spread payload (action_audit_fields a)))
                    s.audit;
            },
            started (create_executor a),
          ))
      else (
        record s { tokens = v.tokens; audit = failure_audit clock a v.reason s.audit },
        blocked a.action_id "BLOCKED"
            (if is_drift v.reason
              then "Execution request does not match approved request."
              else v.reason)
            (if is_drift v.reason then some "AI_AGENT_DRIFT" else none),
      )

  -- What the gate lets happen.
  unfoldable pub pass_gate :
      Gate → Clock → String → ActionRequest js → AgentGuardState js → AgentGuardState js × Reply js
  pass_gate policy_denied clock token_id a s = (
    record s {
      audit = log (clock 0) "execution_blocked" (obj (block_fields a "policy_denied")) s.audit;
    },
    blocked a.action_id "DENY" "Execution denied by policy." none,
  )
  pass_gate approval_not_granted clock token_id a s = (
    record s {
      audit =
          log (clock 0) "execution_blocked" (obj (block_fields a "approval_not_granted")) s.audit;
    },
    blocked a.action_id "REVIEW_REQUIRED" "Approval required before execution." none,
  )
  pass_gate passed clock token_id a s = validate_and_start clock token_id a s

  -- The handler up to the call of the executor.
  unfoldable pub begin_execute :
      Clock → String → ActionRequest js → AgentGuardState js → AgentGuardState js × Reply js
  begin_execute clock token_id a s = elim (lookup a.action_id s.previews) [
    | none ↦ (s, bad_request "preview_required_before_execute")
    | some p ↦ pass_gate (gate p.decision (get_approval a.action_id s.approvals)) clock token_id a s
  ]

  -- `final`: the result under the id of the action, with ALLOW where it names no decision.
  unfoldable pub final_result : ActionRequest js → ExecutionResult js → ExecutionResult js
  final_result a r = record r {
    action_id = some a.action_id;
    decision = elim r.decision [ none ↦ some "ALLOW" | some d ↦ some d ];
  }

  abbrev optional_text : String → Option String → Fields js → Fields js
  optional_text k none fs = fs
  optional_text k (some s) fs = field k (str s) fs

  abbrev optional_number : String → Option js.Number → Fields js → Fields js
  optional_number k none fs = fs
  optional_number k (some n) fs = field k (num n) fs

  -- The properties of a result, in a fixed order.
  unfoldable pub result_fields : ExecutionResult js → Fields js
  result_fields r = optional_text "action_id" r.action_id (
      optional_text "decision" r.decision (
        field "executed" (bool r.executed) (
          field "message" (str r.message) (
            field "executor" (str r.executor) (
              optional_text "settlementId" r.settlement_id (
                optional_text "txHash" r.tx_hash (
                  optional_number "ledgerIndex" r.ledger_index (
                    optional_text "network" r.network
                      (optional_text "timestamp" r.timestamp end)))))))))

  -- The handler from the result of the executor on; the reply is `final_result`.
  unfoldable pub complete_execute :
      Clock → ActionRequest js → ExecutionResult js → AgentGuardState js → AgentGuardState js
  complete_execute clock a r s = record s {
    audit =
        log (clock 0) "execution_completed"
          (obj (spread (result_fields (final_result a r)) (action_audit_fields a))) s.audit;
  }
