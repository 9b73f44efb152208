-- ===== src/Server/State.antt =====
-- ts-agentguard/src/server.ts: the state of the server, the requests that it serves and its replies.
use agentguard_action_proxy.Common.{ℕ, String, List, [], Option}
use agentguard_action_proxy.Common.Dict.{Dict}
use agentguard_action_proxy.Js.{Js}
use agentguard_action_proxy.Js.Value.{Value}
use agentguard_action_proxy.Models.{ActionRequest, PreviewResponse}
use agentguard_action_proxy.Token.{TokenService}
use agentguard_action_proxy.Audit.{AuditLog, AuditEvent, ApprovalStore, ApprovalDecision}

-- The n-th reading of the clock that a handler takes, in milliseconds.
abbrev pub Clock : Type 0
Clock = ℕ → ℕ

pub data Executor : Type 0 where
  settlement_orchestrator mock_github mock_browser : Executor

module _ (js : Js) where
  pub record AgentGuardState : Type 0 where
    pub audit : AuditLog js
    pub approvals : ApprovalStore
    pub tokens : TokenService js
    pub previews : Dict PreviewResponse
    pub attempt_counter : Dict ℕ

  -- `createState`.
  unfoldable pub create_state : AgentGuardState
  create_state = record {
    audit = [];
    approvals = [];
    tokens = [];
    previews = [];
    attempt_counter = [];
  }

  -- A body that a Zod schema refused is `none`.
  pub data Request : Type 0 where
    preview : Option (ActionRequest js) → Request
    approve deny : String → Request
    execute : Option (ActionRequest js × String) → Request
    token : String → Option (ActionRequest js) → Request
    audit : Request
    audit_event : Option (Value js) → Request
    reset : Request

  pub data Reply : Type 0 where
    -- Status 422.
    unprocessable : Reply
    -- Status 400 with its detail.
    bad_request : String → Reply
    previewed : PreviewResponse → Reply
    decided : String → ApprovalDecision → Reply
    -- An execution that did not take place: the action, decision, message and threat type.
    blocked : String → String → String → Option String → Reply
    -- The handler waits for the executor.
    started : Executor → Reply
    token_issued : String → Reply
    events : List (AuditEvent js) → Reply
    recorded : String → Reply
    was_reset : Reply
