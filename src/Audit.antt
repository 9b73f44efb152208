-- ===== src/Audit.antt =====
-- ts-agentguard/src/audit.ts and ts-agentguard/src/approval.ts: the event log and the approvals.
use agentguard_action_proxy.Common.{ℕ, String, List, [], ◌∷◌, ◌++◌, Option}
use agentguard_action_proxy.Common.Dict.{Dict, lookup, insert}
use agentguard_action_proxy.Js.{Js}
use agentguard_action_proxy.Js.Value.{Value}

module _ (js : Js) where
  pub record AuditEvent : Type 0 where
    pub timestamp : String
    pub event_type : String
    pub payload : Value js

  -- The state of `AuditLog`, oldest event first.
  abbrev pub AuditLog : Type 0
  AuditLog = List AuditEvent

module _ {js : Js} where
  -- `log`, at a reading of the clock in milliseconds.
  unfoldable pub log : ℕ → String → Value js → AuditLog js → AuditLog js
  log now event_type payload events =
      events
      ++ (record { timestamp = js.iso_string now; event_type = event_type; payload = payload } ∷ [])

  unfoldable pub clear_log : AuditLog js → AuditLog js
  clear_log events = []

pub data ApprovalDecision : Type 0 where
  approved denied : ApprovalDecision

-- The state of `ApprovalStore`.
abbrev pub ApprovalStore : Type 0
ApprovalStore = Dict ApprovalDecision

unfoldable pub approve : String → ApprovalStore → ApprovalStore
approve action_id decisions = insert action_id approved decisions

unfoldable pub deny_approval : String → ApprovalStore → ApprovalStore
deny_approval action_id decisions = insert action_id denied decisions

unfoldable pub get_approval : String → ApprovalStore → Option ApprovalDecision
get_approval action_id decisions = lookup action_id decisions

unfoldable pub clear_approvals : ApprovalStore → ApprovalStore
clear_approvals decisions = []
