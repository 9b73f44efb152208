-- ===== src/Server/Logging.antt =====
-- The audit log under the handlers.
use agentguard_action_proxy.Common.{
  ℕ, String, ◌≡◌, ◌≢◌, refl, sym, inl, inr, Bool-cases, none, some, [], ◌++◌, ◌==◌, Option-cases,
}
use agentguard_action_proxy.Common.Dict.{lookup}
use agentguard_action_proxy.Js.{Js}
use agentguard_action_proxy.Js.Value.{Value}
use agentguard_action_proxy.Models.{ActionRequest, PreviewResponse}
use agentguard_action_proxy.Token.{validate_for_execution}
use agentguard_action_proxy.Audit.{AuditLog, log}
use agentguard_action_proxy.Server.State.{
  Clock, AgentGuardState, Request, preview, approve, deny, execute, token, audit, audit_event,
  reset,
}
use agentguard_action_proxy.Server.Preview.{post_preview, preview_audit}
use agentguard_action_proxy.Server.Execute.{
  begin_execute, pass_gate, policy_denied, approval_not_granted, passed, Gate, validate_and_start,
  failure_audit,
}
use agentguard_action_proxy.Server.{serve, post_token, post_approve, post_deny, post_audit_event}
use mathlib.Core.List.{append-nil, append_assoc}

module _ {js : Js} where
  -- The second log goes on where the first one ends.
  pub record Extends (es fs : AuditLog js) : Type 0 where
    pub more : AuditLog js
    pub appended : fs ≡ es ++ more

  Extends-refl : (es : AuditLog js) → Extends es es
  Extends-refl es = record { more = []; appended = sym (append-nil es) }

  Extends-log :
      {es fs : AuditLog js}
      → (n : ℕ) (kind : String) (v : Value js) → Extends es fs
      → Extends es (log n kind v fs)
  unfolding log
  Extends-log {es} n kind v x = record {
    more = log n kind v x.more;
    appended = rw (x.appended) (append_assoc es x.more _);
  }

  preview_audit-Extends :
      (clock : Clock) (a : ActionRequest js) (p : PreviewResponse) (es : AuditLog js)
      → Extends es (preview_audit clock a p es)
  unfolding preview_audit
  preview_audit-Extends clock a p es = elim (Bool-cases p.approval_required) [
    | inl e ↦ rw e (search (Extends-log, Extends-refl) depth 8)
    | inr e ↦ rw e (search (Extends-log, Extends-refl) depth 8)
  ]

  failure_audit-Extends :
      (clock : Clock) (a : ActionRequest js) (reason : String) (es : AuditLog js)
      → Extends es (failure_audit clock a reason es)
  unfolding failure_audit
  failure_audit-Extends clock a reason es = elim (Bool-cases (reason == "target_mismatch")) [
    | inl e ↦ rw e (search (Extends-log, Extends-refl) depth 8)
    | inr e ↦ rw e (search (Extends-log, Extends-refl) depth 8)
  ]

  validate_and_start-Extends :
      (clock : Clock) (id : String) (a : ActionRequest js) (s : AgentGuardState js)
      → Extends s.audit (validate_and_start clock id a s).0.audit
  unfolding validate_and_start
  validate_and_start-Extends clock id a s =
      elim (Bool-cases (validate_for_execution (clock 0) id a s.tokens).valid) [
        | inl e ↦ rw e (Extends-log _ _ _ (Extends-refl s.audit))
        | inr e ↦ rw e (failure_audit-Extends clock a _ s.audit)
      ]

  pass_gate-Extends :
      (g : Gate) (clock : Clock) (id : String) (a : ActionRequest js) (s : AgentGuardState js)
      → Extends s.audit (pass_gate g clock id a s).0.audit
  unfolding pass_gate
  pass_gate-Extends policy_denied clock id a s = Extends-log _ _ _ (Extends-refl s.audit)
  pass_gate-Extends approval_not_granted clock id a s = Extends-log _ _ _ (Extends-refl s.audit)
  pass_gate-Extends passed clock id a s = validate_and_start-Extends clock id a s

  begin_execute-Extends :
      (clock : Clock) (id : String) (a : ActionRequest js) (s : AgentGuardState js)
      → Extends s.audit (begin_execute clock id a s).0.audit
  unfolding begin_execute
  begin_execute-Extends clock id a s = elim (Option-cases (lookup a.action_id s.previews)) [
    | inl e ↦ rw (e, begin_execute) (Extends-refl s.audit)
    | inr (p, e) ↦ rw (e, begin_execute) (pass_gate-Extends _ clock id a s)
  ]

  post_token-Extends :
      (clock : Clock) (uuid id : String) (a : ActionRequest js) (s : AgentGuardState js)
      → Extends s.audit (post_token clock uuid id a s).0.audit
  unfolding post_token
  post_token-Extends clock uuid id a s = elim (Bool-cases (id == a.action_id)) [
    | inl e ↦ rw e (Extends-log _ _ _ (Extends-refl s.audit))
    | inr e ↦ rw e (Extends-refl s.audit)
  ]

  -- Serving any request but a reset keeps every event of the audit log, in its place.
  pub serve-Extends :
      (clock : Clock) (uuid : String) (r : Request js) (s : AgentGuardState js)
      → r ≢ reset
      → Extends s.audit (serve clock uuid r s).0.audit
  unfolding serve post_approve post_deny post_audit_event post_preview
  serve-Extends clock uuid (preview none) s h = Extends-refl s.audit
  serve-Extends clock uuid (preview (some a)) s h = preview_audit-Extends clock a _ s.audit
  serve-Extends clock uuid (approve id) s h = Extends-log _ _ _ (Extends-refl s.audit)
  serve-Extends clock uuid (deny id) s h = Extends-log _ _ _ (Extends-refl s.audit)
  serve-Extends clock uuid (execute none) s h = Extends-refl s.audit
  serve-Extends clock uuid (execute (some (a, id))) s h = begin_execute-Extends clock id a s
  serve-Extends clock uuid (token id none) s h = Extends-refl s.audit
  serve-Extends clock uuid (token id (some a)) s h = post_token-Extends clock uuid id a s
  serve-Extends clock uuid audit s h = Extends-refl s.audit
  serve-Extends clock uuid (audit_event body) s h = Extends-log _ _ _ (Extends-refl s.audit)
  serve-Extends clock uuid reset s h = absurd (h refl)
