-- ===== src/Server.antt =====
-- ts-agentguard/src/server.ts, `buildServer`: the dispatch of a request to its handler. A handler
-- runs to its end, or to the point where `/actions/execute` waits for the executor.
pub mod State
pub mod Preview
pub mod Execute
pub mod Authorization
pub mod Interleaving
pub mod Substitution
pub mod Logging
pub mod Repetition
pub mod Progress
pub mod Environment
pub mod PageRoutes
use agentguard_action_proxy.Common.{ℕ, String, [], Option, none, some, ◌==◌, if◌then◌else◌, or_text}
use agentguard_action_proxy.Js.{Js}
use agentguard_action_proxy.Js.Value.{Value, obj, arr, str, end, field, get_of, spread}
use agentguard_action_proxy.Models.{ActionRequest}
use agentguard_action_proxy.Token.{issue, new_token, default_ttl_seconds, clear}
use agentguard_action_proxy.Audit.{
  log, clear_log, approve as approve_action, deny_approval, clear_approvals, approved, denied,
}
use State.{
  Clock, AgentGuardState, Request, preview, approve, deny, execute, token, audit, audit_event,
  reset, Reply, unprocessable, bad_request, decided, token_issued, events, recorded, was_reset,
}
use Preview.{action_audit_fields, post_preview}
use Execute.{begin_execute}

module _ {js : Js} where
  -- `/actions/:actionId/token`, with a fresh UUID.
  unfoldable pub post_token :
      Clock
      → String
      → String
      → ActionRequest js
      → AgentGuardState js
      → AgentGuardState js × Reply js
  post_token clock uuid action_id a s =
      if action_id == a.action_id
      then (let t = new_token (clock 0) uuid a default_ttl_seconds in
          let payload = field "action_id" (str a.action_id) (
            field "token_id" (str t.token_id)
              (field "expires_at" (str (js.iso_string t.expires_at)) end)) in
          (
            record s {
              tokens = issue (clock 0) uuid a default_ttl_seconds s.tokens;
              audit =
                  log (clock 1) "token_issued" (obj (spread payload (action_audit_fields a)))
                    s.audit;
            },
            token_issued t.token_id,
          ))
      else (s, bad_request "action_id_mismatch")

  unfoldable pub post_approve : Clock → String → AgentGuardState js → AgentGuardState js × Reply js
  post_approve clock action_id s = (
    record s {
      approvals = approve_action action_id s.approvals;
      audit = log (clock 0) "approved" (obj (field "action_id" (str action_id) end)) s.audit;
    },
    decided action_id approved,
  )

  unfoldable pub post_deny : Clock → String → AgentGuardState js → AgentGuardState js × Reply js
  post_deny clock action_id s = (
    record s {
      approvals = deny_approval action_id s.approvals;
      audit = log (clock 0) "denied" (obj (field "action_id" (str action_id) end)) s.audit;
    },
    decided action_id denied,
  )

  -- `typeof body.event_type === "string" ? body.event_type : "demo_event"`
  event_type_of : Option (Value js) → String
  event_type_of (some (str s)) = s
  event_type_of _ = "demo_event"

  -- `typeof body.payload === "object" && body.payload !== null ? body.payload : {}`
  payload_of : Option (Value js) → Value js
  payload_of (some (obj fs)) = obj fs
  payload_of (some (arr xs)) = arr xs
  payload_of _ = obj end

  -- `request.body ?? {}`
  body_of : Option (Value js) → Value js
  body_of none = obj end
  body_of (some v) = v

  unfoldable pub post_audit_event :
      Clock → Option (Value js) → AgentGuardState js → AgentGuardState js × Reply js
  unfolding event_type_of payload_of body_of
  post_audit_event clock body s =
      let kind = event_type_of (get_of "event_type" (body_of body)) in
      (
        record s {
          audit = log (clock 0) kind (payload_of (get_of "payload" (body_of body))) s.audit;
        },
        recorded kind,
      )

  unfoldable pub post_reset : AgentGuardState js → AgentGuardState js × Reply js
  post_reset s = (
    record {
      audit = clear_log s.audit;
      approvals = clear_approvals s.approvals;
      tokens = clear s.tokens;
      previews = [];
      attempt_counter = [];
    },
    was_reset,
  )

  unfoldable pub serve :
      Clock → String → Request js → AgentGuardState js → AgentGuardState js × Reply js
  serve clock uuid (preview none) s = (s, unprocessable)
  serve clock uuid (preview (some a)) s = post_preview clock a s
  serve clock uuid (approve action_id) s = post_approve clock action_id s
  serve clock uuid (deny action_id) s = post_deny clock action_id s
  serve clock uuid (execute none) s = (s, unprocessable)
  serve clock uuid (execute (some (a, token_id))) s = begin_execute clock token_id a s
  serve clock uuid (token action_id none) s = (s, unprocessable)
  serve clock uuid (token action_id (some a)) s = post_token clock uuid action_id a s
  serve clock uuid audit s = (s, events s.audit)
  serve clock uuid (audit_event body) s = post_audit_event clock body s
  serve clock uuid reset s = post_reset s
