-- ===== src/Server/Progress.antt =====
-- The way of an action through the server, from its preview to the result of its execution.
use agentguard_action_proxy.Common.{
  ◌⊎◌, inl, inr, none, ◌+◌, ◌*◌, ◌≤◌, String, ◌≡◌, ◌≢◌, refl, ap, ◌∙◌, some, eq_refl,
}
use agentguard_action_proxy.Common.Dict.{lookup, lookup-insert_self}
use agentguard_action_proxy.Js.{Js}
use agentguard_action_proxy.Js.Value.{obj, spread}
use agentguard_action_proxy.Models.{
  ActionRequest, ExecutionResult, Decision, allow, review_required, deny,
}
use agentguard_action_proxy.Policy.{evaluate_policy}
use agentguard_action_proxy.Token.{default_ttl_seconds, new_token, issue, mark_used}
use agentguard_action_proxy.Token.Roundtrip.{HasComparableAmount, new_token-Permits}
use agentguard_action_proxy.Audit.{AuditLog, log, get_approval, approved, approve as approve_action}
use agentguard_action_proxy.Server.State.{
  Clock, AgentGuardState, preview, approve, execute, token, Reply, started, token_issued, previewed,
  decided, blocked,
}
use agentguard_action_proxy.Server.Preview.{action_audit_fields, preview_of, attempts, post_preview}
use agentguard_action_proxy.Server.Execute.{
  create_executor, begin_execute, final_result, result_fields, complete_execute, policy_denied,
  gate, pass_gate,
}
use agentguard_action_proxy.Server.Authorization.{
  IsAuthorised, OnlyLogs, begin_execute_cases, refused, ran,
}
use agentguard_action_proxy.Server.Substitution.{post_token-Granted}
use agentguard_action_proxy.Server.{post_approve, post_token, serve}

deny-cases : (d : Decision) → (d ≡ deny) ⊎ (d ≢ deny)
deny-cases allow = inr (λ h. cc)
deny-cases review_required = inr (λ h. cc)
deny-cases deny = inl refl

module _ {js : Js} (previewing approving issuing executing completing : Clock) (uuid spare : String)
    (a : ActionRequest js) where
  module _ (s : AgentGuardState js) where
    -- The server after the preview and the approval, and then after the token.
    abbrev reviewed : AgentGuardState js
    reviewed = (post_approve approving a.action_id (post_preview previewing a s).0).0

    abbrev equipped : AgentGuardState js
    equipped = (post_token issuing uuid a.action_id a reviewed).0

    equipped-previews : lookup a.action_id equipped.previews ≡ some (preview_of a (attempts a s))
    unfolding post_preview post_approve
    equipped-previews =
        ap (lookup a.action_id) (post_token-Granted issuing uuid a reviewed).previews
        ∙ lookup-insert_self a.action_id (preview_of a (attempts a s)) s.previews

    equipped-approvals : get_approval a.action_id equipped.approvals ≡ some approved
    unfolding post_preview post_approve get_approval approve_action
    equipped-approvals =
        ap (lookup a.action_id) (post_token-Granted issuing uuid a reviewed).approvals
        ∙ lookup-insert_self a.action_id approved s.approvals

    equipped-tokens :
        lookup uuid equipped.tokens ≡ some (new_token (issuing 0) uuid a default_ttl_seconds)
    unfolding issue
    equipped-tokens =
        ap (lookup uuid) (post_token-Granted issuing uuid a reviewed).tokens
        ∙ lookup-insert_self uuid _ _

    equipped-IsAuthorised :
        (evaluate_policy a).decision ≢ deny
        → HasComparableAmount a
        → executing 0 ≤ issuing 0 + default_ttl_seconds * 1000
        → IsAuthorised (executing 0) uuid a equipped
    unfolding preview_of
    equipped-IsAuthorised undenied amount alive = record {
      preview = preview_of a (attempts a s);
      previewed = equipped-previews;
      cleared = (undenied, λ _. equipped-approvals);
      token = new_token (issuing 0) uuid a default_ttl_seconds;
      issued = equipped-tokens;
      permitted =
          new_token-Permits (issuing 0) (executing 0) uuid a default_ttl_seconds alive amount;
    }

    equipped-started :
        IsAuthorised (executing 0) uuid a equipped
        → (begin_execute executing uuid a equipped).1 ≡ started (create_executor a)
    equipped-started auth = elim (begin_execute_cases executing uuid a equipped) [
      | refused idle unauthorised kept ↦ absurd (unauthorised auth)
      | ran auth e _ _ _ ↦ e
    ]

    token-issued : (post_token issuing uuid a.action_id a reviewed).1 ≡ token_issued uuid
    unfolding post_token new_token
    token-issued = rw (eq_refl a.action_id) refl

    equipped-blocked :
        (evaluate_policy a).decision ≡ deny
        → begin_execute executing uuid a equipped
          ≡ pass_gate policy_denied executing uuid a equipped
    unfolding begin_execute preview_of gate
    equipped-blocked denied = rw (equipped-previews, begin_execute) (rw denied refl)

    equipped-used :
        IsAuthorised (executing 0) uuid a equipped
        → lookup uuid (begin_execute executing uuid a equipped).0.tokens
          ≡ some (mark_used (new_token (issuing 0) uuid a default_ttl_seconds))
    equipped-used auth = elim (begin_execute_cases executing uuid a equipped) [
      | refused idle unauthorised kept ↦ absurd (unauthorised auth)
      | ran known _ stored _ _ ↦
          let t_is : known.token ≡ new_token (issuing 0) uuid a default_ttl_seconds =
            cc (known.issued, equipped-tokens) in
          ap (lookup uuid) stored
          ∙ lookup-insert_self uuid (mark_used known.token) equipped.tokens
          ∙ rw t_is refl
    ]

    -- The four requests of a client, each handled in the state that the one before it left.
    abbrev after_preview : AgentGuardState js × Reply js
    after_preview = serve previewing spare (preview (some a)) s

    abbrev after_approval : AgentGuardState js × Reply js
    after_approval = serve approving spare (approve a.action_id) after_preview.0

    abbrev after_token : AgentGuardState js × Reply js
    after_token = serve issuing uuid (token a.action_id (some a)) after_approval.0

    abbrev after_execute : AgentGuardState js × Reply js
    after_execute = serve executing spare (execute (some (a, uuid))) after_token.0

    abbrev result_log : ExecutionResult js → AuditLog js
    result_log r = (complete_execute completing a r after_execute.0).audit

    -- What comes of the execution: it is blocked and nothing but the log differs, or it starts with
    -- the token of this request used, and the result of its executor is the next event.
    pub data Outcome (r : ExecutionResult js) : Type 0 where
      was_denied :
          (evaluate_policy a).decision ≡ deny
          → after_execute.1 ≡ blocked a.action_id "DENY" "Execution denied by policy." none
          → OnlyLogs after_token.0 after_execute.0
          → Outcome r
      was_started :
          (evaluate_policy a).decision ≢ deny
          → after_execute.1 ≡ started (create_executor a)
          → lookup uuid after_execute.0.tokens
            ≡ some (mark_used (new_token (issuing 0) uuid a default_ttl_seconds))
          → result_log r
            ≡ log
                (completing 0)
                "execution_completed"
                (obj (spread (result_fields (final_result a r)) (action_audit_fields a)))
                after_execute.0.audit
          → Outcome r

    denied-Outcome : (r : ExecutionResult js) → (evaluate_policy a).decision ≡ deny → Outcome r
    unfolding serve pass_gate
    denied-Outcome r denied =
        let e = equipped-blocked denied in
        was_denied denied (ap (λ (x : AgentGuardState js × Reply js). x.1) e)
          (rw e (record { tokens = refl; approvals = refl; previews = refl; attempts = refl }))

    started-Outcome :
        (r : ExecutionResult js)
        → HasComparableAmount a
        → executing 0 ≤ issuing 0 + default_ttl_seconds * 1000
        → (evaluate_policy a).decision ≢ deny
        → Outcome r
    unfolding serve complete_execute
    started-Outcome r amount alive undenied =
        let auth = equipped-IsAuthorised undenied amount alive in
        was_started undenied (equipped-started auth) (equipped-used auth) refl

    -- A client that asks for the preview of an action, approves it, asks for a token and executes it,
    -- each request handled in the state that the one before it left and the last one within the
    -- lifetime of the token, gets the preview, the approval and the token, whatever the state of the
    -- server was. If the policy denies the action the execution is blocked; otherwise it starts, the
    -- token of this client is used, and the result of the executor is the next event of the log. The
    -- loan amount, if there is one, must not be NaN.
    pub completes :
        (r : ExecutionResult js)
        → HasComparableAmount a
        → executing 0 ≤ issuing 0 + default_ttl_seconds * 1000
        → (after_preview.1 ≡ previewed (preview_of a (attempts a s)))
          × (after_approval.1 ≡ decided a.action_id approved)
          × (after_token.1 ≡ token_issued uuid)
          × Outcome r
    unfolding serve post_preview post_approve
    completes r amount alive = (
      refl,
      refl,
      token-issued,
      elim (deny-cases (evaluate_policy a).decision) [
        | inl denied ↦ denied-Outcome r denied
        | inr undenied ↦ started-Outcome r amount alive undenied
      ],
    )
