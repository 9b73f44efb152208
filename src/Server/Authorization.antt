-- ===== src/Server/Authorization.antt =====
-- What an execution needs before it starts, and what a refused one leaves behind.
use agentguard_action_proxy.Common.{
  ℕ, String, ◌≡◌, ◌≢◌, refl, ◌⊎◌, inl, inr, ◌↔◌, true, false, Bool-cases, Option, none, some, arith,
  Option-cases, ◌==◌, if◌then◌else◌,
}
use agentguard_action_proxy.Common.Dict.{lookup, insert, lookup-insert}
use agentguard_action_proxy.Js.{Js}
use agentguard_action_proxy.Models.{
  ActionRequest, PreviewResponse, EphemeralExecutionToken, Decision, allow, review_required, deny,
}
use agentguard_action_proxy.Token.{Verdict, validate_for_execution, mark_used}
use agentguard_action_proxy.Token.Acceptance.{
  Permits, validate_iff, validate-accepted, validate-refused,
}
use agentguard_action_proxy.Audit.{ApprovalDecision, approved, denied, get_approval}
use agentguard_action_proxy.Server.State.{
  Clock, Executor, AgentGuardState, Reply, bad_request, started,
}
use agentguard_action_proxy.Server.Execute.{
  Gate, policy_denied, approval_not_granted, passed, gate, create_executor, validate_and_start,
  pass_gate, begin_execute,
}

-- The policy did not deny the action, and where it wants a review, a human has approved.
abbrev IsCleared : Decision → Option ApprovalDecision → Type 0
IsCleared d approval = (d ≢ deny) × (d ≡ review_required → approval ≡ some approved)

pub gate-IsCleared :
    (d : Decision) (approval : Option ApprovalDecision)
    → (gate d approval ≡ passed) ↔ IsCleared d approval
unfolding gate
gate-IsCleared deny approval = ground arith
gate-IsCleared review_required none = ground arith
gate-IsCleared review_required (some approved) = ground arith
gate-IsCleared review_required (some denied) = ground arith
gate-IsCleared allow approval = ground arith

Gate-cases : (g : Gate) → (g ≡ policy_denied) ⊎ (g ≡ approval_not_granted) ⊎ (g ≡ passed)
Gate-cases policy_denied = inl refl
Gate-cases approval_not_granted = inr (inl refl)
Gate-cases passed = inr (inr refl)

module _ {js : Js} where
  -- All that an execution rests on.
  pub record IsAuthorised (now : ℕ) (token_id : String) (a : ActionRequest js)
      (s : AgentGuardState js) : Type 0 where
    pub preview : PreviewResponse
    pub previewed : lookup a.action_id s.previews ≡ some preview
    pub cleared : IsCleared preview.decision (get_approval a.action_id s.approvals)
    pub token : EphemeralExecutionToken js
    pub issued : lookup token_id s.tokens ≡ some token
    pub permitted : Permits now token a

  -- Nothing but the audit log differs.
  pub record OnlyLogs (s t : AgentGuardState js) : Type 0 where
    pub tokens : t.tokens ≡ s.tokens
    pub approvals : t.approvals ≡ s.approvals
    pub previews : t.previews ≡ s.previews
    pub attempts : t.attempt_counter ≡ s.attempt_counter

  -- The reply says that the executor runs.
  abbrev pub HasStarted : Reply js → Type 0
  HasStarted r = (e : Executor) × (r ≡ started e)

  module _ (clock : Clock) (token_id : String) (a : ActionRequest js) (s : AgentGuardState js) where
    abbrev begun : AgentGuardState js × Reply js
    begun = begin_execute clock token_id a s

    -- The two ways out of the handler.
    pub data Cases : Type 0 where
      refused :
          ¬ HasStarted begun.1 → ¬ IsAuthorised (clock 0) token_id a s → OnlyLogs s begun.0 → Cases
      ran :
          (auth : IsAuthorised (clock 0) token_id a s)
          → begun.1 ≡ started (create_executor a)
          → begun.0.tokens ≡ insert token_id (mark_used auth.token) s.tokens
          → begun.0.approvals ≡ s.approvals
          → begun.0.previews ≡ s.previews
          → Cases

    refused_by :
        (r : AgentGuardState js × Reply js)
        → begun ≡ r
        → ¬ HasStarted r.1
        → ¬ IsAuthorised (clock 0) token_id a s
        → OnlyLogs s r.0
        → Cases
    refused_by r e idle unauthorised kept = refused (rw e idle) unauthorised (rw e kept)

    no_preview : lookup a.action_id s.previews ≡ none → Cases
    unfolding begin_execute
    no_preview e =
        refused_by (s, bad_request "preview_required_before_execute") (rw (e, begin_execute))
          (λ (x, h). cc) (λ auth. cc (auth.previewed))
          (record { tokens = refl; approvals = refl; previews = refl; attempts = refl })

    module _ (p : PreviewResponse) (found : lookup a.action_id s.previews ≡ some p) where
      approval : Option ApprovalDecision
      approval = get_approval a.action_id s.approvals

      at_gate : (g : Gate) → gate p.decision approval ≡ g → begun ≡ pass_gate g clock token_id a s
      unfolding approval begin_execute
      at_gate g e = rw (found, begin_execute) (cc e)

      gate_shut : gate p.decision approval ≢ passed → ¬ IsAuthorised (clock 0) token_id a s
      unfolding approval
      gate_shut shut auth =
          let same : auth.preview ≡ p = cc (auth.previewed) in
          shut ((gate-IsCleared p.decision approval).1 (rw same at auth.cleared))

      denied_case : gate p.decision approval ≡ policy_denied → Cases
      unfolding pass_gate
      denied_case g =
          refused_by (pass_gate policy_denied clock token_id a s) (at_gate policy_denied g)
            (λ (x, h). cc) (gate_shut (λ h. cc))
            (record { tokens = refl; approvals = refl; previews = refl; attempts = refl })

      unapproved_case : gate p.decision approval ≡ approval_not_granted → Cases
      unfolding pass_gate
      unapproved_case g =
          refused_by (pass_gate approval_not_granted clock token_id a s)
            (at_gate approval_not_granted g) (λ (x, h). cc) (gate_shut (λ h. cc))
            (record { tokens = refl; approvals = refl; previews = refl; attempts = refl })

      module _ (g : gate p.decision approval ≡ passed) where
        abbrev verdict : Verdict js
        verdict = validate_for_execution (clock 0) token_id a s.tokens

        at_validation : begun ≡ validate_and_start clock token_id a s
        unfolding pass_gate
        at_validation = at_gate passed g

        token_refused : verdict.valid ≡ false → Cases
        unfolding validate_and_start
        token_refused invalid =
            let kept = validate-refused (clock 0) token_id a s.tokens invalid in
            refused_by (validate_and_start clock token_id a s) at_validation
              (rw invalid (λ (x, h). cc))
              (λ auth. cc (
                (validate_iff (clock 0) token_id a s.tokens).1
                  (auth.token, auth.issued, auth.permitted)))
              (rw invalid
                (record { tokens = kept; approvals = refl; previews = refl; attempts = refl }))

        token_accepted : verdict.valid ≡ true → Cases
        unfolding validate_and_start approval
        token_accepted valid =
            let (t, listed, permits, after) =
              validate-accepted (clock 0) token_id a s.tokens valid in
            ran
              (record {
                preview = p;
                previewed = found;
                cleared = (gate-IsCleared p.decision approval).0 g;
                token = t;
                issued = listed;
                permitted = permits;
              })
              (rw (at_validation, valid)) (rw (at_validation, valid) after)
              (rw (at_validation, valid)) (rw (at_validation, valid))

      found_case : Cases
      found_case = elim (Gate-cases (gate p.decision approval)) [
        | inl g ↦ denied_case g
        | inr (inl g) ↦ unapproved_case g
        | inr (inr g) ↦ elim (Bool-cases (verdict g).valid) [
          | inl valid ↦ token_accepted g valid
          | inr invalid ↦ token_refused g invalid
        ]
      ]

    pub begin_execute_cases : Cases
    begin_execute_cases = elim (Option-cases (lookup a.action_id s.previews)) [
      | inl e ↦ no_preview e
      | inr (p, e) ↦ found_case p e
    ]

    -- The executor is called exactly when the action was previewed under its id and not denied, was
    -- approved if the preview asked for a review, and the token permits this very action now.
    pub begin_execute_iff : HasStarted begun.1 ↔ IsAuthorised (clock 0) token_id a s
    begin_execute_iff = elim begin_execute_cases [
      | refused idle unauthorised kept ↦ (λ h. absurd (idle h), λ auth. absurd (unauthorised auth))
      | ran auth e _ _ _ ↦ (λ _. auth, λ _. (create_executor a, e))
    ]

    -- An execution that does not start changes nothing but the audit log. One that starts goes to the
    -- executor of the action's target system, and marks its token used: every other token, the
    -- approvals and the previews stay.
    pub begin_execute_effect :
        ((¬ HasStarted begun.1) × OnlyLogs s begun.0)
        ⊎ ((begun.1 ≡ started (create_executor a))
            × (begun.0.approvals ≡ s.approvals)
            × (begun.0.previews ≡ s.previews)
            × (t : EphemeralExecutionToken js) × (lookup token_id s.tokens ≡ some t)
            × ((k : String)
                → lookup k begun.0.tokens
                  ≡ (if token_id == k then some (mark_used t) else lookup k s.tokens)))
    begin_execute_effect = elim begin_execute_cases [
      | refused idle unauthorised kept ↦ inl (idle, kept)
      | ran auth e tokens approvals previews ↦ inr (
        e,
        approvals,
        previews,
        auth.token,
        auth.issued,
        λ k. rw tokens (lookup-insert token_id k (mark_used auth.token) s.tokens),
      )
    ]
