-- ===== src/Token/Acceptance.antt =====
-- When a token is accepted, and what that does to the store.
use agentguard_action_proxy.Common.{
  ℕ, ◌≤◌, String, ◌≡◌, ◌⊎◌, inl, inr, ◌↔◌, true, false, none, some, ◌==◌, arith, eq_iff,
  Option-cases, if◌then◌else◌,
}
use agentguard_action_proxy.Common.Dict.{lookup, insert, lookup-insert}
use agentguard_action_proxy.Js.{Js}
use agentguard_action_proxy.Models.{ActionRequest, EphemeralExecutionToken}
use agentguard_action_proxy.Fingerprint.{action_fingerprint}
use agentguard_action_proxy.Token.{
  TokenService, Verdict, loan_amount, loan_amount_differs, fingerprint_differs, refusal, mark_used,
  validate_for_execution,
}

module _ {js : Js} where
  -- The token lets the action through at this moment.
  pub record Permits (now : ℕ) (t : EphemeralExecutionToken js) (a : ActionRequest js)
      : Type 0 where
    pub alive : now ≤ t.expires_at
    pub fresh : t.used ≡ false
    pub same_action : t.action_id ≡ a.action_id
    pub same_type : t.allowed_action_type ≡ a.action_type
    pub same_target : t.allowed_target ≡ a.target_resource
    pub same_amount : loan_amount_differs js t.approved_loan_amount (loan_amount a) ≡ false
    pub same_content : fingerprint_differs t.request_fingerprint (action_fingerprint a) ≡ false

  refusal-Permits :
      (now : ℕ) (t : EphemeralExecutionToken js) (a : ActionRequest js)
      → refusal now t a ≡ none
      → Permits now t a
  unfolding refusal
  refusal-Permits now t a passed = ground (
    arith,
    eq_iff t.action_id a.action_id,
    eq_iff t.allowed_action_type a.action_type,
    eq_iff t.allowed_target a.target_resource,
  )

  Permits-refusal :
      (now : ℕ) (t : EphemeralExecutionToken js) (a : ActionRequest js)
      → Permits now t a
      → refusal now t a ≡ none
  unfolding refusal
  Permits-refusal now t a p = ground (
    arith,
    eq_iff t.action_id a.action_id,
    eq_iff t.allowed_action_type a.action_type,
    eq_iff t.allowed_target a.target_resource,
  )

  module _ (now : ℕ) (token_id : String) (a : ActionRequest js) (tokens : TokenService js) where
    abbrev outcome : Verdict js
    outcome = validate_for_execution now token_id a tokens

    refused : String → Verdict js
    refused why = record { valid = false; reason = why; tokens = tokens }

    accepted : EphemeralExecutionToken js → Verdict js
    accepted t = record {
      valid = true;
      reason = "token_valid";
      tokens = insert token_id (mark_used t) tokens;
    }

    -- The three ways out of a validation.
    data Cases : Type 0 where
      not_found : lookup token_id tokens ≡ none → outcome ≡ refused "token_not_found" → Cases
      rejected :
          (t : EphemeralExecutionToken js) (why : String)
          → lookup token_id tokens ≡ some t
          → refusal now t a ≡ some why
          → outcome ≡ refused why
          → Cases
      passed :
          (t : EphemeralExecutionToken js)
          → lookup token_id tokens ≡ some t
          → refusal now t a ≡ none
          → outcome ≡ accepted t
          → Cases

    validate_cases : Cases
    unfolding validate_for_execution refused accepted
    validate_cases = elim (Option-cases (lookup token_id tokens)) [
      | inl e ↦ not_found e (rw (e, validate_for_execution))
      | inr (t, e) ↦ elim (Option-cases (refusal now t a)) [
        | inl r ↦ passed t e r (rw (e, r, validate_for_execution))
        | inr (why, r) ↦ rejected t why e r (rw (e, r, validate_for_execution))
      ]
    ]

    -- A token id is accepted exactly when the store holds a token under it that has not expired, is
    -- unused, and agrees with the action in its id, type, target, loan amount and fingerprint.
    pub validate_iff :
        (outcome.valid ≡ true)
        ↔ ((t : EphemeralExecutionToken js) × (lookup token_id tokens ≡ some t) × Permits now t a)
    unfolding refused accepted
    validate_iff = elim validate_cases [
      | not_found e o ↦ (λ h. cc, λ (t, f, p). cc)
      | rejected t why e r o ↦ (λ h. cc, λ (u, f, p). cc (Permits-refusal now u a p))
      | passed t e r o ↦ (λ h. (t, e, refusal-Permits now t a r), λ p. cc)
    ]

    -- A refusal leaves the store as it is. An acceptance marks the token used: it is found used
    -- under its id, and every other entry is unchanged.
    pub validate-tokens :
        ((outcome.valid ≡ false) × (outcome.tokens ≡ tokens))
        ⊎ ((outcome.valid ≡ true)
            × (t : EphemeralExecutionToken js) × (lookup token_id tokens ≡ some t)
            × ((k : String)
                → lookup k outcome.tokens
                  ≡ (if token_id == k then some (mark_used t) else lookup k tokens)))
    unfolding refused accepted
    validate-tokens = elim validate_cases [
      | not_found e o ↦ inl (cc, cc)
      | rejected t why e r o ↦ inl (cc, cc)
      | passed t e r o ↦ inr (cc, t, e, λ k. cc (lookup-insert token_id k (mark_used t) tokens))
    ]

    -- A refusal, for a caller.
    pub validate-refused : outcome.valid ≡ false → outcome.tokens ≡ tokens
    unfolding refused accepted
    validate-refused no_way = elim validate_cases [
      | not_found e o ↦ cc
      | rejected t why e r o ↦ cc
      | passed t e r o ↦ cc
    ]

    -- An acceptance, for a caller.
    pub validate-accepted :
        outcome.valid ≡ true
        → (t : EphemeralExecutionToken js) × (lookup token_id tokens ≡ some t)
          × Permits now t a
          × (outcome.tokens ≡ insert token_id (mark_used t) tokens)
    unfolding refused accepted
    validate-accepted ok = elim validate_cases [
      | not_found e o ↦ cc
      | rejected t why e r o ↦ cc
      | passed t e r o ↦ (t, e, refusal-Permits now t a r, cc)
    ]
