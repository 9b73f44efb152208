-- ===== src/InputControl/Inspection/Outcomes.antt =====
-- From what the scanners find to the answer and the audit log.
use agentguard_action_proxy.Common.{
  ◌≤◌, String, Bool, true, false, ◌≡◌, refl, sym, ap, subst, inl, inr, ◌&&◌, some, List, [], ◌∷◌,
  ◌++◌, arith, ltb, leb, Bool-cases,
}
use agentguard_action_proxy.Common.Lists.{length}
use agentguard_action_proxy.InputControl.Models.{block, Finding}
use agentguard_action_proxy.InputControl.CompositeRisks.{has_any, evaluate_composite_risks}
use agentguard_action_proxy.InputControl.DestinationRisks.{
  Destination, has_category, has_secret, evaluate_destination_risks,
}
use agentguard_action_proxy.InputControl.DestinationRisks.Secrets.{IsLeak, leak-blocked}
use agentguard_action_proxy.InputControl.Inspection.{
  Scanners, Inspection, InspectionResponse, InspectionOutcome, responds, InputAuditEvent,
  found_in_text, masked_text, policy_findings, composites_found, policy_result, event_of,
  response_of_call, events_before_outcome, events_of_call, inspect_text,
}
use agentguard_action_proxy.InputControl.PolicyEngine.{evaluate_input_policy}

-- More findings keep what was found.
has_category-++ :
    (category : String) (fs gs : List Finding)
    → has_category category fs ≡ true
    → has_category category (fs ++ gs) ≡ true
unfolding has_category
has_category-++ category [] gs h = ground arith
has_category-++ category (f ∷ fs) gs h = elim (Bool-cases (has_category category fs)) [
  | inl e ↦ let rest = has_category-++ category fs gs e in ground arith
  | inr e ↦ ground arith
]

has_any-++ :
    (types : List String) (fs gs : List Finding)
    → has_any fs types ≡ true
    → has_any (fs ++ gs) types ≡ true
unfolding has_any
has_any-++ types [] gs h = ground arith
has_any-++ types (f ∷ fs) gs h = elim (Bool-cases (has_any fs types)) [
  | inl e ↦ let rest = has_any-++ types fs gs e in ground arith
  | inr e ↦ ground arith
]

abbrev secret_types : List String
secret_types =
    "PRIVATE_KEY" ∷ "XRPL_FAMILY_SEED" ∷ "MNEMONIC_SEED_PHRASE" ∷ "DATABASE_CONNECTION_STRING" ∷ []

has_secret-++ : (fs gs : List Finding) → has_secret fs ≡ true → has_secret (fs ++ gs) ≡ true
unfolding has_secret
has_secret-++ fs gs h = elim (Bool-cases (has_category "CREDENTIAL_SECRET" fs)) [
  | inl e ↦ let more = has_category-++ "CREDENTIAL_SECRET" fs gs e in ground arith
  | inr e ↦ let more = has_any-++ secret_types fs gs (ground arith) in ground arith
]

-- A leak of some findings is one of more findings.
IsLeak-++ : (fs gs : List Finding) (d : Destination) → IsLeak fs d → IsLeak (fs ++ gs) d
IsLeak-++ fs gs d (inl h) = let more = has_secret-++ fs gs (ground arith) in inl (ground arith)
IsLeak-++ fs gs d (inr h) =
    let more = has_category-++ "CONFIDENTIAL_DOCUMENT" fs gs (ground arith) in inr (ground arith)

module _ (scanners : Scanners) (call : Inspection) where
  -- A call that ends in a block: its response, and the event that closes the log.
  pub record IsBlocked (before after : List InputAuditEvent) (o : InspectionOutcome) : Type 0 where
    pub response : InspectionResponse
    pub answered : o ≡ responds response
    pub decided : response.result.decision ≡ block
    pub earlier : List InputAuditEvent
    pub applied : Bool
    pub closed :
        after
        ≡ before
          ++ (earlier ++ (event_of scanners call 5 "input_blocked" [] 0 (some block) applied ∷ []))

  policy_result-block :
      (d : Destination)
      → call.destination ≡ some d
      → IsLeak (found_in_text scanners call) d
      → (policy_result scanners call).decision ≡ block
  unfolding policy_result composites_found policy_findings
  policy_result-block d to leak =
      let findings = policy_findings scanners call in
      let fully_masked =
        (masked_text scanners call).masking_applied
        && leb (length (masked_text scanners call).residual_findings) 0 in
      let composites = evaluate_composite_risks findings in
      subst
        (λ whereto.
          (evaluate_input_policy call.policy.rules findings fully_masked
            (composites ++ evaluate_destination_risks findings whereto)).decision
          ≡ block)
        (sym to)
        (leak-blocked call.policy.rules findings fully_masked composites d (
          IsLeak-++ (found_in_text scanners call) (masked_text scanners call).residual_findings d
            leak))

  accepted :
      (events : List InputAuditEvent)
      → scanners.is_blank call.text ≡ false
      → length call.text ≤ call.policy.max_prompt_length
      → inspect_text scanners call events
        ≡ (events ++ events_of_call scanners call, responds (response_of_call scanners call))
  unfolding inspect_text
  accepted events filled short =
      let fits : ltb call.policy.max_prompt_length (length call.text) ≡ false = ground arith in
      rw (filled, fits) refl

  closing :
      (policy_result scanners call).decision ≡ block
      → events_of_call scanners call
        ≡ events_before_outcome scanners call
          ++ (event_of scanners call 5 "input_blocked" [] 0
                (some block)
                (masked_text scanners call).masking_applied
              ∷ [])
  unfolding events_of_call
  closing blocked = rw blocked refl

  -- An inspected text in which the scanners find a secret for an unknown, external or unapproved
  -- destination, or a confidential document for an unapproved external model, is answered with a
  -- block, and the last event of the log says so, if the text is neither blank nor too long.
  pub inspect_text-IsBlocked :
      (events : List InputAuditEvent) (d : Destination)
      → scanners.is_blank call.text ≡ false
      → length call.text ≤ call.policy.max_prompt_length
      → call.destination ≡ some d
      → IsLeak (found_in_text scanners call) d
      → let (after, outcome) = inspect_text scanners call events in IsBlocked events after outcome
  unfolding response_of_call
  inspect_text-IsBlocked events d filled short to leak =
      let blocked = policy_result-block d to leak in
      rw (accepted events filled short) record {
        response = response_of_call scanners call;
        answered = refl;
        decided = blocked;
        earlier = events_before_outcome scanners call;
        applied = (masked_text scanners call).masking_applied;
        closed = ap (λ more. events ++ more) (closing blocked);
      }
