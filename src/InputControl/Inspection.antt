-- ===== src/InputControl/Inspection.antt =====
-- input-control-demo/src/inspection-engine.ts, with audit-log.ts and `buildEvidence` of
-- evidence-builder.ts. The detectors of the scanners, the hash and the file of the policy are
-- arguments.
pub mod Outcomes
use agentguard_action_proxy.Common.{
  ℕ, String, Bool, true, false, ◌&&◌, ◌==◌, Option, none, some, List, [], ◌∷◌, ◌++◌, map,
  if◌then◌else◌, ltb, leb, concat,
}
use agentguard_action_proxy.Common.Lists.{length}
use agentguard_action_proxy.InputControl.Models.{
  InputDecision, allow, mask, review, block, Severity, Finding, CompositeRisk, PolicyRule,
}
use agentguard_action_proxy.InputControl.PolicyEngine.{
  distinct_texts, InputPolicyResult, evaluate_input_policy,
}
use agentguard_action_proxy.InputControl.CompositeRisks.{evaluate_composite_risks}
use agentguard_action_proxy.InputControl.DestinationRisks.{
  Destination, has_category, evaluate_destination_risks,
}
use agentguard_action_proxy.InputControl.Masking.{Text, MaskingResult, mask_text}

-- What `loadPolicy` reads from the policy file.
pub record InputPolicy : Type 0 where
  pub policy_version : String
  pub scanner_version : String
  pub max_prompt_length : ℕ
  pub rules : List PolicyRule

-- The scanners and the runtime.
pub record Scanners : Type 0 where
  pub scan_prompt : Text → String → List Finding
  pub detect_sensitive_data : Text → String → List Finding
  pub detect_extended_data : Text → String → Option Destination → List Finding
  pub sha256 : Text → String
  -- `!text.trim()`.
  pub is_blank : Text → Bool

-- Without `originalStored`, which is always false.
pub record InputAuditEvent : Type 0 where
  pub request_id : String
  pub event : String
  pub timestamp : String
  pub input_hash : String
  pub policy_version : String
  pub detected_types : List String
  pub detected_count : ℕ
  pub decision : Option InputDecision
  pub masking_applied : Bool

-- Without `originalContentStored`, which is always false.
pub record Evidence : Type 0 where
  pub evidence_id : String
  pub input_hash : String
  pub policy_version : String
  pub scanner_version : String
  pub timestamp : String

pub record MaskingSummary : Type 0 where
  pub applied : Bool
  pub masked_count : ℕ
  pub safe_text : Option Text

pub record InspectionResponse : Type 0 where
  pub request_id : String
  -- The fields that `...result` spreads.
  pub result : InputPolicyResult
  pub summary : String
  pub findings : List Finding
  pub masking : MaskingSummary
  pub evidence : Evidence
  pub composite_risks : List CompositeRisk
  pub destination : Option Destination
  pub decision_reasons : List String
  pub recommended_actions : List String

-- A thrown error, or the response.
pub data InspectionOutcome : Type 0 where
  throws : String → InspectionOutcome
  responds : InspectionResponse → InspectionOutcome

abbrev pub recommended : InputDecision → List String
recommended block = "전송을 중단하고 Secret 또는 기밀 내용을 제거하세요." ∷ []
recommended review = "보안 담당자 검토 후 승인된 목적지로만 전송하세요." ∷ []
recommended mask = "마스킹된 안전 텍스트만 전송하세요." ∷ []
recommended allow = "전송 가능합니다." ∷ []

unfoldable pub summarized : InputDecision → List Finding → String
summarized allow findings =
    if has_category "PUBLIC_IDENTIFIER" findings
    then "공개 블록체인 주소가 확인되었습니다. 비밀 키가 아니므로 마스킹하지 않습니다."
    else "위험 요소가 탐지되지 않아 전송 가능합니다."
summarized mask findings = "민감정보가 탐지되어 마스킹 후 전송할 수 있습니다."
summarized review findings = "사람의 확인 전까지 전송이 보류됩니다."
summarized block findings = "정책상 외부 전송이 차단되었습니다."

abbrev outcome_event : InputDecision → String
outcome_event allow = "input_allowed"
outcome_event block = "input_blocked"
outcome_event review = "input_review_required"
outcome_event mask = "masking_applied"

-- `f.type || f.category`.
unfoldable pub type_or_category : Finding → String
type_or_category f = elim f.type [ none ↦ f.category | some t ↦ if t == "" then f.category else t ]

-- At a UUID and a time, with the hash of the input.
unfoldable pub build_evidence : InputPolicy → String → String → String → Evidence
build_evidence policy uuid now hash = record {
  evidence_id = concat ("ev-" ∷ uuid ∷ []);
  input_hash = hash;
  policy_version = policy.policy_version;
  scanner_version = policy.scanner_version;
  timestamp = now;
}

-- `[...new Set(findings.map(f => f.type || f.category))]`.
unfoldable pub distinct_types : List Finding → List String
unfolding distinct_texts type_or_category
distinct_types findings = distinct_texts [] (map type_or_category findings)

-- One call: its policy, a fresh UUID, the successive readings of the clock, and its arguments.
pub record Inspection : Type 0 where
  pub policy : InputPolicy
  pub uuid : String
  pub clock : ℕ → String
  pub request_id : String
  pub text : Text
  pub source : String
  pub destination : Option Destination

module _ (scanners : Scanners) (call : Inspection) where
  -- The event that `record` pushes, at the reading of the clock with this number.
  unfoldable pub event_of :
      ℕ → String → List String → ℕ → Option InputDecision → Bool → InputAuditEvent
  event_of reading event types count decision masking_applied = record {
    request_id = call.request_id;
    event = event;
    timestamp = call.clock reading;
    input_hash = scanners.sha256 call.text;
    policy_version = call.policy.policy_version;
    detected_types = types;
    detected_count = count;
    decision = decision;
    masking_applied = masking_applied;
  }

  unfoldable pub found_in_text : List Finding
  found_in_text =
      scanners.scan_prompt call.text call.source
      ++ (scanners.detect_sensitive_data call.text call.source
          ++ scanners.detect_extended_data call.text call.source call.destination)

  unfoldable pub masked_text : MaskingResult
  masked_text =
      mask_text (λ safe. scanners.detect_sensitive_data safe "prompt") call.text found_in_text

  unfoldable pub policy_findings : List Finding
  policy_findings = found_in_text ++ masked_text.residual_findings

  unfoldable pub composites_found : List CompositeRisk
  composites_found =
      evaluate_composite_risks policy_findings
      ++ evaluate_destination_risks policy_findings call.destination

  unfoldable pub policy_result : InputPolicyResult
  policy_result =
      evaluate_input_policy call.policy.rules policy_findings
        (masked_text.masking_applied && leb (length masked_text.residual_findings) 0)
        composites_found

  -- The events of a call before its outcome, oldest first.
  unfoldable pub events_before_outcome : List InputAuditEvent
  events_before_outcome =
      event_of 1 "input_received" [] 0 none false
      ∷ event_of 2 "prompt_inspected" (distinct_types found_in_text) (length found_in_text) none
          false
      ∷ ((if masked_text.masking_applied
            then event_of 3 "masking_applied" masked_text.masked_types masked_text.masked_count none
                true
              ∷ []
            else [])
          ++ (event_of 4 "policy_evaluated" (distinct_types policy_findings)
                (length policy_findings) (some policy_result.decision) masked_text.masking_applied
              ∷ []))

  unfoldable pub events_of_call : List InputAuditEvent
  events_of_call =
      events_before_outcome
      ++ (event_of 5 (outcome_event policy_result.decision) [] 0 (some policy_result.decision)
            masked_text.masking_applied
          ∷ [])

  unfoldable pub response_of_call : InspectionResponse
  response_of_call = record {
    request_id = call.request_id;
    result = policy_result;
    summary = summarized policy_result.decision policy_findings;
    findings = policy_findings;
    masking = record {
      applied = masked_text.masking_applied;
      masked_count = masked_text.masked_count;
      safe_text = if masked_text.masking_applied then some masked_text.safe_text else none;
    };
    evidence = build_evidence call.policy call.uuid (call.clock 0) (scanners.sha256 call.text);
    composite_risks = composites_found;
    destination = call.destination;
    decision_reasons = map (λ (c : CompositeRisk). c.reason) composites_found;
    recommended_actions = recommended policy_result.decision;
  }

  -- The log after the call, and what the call comes to.
  unfoldable pub inspect_text : List InputAuditEvent → List InputAuditEvent × InspectionOutcome
  inspect_text events =
      if scanners.is_blank call.text
      then (events, throws "prompt_required")
      else if ltb call.policy.max_prompt_length (length call.text)
      then (events, throws "prompt_too_long")
      else (events ++ events_of_call, responds response_of_call)
