-- ===== src/InputControl/Files/Service.antt =====
-- input-control-demo/src/server.ts: POST /files/inspect. The reading of the multipart body is outside:
-- its outcome is an Option. What throws behind it, which is answered as "file_inspection_failed", is
-- left out: the scanners are functions.
use agentguard_action_proxy.Common.{
  ℕ, String, Bool, false, ◌&&◌, ◌||◌, Option, none, some, List, [], ◌∷◌, ◌++◌, map, leb,
}
use agentguard_action_proxy.Common.Lists.{length}
use agentguard_action_proxy.InputControl.Models.{
  InputDecision, review, high, Finding, CompositeRisk,
}
use agentguard_action_proxy.InputControl.PolicyEngine.{InputPolicyResult, evaluate_input_policy}
use agentguard_action_proxy.InputControl.CompositeRisks.{evaluate_composite_risks}
use agentguard_action_proxy.InputControl.DestinationRisks.{evaluate_destination_risks}
use agentguard_action_proxy.InputControl.Masking.{MaskingResult, mask_text}
use agentguard_action_proxy.InputControl.Inspection.{
  InputAuditEvent, Evidence, build_evidence, type_or_category, distinct_types, recommended,
}
use agentguard_action_proxy.InputControl.Files.{
  FileReaders, Analyzed, analyze_file, ValueMarks, metadata_findings,
}
use agentguard_action_proxy.InputControl.Files.Response.{
  FileScanners, FileResponse, FileOutcome, rejected, inspected, parse_failed_summary, truncate,
  file_summary, FileCall,
}

module _ (readers : FileReaders) (call : FileCall) where
  unfoldable pub analyzed : Analyzed
  analyzed =
      analyze_file readers call.limits call.upload.buf call.upload.filename call.upload.mimetype

module _ (readers : FileReaders) (marks : ValueMarks) (scanners : FileScanners)
    (call : FileCall) where
  -- The event that `record` pushes, at the reading of the clock with this number.
  unfoldable pub file_event :
      ℕ → String → List String → ℕ → Option InputDecision → Bool → InputAuditEvent
  file_event reading event types count decision masking_applied = record {
    request_id = call.upload.request_id;
    event = event;
    timestamp = call.clock reading;
    input_hash = readers.sha256 call.upload.buf;
    policy_version = call.policy.policy_version;
    detected_types = types;
    detected_count = count;
    decision = decision;
    masking_applied = masking_applied;
  }

  abbrev file_evidence : Evidence
  file_evidence =
      build_evidence call.policy call.uuid (call.clock 0) (readers.sha256 call.upload.buf)

  unfoldable pub parse_failure : FileResponse
  parse_failure = record {
    request_id = call.upload.request_id;
    result = record {
      decision = review;
      risk_score = 70;
      risk_level = high;
      applied_policies = "file_parse_review" ∷ [];
    };
    summary = parse_failed_summary;
    error_code = some "DOCUMENT_PARSE_FAILED";
    findings = (analyzed readers call).findings;
    masking = record {
      applied = false;
      masked_count = 0;
      safe_text = [];
      extracted_text = [];
      truncated = none;
    };
    evidence = file_evidence;
    file_metadata = (analyzed readers call).metadata;
    composite_risks = [];
    destination = call.upload.destination;
    hidden_status = "PARSE_FAILED";
    link_count = length (analyzed readers call).metadata.external_links;
    decision_reasons = parse_failed_summary ∷ [];
    recommended_actions = recommended review;
  }

  unfoldable pub file_findings : List Finding
  file_findings =
      (analyzed readers call).findings
      ++ (scanners.scan_prompt (analyzed readers call).text "file_body"
          ++ (scanners.detect_sensitive_data (analyzed readers call).text "file_body"
              ++ (scanners.detect_identities (analyzed readers call).text "file_body"
                    (analyzed readers call).metadata
                  ++ (metadata_findings marks (analyzed readers call).metadata
                      ++ scanners.hidden_signals (analyzed readers call).text "file_body"))))

  unfoldable pub masked_file : MaskingResult
  masked_file =
      mask_text (λ safe. scanners.detect_sensitive_data safe "prompt") (analyzed readers call).text
        file_findings

  unfoldable pub all_findings : List Finding
  all_findings = file_findings ++ masked_file.residual_findings

  unfoldable pub file_composites : List CompositeRisk
  file_composites =
      evaluate_composite_risks all_findings
      ++ evaluate_destination_risks all_findings call.upload.destination

  unfoldable pub file_result : InputPolicyResult
  file_result =
      evaluate_input_policy call.policy.rules all_findings
        (masked_file.masking_applied && leb (length masked_file.residual_findings) 0)
        file_composites

  unfoldable pub file_response : FileResponse
  file_response = record {
    request_id = call.upload.request_id;
    result = file_result;
    summary = file_summary file_result.decision;
    error_code = none;
    findings = file_findings;
    masking = record {
      applied = masked_file.masking_applied;
      masked_count = masked_file.masked_count;
      safe_text = (truncate masked_file.safe_text).0;
      extracted_text = (truncate (analyzed readers call).text).0;
      truncated =
          some ((truncate (analyzed readers call).text).1 || (truncate masked_file.safe_text).1);
    };
    evidence = file_evidence;
    file_metadata = (analyzed readers call).metadata;
    composite_risks = file_composites;
    destination = call.upload.destination;
    hidden_status = "NOT_INSPECTED";
    link_count = length (analyzed readers call).metadata.external_links;
    decision_reasons = map (λ (c : CompositeRisk). c.reason) file_composites;
    recommended_actions = recommended file_result.decision;
  }

  -- By the error code of the analysis.
  unfoldable pub file_answer : Option String → FileResponse
  unfolding file_response parse_failure
  file_answer none = file_response
  file_answer (some code) = parse_failure

  unfoldable pub decision_event : Option String → InputAuditEvent
  decision_event none =
      file_event 2 "policy_evaluated" (distinct_types file_findings) (length file_findings)
        (some file_result.decision) masked_file.masking_applied
  decision_event (some code) =
      file_event 2 "policy_evaluated" ("DOCUMENT_PARSE_FAILED" ∷ []) 1 (some review) false

  -- The log after the call, and the answer.
  unfoldable pub inspect_upload : List InputAuditEvent → List InputAuditEvent × FileResponse
  inspect_upload events = (
    events
        ++ (file_event 1 "file_metadata_extracted"
              (map type_or_category (analyzed readers call).findings)
              (length (analyzed readers call).findings) none false
            ∷ decision_event (analyzed readers call).error_code
            ∷ []),
    file_answer (analyzed readers call).error_code,
  )

-- `POST /files/inspect`; `none` is a body in which `readMultipart` finds no file.
unfoldable pub post_files_inspect :
    FileReaders
    → ValueMarks
    → FileScanners
    → Option FileCall
    → List InputAuditEvent
    → List InputAuditEvent × FileOutcome
post_files_inspect readers marks scanners none events = (events, rejected "file_required")
post_files_inspect readers marks scanners (some call) events =
    let (after, response) = inspect_upload readers marks scanners call events in
    (after, inspected response)

-- `GET /audit` answers with the log as it is; `POST /demo/reset` empties it.
unfoldable reset_audit : List InputAuditEvent → List InputAuditEvent
reset_audit events = []
