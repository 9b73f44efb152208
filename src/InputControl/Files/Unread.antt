-- ===== src/InputControl/Files/Unread.antt =====
-- What becomes of a file whose text was not read.
use agentguard_action_proxy.Common.{
  ◌≤◌, ◌<◌, String, true, false, ◌≡◌, refl, subst, ◌⊎◌, inl, inr, not, Option, none, some, List, [],
  ◌∷◌, ◌++◌, map, if◌then◌else◌, arith, ltb, leb, ◌&&◌,
}
use agentguard_action_proxy.Common.Dict.{lookup}
use agentguard_action_proxy.Common.Lists.{length}
use agentguard_action_proxy.InputControl.Models.{InputDecision, medium, high, Finding}
use agentguard_action_proxy.InputControl.PolicyEngine.{rank, contributed}
use agentguard_action_proxy.InputControl.PolicyEngine.Supremum.{All, decision-IsSupremum}
use agentguard_action_proxy.InputControl.Inspection.{InputAuditEvent}
use agentguard_action_proxy.InputControl.Files.{
  Buffer, FileReaders, FileLimits, FileMetadata, ValueMarks, type_findings, size_findings,
  listed_findings, file_finding, new_metadata, read_document, after_reading, after_type_check,
  analyze_file, Document, metadata_findings, hidden_finding,
}
use agentguard_action_proxy.InputControl.Files.Response.{
  FileScanners, FileCall, FileResponse, FileOutcome, inspected,
}
use agentguard_action_proxy.InputControl.Files.Service.{
  analyzed, file_findings, masked_file, all_findings, file_composites, file_result, file_response,
  parse_failure, file_answer, inspect_upload, post_files_inspect,
}

-- The file is too large, of a type that the policy does not list, or its document cannot be parsed.
abbrev IsUnread : FileReaders → FileCall → Type 0
IsUnread readers call =
    let upload = call.upload in
    let extension = readers.extension_of (readers.normalize_filename upload.filename) in
    (call.limits.max_file_bytes < length upload.buf)
    ⊎ (lookup extension call.limits.supported_files ≡ none)
    ⊎ (read_document readers extension upload.buf ≡ none)

-- The part of the findings that keeps their property.
All-drop : (P : Finding → Type 0) (fs gs : List Finding) → All P (fs ++ gs) → All P gs
unfolding All
All-drop P [] gs h = h
All-drop P (f ∷ fs) gs h = All-drop P fs gs h.1

All-take : (P : Finding → Type 0) (fs gs : List Finding) → All P (fs ++ gs) → All P fs
unfolding All
All-take P [] gs h = tt
All-take P (f ∷ fs) gs h = (h.0, All-take P fs gs h.1)

abbrev IsMild : Finding → Type 0
IsMild f = rank (contributed f) ≤ 1

-- The metadata of an unread file ask for a review.
metadata_findings-review :
    (marks : ValueMarks) (m : FileMetadata)
    → m.parse_success ≡ false
    → All IsMild (metadata_findings marks m)
    → ⊥
unfolding metadata_findings All contributed
metadata_findings-review marks m unread h =
    let asked =
      subst
        (λ success. All IsMild (
          (if not success
            then hidden_finding marks "DOCUMENT_PARSE_FAILED_HIDDEN_INFO" high "PARSE_FAILED"
                "hidden_parse_failed"
              ∷ []
            else [])
          ++ (map (λ l. hidden_finding marks "DOCUMENT_EXTERNAL_URL" medium l "hidden_external_url")
                m.external_links
              ++ (if m.encrypted
                  then hidden_finding marks "ENCRYPTED_DOCUMENT" high "encrypted" "hidden_encrypted"
                    ∷ []
                  else []))))
        unread h in
    omega (arith, asked.0)

cons_apart : (f : Finding) (fs : List Finding) → f ∷ fs ≡ [] → ⊥
cons_apart f fs e = cc

append_apart : (fs : List Finding) (f : Finding) → fs ++ (f ∷ []) ≡ [] → ⊥
append_apart [] f e = cons_apart f [] e
append_apart (g ∷ fs) f e = cons_apart g (fs ++ (f ∷ [])) e

-- A file of a type that is not let through.
IsRefused : FileLimits → Buffer → String → Type 0
IsRefused limits buf extension =
    (limits.max_file_bytes < length buf) ⊎ (lookup extension limits.supported_files ≡ none)

type_findings-refused :
    (limits : FileLimits) (buf : Buffer) (extension mime : String)
    → IsRefused limits buf extension
    → type_findings limits buf extension mime ≡ []
    → ⊥
unfolding type_findings size_findings listed_findings IsRefused
type_findings-refused limits buf extension mime (inl large) e =
    let over : ltb limits.max_file_bytes (length buf) ≡ true = ground arith in
    cons_apart _ _ (
      subst
        (λ b.
          (if b then file_finding "file_size_limit_exceeded" ∷ [] else [])
            ++ listed_findings (lookup extension limits.supported_files) mime
          ≡ [])
        over e)
type_findings-refused limits buf extension mime (inr missing) e =
    append_apart _ (file_finding "unsupported_file_type")
      (subst (λ types. size_findings limits buf ++ listed_findings types mime ≡ []) missing e)

module _ (readers : FileReaders) where
  after_type_check-unread :
      (meta : FileMetadata) (document : Option Document) (fs : List Finding)
      → meta.parse_success ≡ false
      → (fs ≡ [] → ⊥) ⊎ (document ≡ none)
      → (after_type_check readers meta document fs).metadata.parse_success ≡ false
  unfolding after_type_check after_reading
  after_type_check-unread meta document [] new (inl h) = absurd (h refl)
  after_type_check-unread meta document [] new (inr e) = rw e new
  after_type_check-unread meta document (f ∷ fs) new h = new

  analyzed-unread :
      (call : FileCall)
      → IsUnread readers call
      → (analyzed readers call).metadata.parse_success ≡ false
  unfolding analyzed analyze_file new_metadata IsRefused
  analyzed-unread call unread =
      let upload = call.upload in
      let meta = new_metadata readers upload.buf upload.filename upload.mimetype in
      let refused = type_findings-refused call.limits upload.buf meta.extension upload.mimetype in
      after_type_check-unread meta (read_document readers meta.extension upload.buf)
        (type_findings call.limits upload.buf meta.extension upload.mimetype) refl
        (elim unread [
          | inl large ↦ inl (refused (inl large))
          | inr (inl missing) ↦ inl (refused (inr missing))
          | inr (inr failed) ↦ inr failed
        ])

above_one : (d : InputDecision) → (rank d ≤ 1 → ⊥) → 2 ≤ rank d
above_one d h = omega (arith, h)

-- An answer that asks for a review at least.
pub record IsWithheld (outcome : FileOutcome) : Type 0 where
  pub response : FileResponse
  pub answered : outcome ≡ inspected response
  pub held : 2 ≤ rank response.result.decision

module _ (readers : FileReaders) (marks : ValueMarks) (scanners : FileScanners)
    (call : FileCall) where
  mild-parse_success :
      All IsMild (all_findings readers marks scanners call)
      → (analyzed readers call).metadata.parse_success ≡ false
      → ⊥
  unfolding all_findings file_findings
  mild-parse_success mild unread =
      let a = analyzed readers call in
      let found = All-take IsMild _ _ mild in
      metadata_findings-review marks a.metadata unread (
        All-take IsMild (metadata_findings marks a.metadata) _ (
          All-drop IsMild (scanners.detect_identities a.text "file_body" a.metadata) _ (
            All-drop IsMild (scanners.detect_sensitive_data a.text "file_body") _ (
              All-drop IsMild (scanners.scan_prompt a.text "file_body") _
                (All-drop IsMild a.findings _ found)))))

  unread-review :
      (analyzed readers call).metadata.parse_success ≡ false
      → 2 ≤ rank (file_result readers marks scanners call).decision
  unfolding file_result
  unread-review unread = above_one (file_result readers marks scanners call).decision (λ mild.
      mild-parse_success
        ((decision-IsSupremum call.policy.rules (all_findings readers marks scanners call)
            ((masked_file readers marks scanners call).masking_applied
              && leb (length (masked_file readers marks scanners call).residual_findings) 0)
            (file_composites readers marks scanners call) 1).0
          mild).1
        unread)

  file_answer-held :
      (code : Option String)
      → IsUnread readers call
      → 2 ≤ rank (file_answer readers marks scanners call code).result.decision
  unfolding file_answer file_response parse_failure
  file_answer-held none unread = unread-review (analyzed-unread readers call unread)
  file_answer-held (some code) unread = omega arith

  -- An uploaded file that is too large, of a type that the policy does not list, or whose document
  -- cannot be parsed, is answered with a review or a block, whatever the scanners find and whatever
  -- the rules of the policy file are.
  pub unread-IsWithheld :
      (events : List InputAuditEvent)
      → IsUnread readers call
      → IsWithheld (post_files_inspect readers marks scanners (some call) events).1
  unfolding post_files_inspect inspect_upload
  unread-IsWithheld events unread = record {
    response = file_answer readers marks scanners call (analyzed readers call).error_code;
    answered = refl;
    held = file_answer-held (analyzed readers call).error_code unread;
  }
