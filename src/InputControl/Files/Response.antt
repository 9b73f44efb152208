-- ===== src/InputControl/Files/Response.antt =====
-- input-control-demo/src/server.ts: what POST /files/inspect takes and answers with.
use agentguard_action_proxy.Common.{
  ℕ, String, Bool, true, false, Option, List, ◌++◌, if◌then◌else◌, leb,
}
use agentguard_action_proxy.Common.Lists.{length, take}
use agentguard_action_proxy.InputControl.Models.{
  InputDecision, allow, mask, review, block, Finding, CompositeRisk,
}
use agentguard_action_proxy.InputControl.PolicyEngine.{InputPolicyResult}
use agentguard_action_proxy.InputControl.DestinationRisks.{Destination}
use agentguard_action_proxy.InputControl.Masking.{Text, units}
use agentguard_action_proxy.InputControl.Inspection.{InputPolicy, Evidence}
use agentguard_action_proxy.InputControl.Files.{Buffer, FileMetadata, FileLimits}

-- What `readMultipart` finds.
pub record Upload : Type 0 where
  pub buf : Buffer
  pub filename : String
  pub mimetype : String
  pub request_id : String
  pub destination : Option Destination

-- The scanners of texts: those of prompts, those of `detectExtendedData` in front of the hidden
-- content, and the signals of hidden content.
pub record FileScanners : Type 0 where
  pub scan_prompt : Text → String → List Finding
  pub detect_sensitive_data : Text → String → List Finding
  pub detect_identities : Text → String → FileMetadata → List Finding
  pub hidden_signals : Text → String → List Finding

pub record FileMasking : Type 0 where
  pub applied : Bool
  pub masked_count : ℕ
  pub safe_text : Text
  pub extracted_text : Text
  pub truncated : Option Bool

pub record FileResponse : Type 0 where
  pub request_id : String
  pub result : InputPolicyResult
  pub summary : String
  pub error_code : Option String
  pub findings : List Finding
  pub masking : FileMasking
  pub evidence : Evidence
  pub file_metadata : FileMetadata
  pub composite_risks : List CompositeRisk
  pub destination : Option Destination
  -- `hiddenDocumentInfo`.
  pub hidden_status : String
  pub link_count : ℕ
  pub decision_reasons : List String
  pub recommended_actions : List String

-- An answer with status 400, or the response.
pub data FileOutcome : Type 0 where
  rejected : String → FileOutcome
  inspected : FileResponse → FileOutcome

abbrev safe_extract_limit : ℕ
safe_extract_limit = 5000

abbrev pub parse_failed_summary : String
parse_failed_summary = "문서 내용을 안전하게 추출할 수 없어 검토가 필요합니다."

unfoldable pub truncate : Text → Text × Bool
truncate text =
    if leb (length text) safe_extract_limit
    then (text, false)
    else (take safe_extract_limit text ++ units "\n\n[5,000자를 초과하여 나머지 내용은 표시하지 않습니다.]", true)

abbrev pub file_summary : InputDecision → String
file_summary block = "정책상 외부 전송이 차단되었습니다."
file_summary review = "사람의 확인 전까지 전송이 보류됩니다."
file_summary mask = "민감정보가 탐지되어 마스킹 후 전송할 수 있습니다."
file_summary allow = "위험 요소가 탐지되지 않아 전송 가능합니다."

-- One call: its policy, a fresh UUID, the successive readings of the clock, and the upload.
pub record FileCall : Type 0 where
  pub policy : InputPolicy
  pub limits : FileLimits
  pub uuid : String
  pub clock : ℕ → String
  pub upload : Upload
