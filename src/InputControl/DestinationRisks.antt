-- ===== src/InputControl/DestinationRisks.antt =====
-- input-control-demo/src/detectors/destination-risk-engine.ts: risks of findings at a destination.
pub mod Secrets
use agentguard_action_proxy.Common.{
  String, Bool, true, false, ◌&&◌, ◌||◌, ◌==◌, Option, none, some, List, [], ◌∷◌,
}
use agentguard_action_proxy.InputControl.Models.{
  mask, review, block, medium, critical, Finding, CompositeRisk,
}
use agentguard_action_proxy.InputControl.CompositeRisks.{has_any, pushed, risk_when}

-- models.ts.
pub data DestinationType : Type 0 where
  internal_model approved_external_llm unapproved_external_llm : DestinationType
  external_api unknown : DestinationType

pub record Destination : Type 0 where
  pub type : DestinationType
  pub provider : Option String
  pub approved : Option Bool
  pub data_retention : Option String
  pub training_use : Option String
  pub region : Option String

abbrev destination_text : DestinationType → String
destination_text internal_model = "internal_model"
destination_text approved_external_llm = "approved_external_llm"
destination_text unapproved_external_llm = "unapproved_external_llm"
destination_text external_api = "external_api"
destination_text unknown = "unknown"

unfoldable pub has_category : String → List Finding → Bool
has_category category [] = false
has_category category (f ∷ fs) = f.category == category || has_category category fs

-- `findings.some(f => f.category === 'CREDENTIAL_SECRET' || [...].includes(f.type || ''))`
unfoldable pub has_secret : List Finding → Bool
has_secret findings =
    has_category "CREDENTIAL_SECRET" findings
    || has_any findings (
        "PRIVATE_KEY" ∷ "XRPL_FAMILY_SEED" ∷ "MNEMONIC_SEED_PHRASE" ∷ "DATABASE_CONNECTION_STRING"
        ∷ [])

unfoldable has_personal_data : List Finding → Bool
has_personal_data findings = has_any findings (
    "EMAIL" ∷ "PHONE" ∷ "PERSON_NAME" ∷ "DATE_OF_BIRTH" ∷ "DETAILED_ADDRESS"
    ∷ "BUSINESS_REGISTRATION_NUMBER" ∷ [])

-- The destinations that no secret may reach.
unfoldable pub is_untrusted : DestinationType → Bool
is_untrusted unknown = true
is_untrusted external_api = true
is_untrusted unapproved_external_llm = true
is_untrusted _ = false

unfoldable pub is_unapproved_llm : DestinationType → Bool
is_unapproved_llm unapproved_external_llm = true
is_unapproved_llm _ = false

unfoldable is_internal : DestinationType → Bool
is_internal internal_model = true
is_internal _ = false

unfoldable is_approved_llm : DestinationType → Bool
is_approved_llm approved_external_llm = true
is_approved_llm _ = false

unfoldable is_approved : Destination → Bool
is_approved d = elim d.approved [ none ↦ false | some b ↦ b ]

-- The tests of the function in their order, each with its risk.
unfoldable pub destination_rules : List Finding → Destination → List (Bool × CompositeRisk)
unfolding has_category has_secret has_personal_data is_untrusted is_unapproved_llm is_internal
    is_approved_llm is_approved
destination_rules findings d =
    risk_when (has_secret findings && is_untrusted d.type) "DR-SECRET-001"
      ("SECRET" ∷ destination_text d.type ∷ []) critical block "Secret은 알 수 없거나 외부 목적지로 전송할 수 없습니다."
    ∷ risk_when (has_category "CONFIDENTIAL_DOCUMENT" findings && is_unapproved_llm d.type)
        "DR-CONF-001" ("CONFIDENTIAL_DOCUMENT" ∷ destination_text d.type ∷ []) critical block
        "기밀 문서를 미승인 외부 LLM으로 전송하려 해 차단합니다."
    ∷ risk_when
        (has_category "CONFIDENTIAL_DOCUMENT" findings && (is_internal d.type && is_approved d))
        "DR-CONF-002" ("CONFIDENTIAL_DOCUMENT" ∷ destination_text d.type ∷ []) medium review
        "승인된 내부 모델 목적지이지만 기밀 신호가 있어 정책 검토가 필요합니다."
    ∷ risk_when (has_personal_data findings && is_approved_llm d.type) "DR-PII-001"
        ("PERSONAL_DATA" ∷ destination_text d.type ∷ []) medium mask
        "승인된 외부 LLM에는 마스킹 가능한 개인정보만 전달합니다."
    ∷ []

unfoldable pub evaluate_destination_risks : List Finding → Option Destination → List CompositeRisk
unfolding destination_rules
evaluate_destination_risks findings none = []
evaluate_destination_risks findings (some d) = pushed (destination_rules findings d)
