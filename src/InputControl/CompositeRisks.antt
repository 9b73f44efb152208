-- ===== src/InputControl/CompositeRisks.antt =====
-- input-control-demo/src/detectors/composite-risk-engine.ts: risks of findings that occur together.
pub mod Seeds
use agentguard_action_proxy.Common.{
  ℕ, String, Bool, true, false, ◌&&◌, ◌||◌, none, some, List, [], ◌∷◌, if◌then◌else◌, leb,
}
use agentguard_action_proxy.Common.Lists.{length, keep}
use agentguard_action_proxy.InputControl.Models.{
  InputDecision, mask, review, block, Severity, medium, high, critical, Finding, CompositeRisk,
}
use agentguard_action_proxy.InputControl.PolicyEngine.{contains_text}

abbrev wallet_types : List String
wallet_types =
    "XRPL_PUBLIC_ADDRESS" ∷ "ETHEREUM_PUBLIC_ADDRESS" ∷ "BITCOIN_PUBLIC_ADDRESS" ∷ "XRPL_ADDRESS"
    ∷ "ETHEREUM_ADDRESS" ∷ "BITCOIN_ADDRESS" ∷ []

-- `array.includes(f.type || '')`.
unfoldable pub has_type : List String → Finding → Bool
has_type types f = elim f.type [ none ↦ contains_text "" types | some t ↦ contains_text t types ]

-- `findings.some(f => types.includes(f.type || ''))`.
unfoldable pub has_any : List Finding → List String → Bool
unfolding has_type
has_any [] types = false
has_any (f ∷ fs) types = has_type types f || has_any fs types

-- `types.every(t => findings.some(f => f.type === t))`, for types that are not empty texts.
unfoldable pub has_all : List Finding → List String → Bool
has_all findings [] = true
has_all findings (t ∷ ts) = has_any findings (t ∷ []) && has_all findings ts

unfoldable pub has_wallet : List Finding → Bool
has_wallet findings = has_any findings wallet_types

unfoldable count_of : List Finding → List String → ℕ
count_of findings types = length (keep (has_type types) findings)

-- A condition and the risk that is pushed where it holds.
abbrev pub risk_when :
    Bool → String → List String → Severity → InputDecision → String → Bool × CompositeRisk
risk_when condition id types risk contribution reason = (
  condition,
  record {
    rule_id = id;
    matched_types = types;
    risk = risk;
    decision_contribution = contribution;
    reason = reason;
  },
)

-- The tests of the function in their order, each with its risk.
unfoldable pub composite_rules : List Finding → List (Bool × CompositeRisk)
unfolding has_any has_all has_wallet count_of
composite_rules findings =
    risk_when (has_all findings ("PERSON_NAME" ∷ "EMAIL" ∷ [])) "CR-IDENTITY-001"
      ("PERSON_NAME" ∷ "EMAIL" ∷ []) medium mask "이름과 이메일 결합으로 개인 식별 가능성이 있습니다."
    ∷ risk_when (has_all findings ("PERSON_NAME" ∷ "PHONE" ∷ [])) "CR-IDENTITY-002"
        ("PERSON_NAME" ∷ "PHONE" ∷ []) medium mask "이름과 전화번호 결합으로 개인 식별 가능성이 있습니다."
    ∷ risk_when (has_all findings ("PERSON_NAME" ∷ "DATE_OF_BIRTH" ∷ "PHONE" ∷ []))
        "CR-IDENTITY-003" ("PERSON_NAME" ∷ "DATE_OF_BIRTH" ∷ "PHONE" ∷ []) high review
        "여러 정보의 결합으로 개인 식별 가능성이 높습니다."
    ∷ risk_when (has_all findings ("PERSON_NAME" ∷ "KR_RRN" ∷ [])) "CR-IDENTITY-004"
        ("PERSON_NAME" ∷ "KR_RRN" ∷ []) critical block "실명과 주민등록번호 결합은 차단 대상입니다."
    ∷ risk_when
        (has_all findings ("CREDIT_CARD" ∷ "CARD_EXPIRY" ∷ [])
          || has_all findings ("CREDIT_CARD" ∷ "CARD_CVV" ∷ []))
        "CR-CARD-001" ("CREDIT_CARD" ∷ []) critical block "카드번호와 보조 인증 정보 결합은 차단 대상입니다."
    ∷ risk_when (has_wallet findings && has_all findings ("PERSON_NAME" ∷ [])) "CR-WALLET-001"
        ("PUBLIC_BLOCKCHAIN_ADDRESS" ∷ "PERSON_NAME" ∷ []) medium review
        "공개 지갑 주소와 실명 결합은 검토 대상입니다."
    ∷ risk_when (has_wallet findings && has_any findings ("CUSTOMER_NUMBER" ∷ [])) "CR-WALLET-003"
        ("PUBLIC_BLOCKCHAIN_ADDRESS" ∷ "CUSTOMER_NUMBER" ∷ []) medium review
        "공개 지갑 주소와 고객번호 또는 계약번호 결합은 검토 대상입니다."
    ∷ risk_when
        (has_wallet findings
          && has_any findings ("BLOCKCHAIN_PRIVATE_KEY" ∷ "XRPL_FAMILY_SEED" ∷ []))
        "CR-WALLET-002" ("PUBLIC_BLOCKCHAIN_ADDRESS" ∷ "PRIVATE_KEY" ∷ []) critical block
        "지갑 주소와 개인키 결합은 차단 대상입니다."
    ∷ risk_when (has_wallet findings && leb 10 (count_of findings wallet_types))
        "CR-WALLET-BULK-001" ("PUBLIC_BLOCKCHAIN_ADDRESS_LIST" ∷ []) medium review
        "다수 고객의 지갑 주소 목록 가능성이 있어 검토 대상입니다."
    ∷ risk_when (has_wallet findings && has_any findings ("INVESTIGATION_CONTEXT" ∷ []))
        "CR-WALLET-AML-001" ("PUBLIC_BLOCKCHAIN_ADDRESS" ∷ "INVESTIGATION_CONTEXT" ∷ []) medium
        review "내부 조사 또는 의심거래 맥락과 결합되어 검토 대상입니다."
    ∷ risk_when (has_wallet findings && has_any findings ("ASSET_TRANSFER_INTENT" ∷ []))
        "CR-WALLET-TRANSFER-001" ("PUBLIC_BLOCKCHAIN_ADDRESS" ∷ "ASSET_TRANSFER_INTENT" ∷ []) medium
        review "자산 이동 실행 요청은 검토 대상입니다."
    ∷ risk_when (has_any findings ("MNEMONIC_SEED_PHRASE" ∷ "XRPL_FAMILY_SEED" ∷ [])) "CR-SEED-001"
        ("SEED_PHRASE" ∷ []) critical block "복구 구문 또는 Family Seed는 차단 대상입니다."
    ∷ risk_when
        (leb 4 (
          count_of findings (
            "PERSON_NAME" ∷ "EMAIL" ∷ "PHONE" ∷ "DATE_OF_BIRTH" ∷ "KR_RRN" ∷ "DETAILED_ADDRESS"
            ∷ [])))
        "CR-PII-COUNT-001" ("MULTIPLE_PERSONAL_DATA" ∷ []) high review "다수 개인정보가 함께 포함되어 검토가 필요합니다."
    ∷ []

-- The risks whose conditions hold.
unfoldable pub pushed : List (Bool × CompositeRisk) → List CompositeRisk
pushed [] = []
pushed ((condition, risk) ∷ rest) = if condition then risk ∷ pushed rest else pushed rest

unfoldable pub evaluate_composite_risks : List Finding → List CompositeRisk
unfolding composite_rules pushed
evaluate_composite_risks findings = pushed (composite_rules findings)
