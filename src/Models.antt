-- ===== src/Models.antt =====
-- ts-agentguard/src/models.ts: the requests, decisions, previews and tokens that the parts
-- exchange. Zod's validators are not modelled: these are the types that they infer.
use agentguard_action_proxy.Common.{ℕ, String, Bool, List, Option}
use agentguard_action_proxy.Js.{Js}
use agentguard_action_proxy.Js.Value.{Fields}

pub data Decision : Type 0 where
  allow review_required deny : Decision

pub data RiskLevel : Type 0 where
  low medium high critical : RiskLevel

pub data ActorType : Type 0 where
  user ai_agent system : ActorType

abbrev pub decision_text : Decision → String
decision_text allow = "ALLOW"
decision_text review_required = "REVIEW_REQUIRED"
decision_text deny = "DENY"

abbrev pub risk_level_text : RiskLevel → String
risk_level_text low = "LOW"
risk_level_text medium = "MEDIUM"
risk_level_text high = "HIGH"
risk_level_text critical = "CRITICAL"

abbrev pub actor_type_text : ActorType → String
actor_type_text user = "user"
actor_type_text ai_agent = "ai_agent"
actor_type_text system = "system"

pub record PreviewResponse : Type 0 where
  pub action_id : String
  pub interpreted_action_meaning : String
  pub risk_score : ℕ
  pub risk_level : RiskLevel
  pub matched_policies : List String
  pub decision : Decision
  pub reason : String
  pub approval_required : Bool
  pub risk_factors : List String

module _ (js : Js) where
  pub record ActionRequest : Type 0 where
    pub action_id : String
    pub actor_type : ActorType
    pub actor_id : String
    pub action_type : String
    pub target_system : String
    pub target_resource : String
    pub parameters : Fields js
    pub context : Fields js
    -- Milliseconds.
    pub requested_at : ℕ

  pub record EphemeralExecutionToken : Type 0 where
    pub token_id : String
    pub action_id : String
    pub allowed_action_type : String
    pub allowed_target : String
    -- Milliseconds.
    pub expires_at : ℕ
    pub request_fingerprint : Option String
    pub approved_loan_amount : Option js.Number
    pub used : Bool

  -- What an executor answers; a mock executor gives no decision and no action id.
  pub record ExecutionResult : Type 0 where
    pub action_id : Option String
    pub decision : Option String
    pub executed : Bool
    pub message : String
    pub executor : String
    pub settlement_id : Option String
    pub tx_hash : Option String
    pub ledger_index : Option js.Number
    pub network : Option String
    pub timestamp : Option String
