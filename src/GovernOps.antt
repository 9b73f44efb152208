-- ===== src/GovernOps.antt =====
-- ts-agentguard/src/governops: the records of compiler.ts, context.ts, decision-record.ts and
-- harness.ts, the sample of sample-kgld.ts, and the preview of preview-adapter.ts.
pub mod Panel
use agentguard_action_proxy.Common.{String, Bool, true, false, List, [], ◌∷◌, concat}
use agentguard_action_proxy.Js.{Js}

pub data ActionTaxonomy : Type 0 where
  gold_purchase kgld_borrow_rlusd agent_lifecycle_kill_switch : ActionTaxonomy

pub data EnforcementAction : Type 0 where
  allow review block freeze escalate : EnforcementAction

pub data ApprovalState : Type 0 where
  not_required pending approved rejected overridden : ApprovalState

pub data TokenStatus : Type 0 where
  not_issued issued used expired revoked burned : TokenStatus

abbrev pub enforcement_text : EnforcementAction → String
enforcement_text allow = "ALLOW"
enforcement_text review = "REVIEW"
enforcement_text block = "BLOCK"
enforcement_text freeze = "FREEZE"
enforcement_text escalate = "ESCALATE"

abbrev pub token_status_text : TokenStatus → String
token_status_text not_issued = "NOT_ISSUED"
token_status_text issued = "ISSUED"
token_status_text used = "USED"
token_status_text expired = "EXPIRED"
token_status_text revoked = "REVOKED"
token_status_text burned = "BURNED"

module _ (js : Js) where
  pub record RuntimePolicy : Type 0 where
    pub policy_id : String
    pub source_question_ids : List String
    pub action_taxonomy : ActionTaxonomy
    pub budget_limit : js.Number
    pub approval_required : Bool
    pub enforcement_type : EnforcementAction
    pub decision_record_level : String
    pub identity_requirement : String
    pub context_requirement : String

  pub record RuntimeContext : Type 0 where
    pub context_id : String
    pub user_request_amount : js.Number
    pub agent_decision_amount : js.Number
    pub deviation_percent : js.Number
    pub prompt_hash : String
    pub rag_hash : String
    pub reputation_score : js.Number
    pub risk_score : js.Number
    pub timestamp : String

  -- With the field `agentRole` that the type of the sample adds.
  pub record DecisionRecord : Type 0 where
    pub decision_id : String
    pub policy_id : String
    pub source_question_ids : List String
    pub agent_id : String
    pub agent_role : String
    pub context_id : String
    pub user_request_amount : js.Number
    pub agent_decision_amount : js.Number
    pub risk_score : js.Number
    pub enforcement_action : EnforcementAction
    pub approval_state : ApprovalState
    pub token_status : TokenStatus
    pub execution_result : String
    pub audit_correlation_id : String
    pub created_at : String

  pub record ProposedAction : Type 0 where
    pub action_id : String
    pub action_taxonomy : ActionTaxonomy
    pub target_system : String
    pub target_resource : String
    pub amount : js.Number
    pub asset : String
    pub requested_by : String
    pub generated_by_agent : String
    pub timestamp : String

pub record HarnessResult : Type 0 where
  pub enforcement_action : EnforcementAction
  pub reason : String
  pub source_question_ids : List String
  pub policy_id : String
  pub decision_id : String
  pub approval_state : ApprovalState
  pub execution_allowed : Bool
  pub token_status : TokenStatus

module _ (js : Js) where
  pub record GovernOpsPreview : Type 0 where
    pub runtime_policy : RuntimePolicy js
    pub runtime_context : RuntimeContext js
    pub decision_record : DecisionRecord js
    pub harness_result : HarnessResult
    pub summary : String

  unfoldable kgld_runtime_policy_sample : RuntimePolicy js
  kgld_runtime_policy_sample = record {
    policy_id = "KGLD-GOVERNOPS-POLICY-001";
    source_question_ids = "Q031" ∷ "Q032" ∷ "Q053" ∷ [];
    action_taxonomy = gold_purchase;
    budget_limit = js.number 5_000_000;
    approval_required = true;
    enforcement_type = block;
    decision_record_level = "FORENSIC";
    identity_requirement = "AGENT_IDENTITY_REQUIRED";
    context_requirement = "USER_REQUEST_AMOUNT_MATCH_REQUIRED";
  }

  unfoldable kgld_runtime_context_sample : RuntimeContext js
  kgld_runtime_context_sample = record {
    context_id = "CTX-KGLD-001";
    user_request_amount = js.number 5_000_000;
    agent_decision_amount = js.number 50_000_000;
    deviation_percent = js.number 900;
    prompt_hash = "kgld-demo-user-request-gold-5m";
    rag_hash = "kgld-demo-rag-context-v1";
    reputation_score = js.number 80;
    risk_score = js.number 95;
    timestamp = "2026-06-25T00:00:00.000Z";
  }

  unfoldable kgld_decision_record_sample : DecisionRecord js
  unfolding kgld_runtime_policy_sample kgld_runtime_context_sample
  kgld_decision_record_sample = record {
    decision_id = "DEC-KGLD-001";
    policy_id = kgld_runtime_policy_sample.policy_id;
    source_question_ids = kgld_runtime_policy_sample.source_question_ids;
    agent_id = "AGT-001";
    agent_role = "financial_agent";
    context_id = kgld_runtime_context_sample.context_id;
    user_request_amount = js.number 5_000_000;
    agent_decision_amount = js.number 50_000_000;
    risk_score = kgld_runtime_context_sample.risk_score;
    enforcement_action = block;
    approval_state = pending;
    token_status = not_issued;
    execution_result = "NOT_EXECUTED";
    audit_correlation_id = "AUD-KGLD-001";
    created_at = "2026-06-25T00:00:00.000Z";
  }

  unfoldable kgld_proposed_action_sample : ProposedAction js
  kgld_proposed_action_sample = record {
    action_id = "ACT-KGLD-001";
    action_taxonomy = gold_purchase;
    target_system = "KGLD_DEMO_VAULT";
    target_resource = "GOLD_PURCHASE_ORDER";
    amount = js.number 50_000_000;
    asset = "KRW";
    requested_by = "user-request-gold-5m";
    generated_by_agent = "AGT-001";
    timestamp = "2026-06-25T00:00:00.000Z";
  }

  unfoldable kgld_harness_result_sample : HarnessResult
  unfolding kgld_runtime_policy_sample kgld_decision_record_sample
  kgld_harness_result_sample = record {
    enforcement_action = block;
    reason = "Agent decision amount deviates 900% from the user-requested gold purchase budget.";
    source_question_ids = kgld_runtime_policy_sample.source_question_ids;
    policy_id = kgld_runtime_policy_sample.policy_id;
    decision_id = kgld_decision_record_sample.decision_id;
    approval_state = pending;
    execution_allowed = false;
    token_status = not_issued;
  }

  unfoldable pub create_govern_ops_preview : GovernOpsPreview
  unfolding kgld_runtime_policy_sample kgld_runtime_context_sample kgld_decision_record_sample
      kgld_harness_result_sample
  create_govern_ops_preview = record {
    runtime_policy = kgld_runtime_policy_sample;
    runtime_context = kgld_runtime_context_sample;
    decision_record = kgld_decision_record_sample;
    harness_result = kgld_harness_result_sample;
    summary = concat (
        "User requested 5M KRW.\n" ∷ "Agent attempted 50M KRW.\n"
        ∷ "GovernOps blocked execution before settlement.\n" ∷ "Token was not issued." ∷ []);
  }
