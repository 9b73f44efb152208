-- ===== src/InputControl/Models.antt =====
-- input-control-demo/src/models.ts. Of a finding the fields `confidence`, `validation` and
-- `originalValueStored` are left out, which no decision reads.
use agentguard_action_proxy.Common.{ℕ, String, Bool, Option, List}

pub data InputDecision : Type 0 where
  allow mask review block : InputDecision

pub data Severity : Type 0 where
  low medium high critical : Severity

pub record Location : Type 0 where
  pub source : String
  pub start : ℕ
  pub end : ℕ

-- A decision, or 'NONE'.
pub data Contribution : Type 0 where
  contributes : InputDecision → Contribution
  no_contribution : Contribution

pub record Finding : Type 0 where
  pub category : String
  pub severity : Severity
  pub type : Option String
  pub matched_rule : String
  pub evidence : String
  pub location : Location
  pub masked_value : Option String
  pub fingerprint : Option String
  pub decision_contribution : Option Contribution
  pub masking_required : Option Bool
  pub reason : Option String

pub record CompositeRisk : Type 0 where
  pub rule_id : String
  pub matched_types : List String
  pub risk : Severity
  pub decision_contribution : InputDecision
  pub reason : String

-- A rule of the policy file.
pub record PolicyRule : Type 0 where
  pub id : String
  pub match_types : Option (List String)
  pub match_categories : Option (List String)
  pub min_severity : Option Severity
  pub decision : InputDecision
  pub risk_score : ℕ
  pub review_threshold : Option ℕ
