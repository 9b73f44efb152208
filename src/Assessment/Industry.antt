-- ===== src/Assessment/Industry.antt =====
-- ts-agentguard/src/assessment/industry-profiles.ts: the profiles of the industries.
use agentguard_action_proxy.Common.{ℕ, String, List, [], ◌∷◌}

pub data IndustryType : Type 0 where
  financial manufacturing healthcare public technology : IndustryType

-- The percentages of the five areas.
pub record IndustryWeights : Type 0 where
  pub ai_usage : ℕ
  pub data_protection : ℕ
  pub access_control : ℕ
  pub audit_traceability : ℕ
  pub agent_risk : ℕ

pub record Phase : Type 0 where
  pub phase : String
  pub title : String

pub record IndustryProfile : Type 0 where
  pub industry : IndustryType
  pub label : String
  pub weights : IndustryWeights
  pub primary_risk_focus : String
  pub core_control_areas : List String
  pub recommendations : List String
  pub phases : List Phase

abbrev pub default_industry : IndustryType
default_industry = technology

abbrev phase_titled : String → String → Phase
phase_titled phase title = record { phase = phase; title = title }

abbrev pub industry_profile : IndustryType → IndustryProfile
industry_profile financial = record {
  industry = financial;
  label = "Financial Services";
  weights = record {
    ai_usage = 15;
    data_protection = 20;
    access_control = 20;
    audit_traceability = 15;
    agent_risk = 30;
  };
  primary_risk_focus = "Agent Risk";
  core_control_areas = "Agent Risk" ∷ "Access Control" ∷ [];
  recommendations = "Agent Governance" ∷ "Runtime Approval" ∷ "Audit Trail" ∷ [];
  phases =
      phase_titled "Phase 1" "AI Usage Policy"
      ∷ phase_titled "Phase 2" "Governance Design"
      ∷ phase_titled "Phase 3" "Approval & Audit"
      ∷ phase_titled "Phase 4" "AgentGuard Runtime Control"
      ∷ [];
}
industry_profile manufacturing = record {
  industry = manufacturing;
  label = "Manufacturing";
  weights = record {
    ai_usage = 15;
    data_protection = 15;
    access_control = 30;
    audit_traceability = 15;
    agent_risk = 25;
  };
  primary_risk_focus = "Access Governance";
  core_control_areas = "Access Control" ∷ "Change Control" ∷ [];
  recommendations = "Access Governance" ∷ "Operational Controls" ∷ "Change Management" ∷ [];
  phases =
      phase_titled "Phase 1" "AI Usage Policy"
      ∷ phase_titled "Phase 2" "Access Governance"
      ∷ phase_titled "Phase 3" "Operational Controls"
      ∷ phase_titled "Phase 4" "Change Management"
      ∷ [];
}
industry_profile healthcare = record {
  industry = healthcare;
  label = "Healthcare";
  weights = record {
    ai_usage = 10;
    data_protection = 35;
    access_control = 20;
    audit_traceability = 20;
    agent_risk = 15;
  };
  primary_risk_focus = "Data Protection";
  core_control_areas = "Data Protection" ∷ "Audit Controls" ∷ [];
  recommendations = "Data Protection" ∷ "Data Classification" ∷ "Audit Controls" ∷ [];
  phases =
      phase_titled "Phase 1" "Data Protection Policy"
      ∷ phase_titled "Phase 2" "Data Classification"
      ∷ phase_titled "Phase 3" "Audit Controls"
      ∷ phase_titled "Phase 4" "Secure Runtime Control"
      ∷ [];
}
industry_profile public = record {
  industry = public;
  label = "Public Sector";
  weights = record {
    ai_usage = 10;
    data_protection = 20;
    access_control = 15;
    audit_traceability = 35;
    agent_risk = 20;
  };
  primary_risk_focus = "Audit & Traceability";
  core_control_areas = "Audit & Traceability" ∷ "Transparency" ∷ [];
  recommendations = "Audit Framework" ∷ "Transparency Controls" ∷ "Approval Governance" ∷ [];
  phases =
      phase_titled "Phase 1" "AI Usage Policy"
      ∷ phase_titled "Phase 2" "Transparency Controls"
      ∷ phase_titled "Phase 3" "Approval Governance"
      ∷ phase_titled "Phase 4" "Audit Framework"
      ∷ [];
}
industry_profile technology = record {
  industry = technology;
  label = "Technology";
  weights = record {
    ai_usage = 25;
    data_protection = 15;
    access_control = 15;
    audit_traceability = 15;
    agent_risk = 30;
  };
  primary_risk_focus = "Balanced AI Governance";
  core_control_areas = "AI Policy" ∷ "Agent Governance" ∷ [];
  recommendations = "AI Policy" ∷ "Agent Governance" ∷ "Secure Development" ∷ [];
  phases =
      phase_titled "Phase 1" "AI Usage Policy"
      ∷ phase_titled "Phase 2" "Agent Governance"
      ∷ phase_titled "Phase 3" "Secure Development"
      ∷ phase_titled "Phase 4" "Runtime Control"
      ∷ [];
}
