-- ===== src/Assessment.antt =====
-- ts-agentguard/src/assessment: the governance assessment, its data and its scores.
pub mod Types
pub mod Questions
pub mod StandardsTable
pub mod Standards
pub mod ScoringTables
pub mod Levels
pub mod Scores
pub mod Priorities
pub mod Explanations
pub mod Summary
pub mod Industry
pub mod Scenario
pub mod Recommendations
pub mod Roadmap
pub mod ExecutiveSummary
