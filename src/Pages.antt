-- ===== src/Pages.antt =====
-- The pages that the server sends: ts-agentguard/src/assessment, its pages and reports.
pub mod Html
pub mod Texts
pub mod ResultJson
pub mod Parts
pub mod Dashboard
pub mod Report
pub mod PolicyAssessment
pub mod Questionnaire
pub mod Landing
pub mod Overview
pub mod ResultText
