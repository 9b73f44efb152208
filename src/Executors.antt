-- ===== src/Executors.antt =====
-- ts-agentguard/src/executors: what carries out an action that was let through.
pub mod Mock
pub mod Settlement
