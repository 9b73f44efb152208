-- ===== src/InputControl.antt =====
-- input-control-demo/src: what is found in an input, and the decision on it.
pub mod Models
pub mod PolicyEngine
pub mod CompositeRisks
pub mod DestinationRisks
pub mod Masking
pub mod Inspection
pub mod Files
pub mod CardNumbers
