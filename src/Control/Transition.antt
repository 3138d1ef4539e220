-- ===== src/Control/Transition.antt =====
-- control/failover.go: failover and switchover, prepared as a plan and executed through Patroni's
-- REST API with a fallback that writes to the DCS.
pub mod Intents
pub mod Selections
pub mod Contract
pub mod Results
pub mod Rest
pub mod Fallback
pub mod Recovery
pub mod Soundness
pub mod Settlement
pub mod Silence
pub mod Preparation
pub mod Execution
pub mod Spending
pub mod Safety
