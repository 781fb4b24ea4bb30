-- ===== src/Tests.antt =====
-- The theorems at concrete inputs, and runs of the model.
pub mod BridgeRuns
pub mod ServiceRuns
pub mod StoreRuns
pub mod WorkerRuns
pub mod RuntimeRuns
pub mod AgentRuns
pub mod HostRuns
pub mod AccessRuns
pub mod PollRuns
pub mod TogetherRuns
pub mod ListenerRuns
