-- ===== src/Agent.antt =====
-- The parts of the agent beside its subscribers: castai/telemetry/ and jobsgc/.
pub mod Features
pub mod Cleanup
pub mod Manager
