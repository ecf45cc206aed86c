-- ===== src/Orchestrator.antt =====
-- services/orchestrator/internal: the planning of fleet actions, and the loop that carries them out.
pub mod Policy
pub mod Ports
pub mod Reconcile
mod Tests
mod CycleTests
