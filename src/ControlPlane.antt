-- ===== src/ControlPlane.antt =====
-- services/control-plane/internal: the registry of nodes, the accounts and their entitlements.
pub mod Contracts
pub mod Action
pub mod Store
pub mod Service
pub mod Tests
