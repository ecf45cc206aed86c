-- ===== src/ControlPlane/Service.antt =====
-- usecase: the services of the control plane, over the stores and what is outside the process.
pub mod Environment
pub mod Moves
pub mod Nodes
pub mod Signals
pub mod Users
pub mod Subscriptions
pub mod Bundles
