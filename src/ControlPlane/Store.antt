-- ===== src/ControlPlane/Store.antt =====
-- adapters/memory: the stores that the handlers share. Each method holds its mutex, so it is one step.
pub mod State
pub mod Nodes
pub mod Users
pub mod AllowList
pub mod Operator
pub mod Subscriptions
