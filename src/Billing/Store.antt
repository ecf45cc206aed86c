-- ===== src/Billing/Store.antt =====
-- services/billing/internal/store: the in-memory repository.
pub mod State
pub mod Invoices
pub mod Settlements
pub mod Intents
pub mod Credits
pub mod Calls
pub mod Reach
pub mod Keyed
pub mod Claims
pub mod Sweep
pub mod Leases
