-- ===== src/Billing.antt =====
-- services/billing/internal: invoices, payments, credit and expiry.
pub mod Model
pub mod Store
pub mod Ledger
pub mod Environment
pub mod Money
pub mod Activator
pub mod Payment
pub mod Expiry
mod Tests
