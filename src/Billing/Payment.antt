-- ===== src/Billing/Payment.antt =====
-- services/billing/internal/payment: events, recovery and polling.
pub mod Processor
pub mod Recovery
pub mod Poller
