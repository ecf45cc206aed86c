-- ===== src/Billing/Store/State.antt =====
-- services/billing/internal/store/memory.go, the fields of `Memory`. The mutex is not modelled: each
-- method holds it from start to end, so a method is one function on the state. `m.now()` and the
-- random token of `idgen.New()` are arguments.
use casper_vpn.Base.{String, Time}
use casper_vpn.Map.{Map, empty}
use casper_vpn.Billing.Model.{Invoice, Schedule, BillingDelivery, InvoiceIntent}

-- `memSettlement`
pub record Settlement : Type 0 where
  pub claimed_at : Time
  pub activated_at : Time
  pub leased_until : Time

-- `memLease`
pub record PollLease : Type 0 where
  pub token : String
  pub owner : String
  pub until : Time

pub record Store : Type 0 where
  pub invoices : Map Invoice
  pub events : Map (Unit {0})
  pub settled : Map Settlement
  pub schedules : Map Schedule
  pub deliveries : Map BillingDelivery
  pub invoice_deliveries : Map String
  pub invoice_intents : Map InvoiceIntent
  pub negative_check : Map Time
  pub poll_leases : Map PollLease

-- `NewMemoryWithClock`
abbrev pub new_store : Store
new_store = record {
  invoices = empty;
  events = empty;
  settled = empty;
  schedules = empty;
  deliveries = empty;
  invoice_deliveries = empty;
  invoice_intents = empty;
  negative_check = empty;
  poll_leases = empty;
}
