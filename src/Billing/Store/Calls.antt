-- ===== src/Billing/Store/Calls.antt =====
-- The calls of `store.Repository` that change the store, as data. Every handler, poller and sweeper
-- reaches the store through these calls alone, and each holds the store's mutex; so a list of calls
-- is any interleaving of any number of handlers, each of which may stop after any call.
use casper_vpn.Base.{String, ℕ, Time, Duration, List, [], ◌∷◌}
use casper_vpn.Billing.Model.{Status, SubStatus, Invoice, InvoiceIntent, Schedule}
use casper_vpn.Billing.Store.State.{Store}
use casper_vpn.Billing.Store.Invoices
use casper_vpn.Billing.Store.Settlements
use casper_vpn.Billing.Store.Intents
use casper_vpn.Billing.Store.Credits

pub data Call : Type 0 where
  create_invoice : Invoice → Call
  set_invoice_status : String → Status → Call
  record_event : String → String → Call
  claim_settlement : String → Time → Call
  release_settlement : String → Call
  mark_settlement_activated : String → Time → Call
  lease_stuck_settlements : Time → Duration → ℕ → Time → Call
  expire_overdue : Time → List String → Duration → Call
  acquire_poll_lease : String → String → Duration → String → Time → Call
  renew_poll_lease : String → String → Duration → Time → Call
  release_poll_lease : String → String → Call
  record_negative_check : String → Time → Call
  clear_negative_check : String → Call
  reserve_invoice_intent : InvoiceIntent → Time → Call
  begin_invoice_create : String → Call
  complete_invoice_create : String → Invoice → Call
  fail_invoice_create : String → Call
  stage_invoice_credit : String → String → String → Time → Duration → Duration → Call
  stage_schedule_transition : String → ℕ → SubStatus → Time → Call
  lease_billing_deliveries : Time → Duration → ℕ → Time → Call
  complete_billing_delivery : String → Time → Call
  upsert_schedule : Schedule → Call

-- The store after a call; what it returns is read off the operation itself.
unfoldable pub apply : Call → Store → Store
apply (Call.create_invoice inv) s = Invoices.create_invoice inv s
apply (Call.set_invoice_status id st) s = (Invoices.set_invoice_status id st s).1
apply (Call.record_event p e) s = Invoices.record_event p e s
apply (Call.claim_settlement id now) s = (Settlements.claim_settlement id now s).1
apply (Call.release_settlement id) s = Settlements.release_settlement id s
apply (Call.mark_settlement_activated id now) s = Settlements.mark_settlement_activated id now s
apply (Call.lease_stuck_settlements t d n now) s =
    (Settlements.lease_stuck_settlements t d n now s).1
apply (Call.expire_overdue now ps d) s = Settlements.expire_overdue now ps d s
apply (Call.acquire_poll_lease id o d t now) s = (Settlements.acquire_poll_lease id o d t now s).1
apply (Call.renew_poll_lease id t d now) s = (Settlements.renew_poll_lease id t d now s).1
apply (Call.release_poll_lease id t) s = Settlements.release_poll_lease id t s
apply (Call.record_negative_check id at) s = Settlements.record_negative_check id at s
apply (Call.clear_negative_check id) s = Settlements.clear_negative_check id s
apply (Call.reserve_invoice_intent i now) s = (Intents.reserve_invoice_intent i now s).1
apply (Call.begin_invoice_create k) s = (Intents.begin_invoice_create k s).1
apply (Call.complete_invoice_create k inv) s = (Intents.complete_invoice_create k inv s).1
apply (Call.fail_invoice_create k) s = (Intents.fail_invoice_create k s).1
apply (Call.stage_invoice_credit i sub u now d g) s =
    (Credits.stage_invoice_credit i sub u now d g s).1
apply (Call.stage_schedule_transition sub r st now) s =
    (Credits.stage_schedule_transition sub r st now s).1
apply (Call.lease_billing_deliveries t d n now) s = (Credits.lease_billing_deliveries t d n now s).1
apply (Call.complete_billing_delivery id now) s = (Credits.complete_billing_delivery id now s).1
apply (Call.upsert_schedule sched) s = Credits.upsert_schedule sched s

unfoldable pub run : List Call → Store → Store
run [] s = s
run (c ∷ cs) s = run cs (apply c s)
