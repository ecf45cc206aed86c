-- ===== src/Billing/Payment/Processor/Marks.antt =====
-- What an event that is not a payment does to its invoice.
use casper_vpn.Base.{String, Duration, false, Option, some, ◌≡◌, sym, ◌∙◌}
use casper_vpn.Map.{lookup, lookup-insert_self}
use casper_vpn.Billing.Model.{settled, expired, Invoice, Event}
use casper_vpn.Billing.Store.Invoices.{set_invoice_status, seen_event, record_event}
use casper_vpn.Billing.Environment.{Environment, World}
use casper_vpn.Billing.Money.{Rat}
use casper_vpn.Billing.Activator.{Catalog}
use casper_vpn.Billing.Payment.Processor.{is_stale, process}
use casper_vpn.Billing.Payment.Processor.Outcome.{IsIdle, Outcome, idle, credited, process-Outcome}

settled-expired : settled ≡ expired → ⊥
settled-expired e = cc

module _ (env : Environment) (set_string : String → Option Rat) (catalog : Catalog) where
  -- A timely and new event that says that its invoice has expired makes the invoice expired whatever
  -- its status was, settled included. The claims and the credit ledger stay as they are, and nobody
  -- outside is called.
  pub expired_overwrites :
      (window : Duration) (ev : Event) (w : World env) (inv : Invoice)
      → is_stale window (env.clock w.outside) ev ≡ false
      → seen_event ev.provider ev.external_id w.store ≡ false
      → ev.status ≡ expired
      → lookup ev.invoice_id w.store.invoices ≡ some inv
      → let w' = (process env set_string catalog window ev w).1 in
        (lookup ev.invoice_id w'.store.invoices ≡ some (record inv { status = expired }))
        × IsIdle env set_string catalog w w'
  unfolding process set_invoice_status record_event
  expired_overwrites window ev w inv timely unseen says known = (
    rw (timely, unseen, says, known)
        (lookup-insert_self ev.invoice_id (record inv { status = expired }) w.store.invoices),
    go (process-Outcome env set_string catalog window ev w),
  )
    where
      go :
          Outcome env set_string catalog window ev w (process env set_string catalog window ev w)
          → IsIdle env set_string catalog w (process env set_string catalog window ev w).1
      go (idle i) = i
      go (credited inv' clean e) = absurd (settled-expired (sym clean.paid ∙ says))
