-- ===== src/Billing/Payment/Processor.antt =====
-- services/billing/internal/payment/processor.go, `Process` and `settle`: the one place where every
-- payment event, from a webhook or from a poll, is applied to an invoice.
pub mod Outcome
pub mod Calls
pub mod Safety
pub mod Success
pub mod Marks
use casper_vpn.Base.{
  String, ℕ, Time, Duration, Bool, true, false, not, Option, none, some, ◌-◌, ◌&&◌, ◌==◌, ltb,
  is_zero, if◌then◌else◌,
}
use casper_vpn.Billing.Model.{
  Status, pending, settled, expired, invalid, Invoice, Event, Error, Result, ok, err, stale_event,
  underpaid, provider_mismatch, currency_mismatch, invalid_amount,
}
use casper_vpn.Billing.Store.State.{Store}
use casper_vpn.Billing.Store.Invoices.{get_invoice, set_invoice_status, seen_event, record_event}
use casper_vpn.Billing.Store.Settlements.{claim_settlement}
use casper_vpn.Billing.Environment.{Environment, World}
use casper_vpn.Billing.Money.{Rat, gte}
use casper_vpn.Billing.Activator.{Catalog, credit_invoice}

-- The anti-fraud checks of `settle`, in their order: what is wrong with the event, if anything.
abbrev pub amount_fault : Option Bool → Option Error
amount_fault none = some invalid_amount
amount_fault (some false) = some underpaid
amount_fault (some true) = none

unfoldable pub fraud : (String → Option Rat) → Event → Invoice → Option Error
unfolding gte
fraud set_string ev inv =
    if not (ev.provider == inv.provider)
    then some provider_mismatch
    else if not (ev.currency == "") && not (ev.currency == inv.currency)
    then some currency_mismatch
    else if ev.amount == ""
    then none
    else amount_fault (gte set_string ev.amount inv.amount)

-- `ErrUnderpaid` is returned after the invoice is marked invalid.
abbrev pub refuse : Error → String → Store → Store
refuse underpaid id s = (set_invoice_status id invalid s).1
refuse e id s = s

-- `p.replayWindow > 0 && !ev.Timestamp.IsZero() && p.now().Sub(ev.Timestamp) > p.replayWindow`
unfoldable pub is_stale : Duration → Time → Event → Bool
is_stale window now ev =
    ltb 0 window && not (is_zero ev.timestamp) && ltb window (now - ev.timestamp)

module _ (env : Environment) (set_string : String → Option Rat) (catalog : Catalog) where
  open env use {clock}

  abbrev pub at_store : World env → Store → World env
  at_store w s = record w { store = s }

  abbrev pub credit_claimed : Bool × Store → Invoice → World env → Result (Unit {0}) × World env
  credit_claimed (false, s) inv w = (ok tt, at_store w s)
  credit_claimed (true, s) inv w = credit_invoice env catalog inv (at_store w s)

  abbrev pub settle_checked : Option Error → Invoice → World env → Result (Unit {0}) × World env
  settle_checked (some e) inv w = (err e, at_store w (refuse e inv.id w.store))
  settle_checked none inv w =
      credit_claimed (claim_settlement inv.id (clock w.outside) w.store) inv w

  abbrev pub settle_found : Result Invoice → Event → World env → Result (Unit {0}) × World env
  settle_found (err e) ev w = (err e, w)
  settle_found (ok inv) ev w = settle_checked (fraud set_string ev inv) inv w

  unfoldable pub settle : Event → World env → Result (Unit {0}) × World env
  unfolding fraud
  settle ev w = settle_found (get_invoice ev.invoice_id w.store) ev w

  abbrev pub note : Event → World env → World env
  note ev w = at_store w (record_event ev.provider ev.external_id w.store)

  abbrev pub note_settled : Event → Result (Unit {0}) × World env → Result (Unit {0}) × World env
  note_settled ev (err e, w) = (err e, w)
  note_settled ev (ok x, w) = (ok tt, note ev w)

  abbrev pub by_status : Status → Event → World env → Result (Unit {0}) × World env
  by_status settled ev w = note_settled ev (settle ev w)
  by_status expired ev w =
      (ok tt, note ev (at_store w (set_invoice_status ev.invoice_id expired w.store).1))
  by_status invalid ev w =
      (ok tt, note ev (at_store w (set_invoice_status ev.invoice_id invalid w.store).1))
  by_status _ ev w = (ok tt, w)

  unfoldable pub process : Duration → Event → World env → Result (Unit {0}) × World env
  unfolding settle is_stale
  process window ev w =
      if is_stale window (clock w.outside) ev
      then (err stale_event, w)
      else if seen_event ev.provider ev.external_id w.store
      then (ok tt, w)
      else by_status ev.status ev w
