-- ===== src/Billing/Payment/Processor/Calls.antt =====
-- The processor and the activator reach the store through its calls alone.
use casper_vpn.Base.{
  String, Time, Duration, Bool, true, false, Option, none, some, inl, inr, Bool-cases,
}
use casper_vpn.Billing.Model.{
  Status, settled, expired, invalid, Invoice, Event, Error, Result, ok, err, BillingDelivery,
}
use casper_vpn.Billing.Store.State.{Store}
use casper_vpn.Billing.Store.Invoices.{set_invoice_status, record_event, get_invoice, seen_event}
use casper_vpn.Billing.Store.Settlements.{claim_settlement}
use casper_vpn.Billing.Store.Credits.{stage_invoice_credit, complete_billing_delivery}
use casper_vpn.Billing.Store.Calls.{Call, apply}
use casper_vpn.Billing.Store.Reach.{Reaches, Reaches-refl, Reaches-one, Reaches-trans}
use casper_vpn.Billing.Environment.{Environment, World}
use casper_vpn.Billing.Money.{Rat}
use casper_vpn.Billing.Activator.{Catalog, deliver, credit_invoice}
use casper_vpn.Billing.Activator.Keeps.{deliver_keeps, credit_invoice_keeps}
use casper_vpn.Billing.Payment.Processor.{
  fraud, is_stale, settle, process, note_settled, refuse, by_status, credit_claimed, settle_checked,
  settle_found,
}

module _ (env : Environment) where
  complete-Reaches :
      (s : Store) (k : String) (now : Time) (t : Store)
      → Reaches s t
      → Reaches s (complete_billing_delivery k now t).1
  unfolding apply
  complete-Reaches s k now t h =
      Reaches-trans s t (complete_billing_delivery k now t).1 h
        (Reaches-one (Call.complete_billing_delivery k now) t)

  stage-Reaches :
      (s : Store) (i sub user : String) (now : Time) (dur grace : Duration) (t : Store)
      → Reaches s t
      → Reaches s (stage_invoice_credit i sub user now dur grace t).1
  unfolding apply
  stage-Reaches s i sub user now dur grace t h =
      Reaches-trans s t (stage_invoice_credit i sub user now dur grace t).1 h
        (Reaches-one (Call.stage_invoice_credit i sub user now dur grace) t)

  pub deliver-Reaches :
      (d : BillingDelivery) (w : World env) → Reaches w.store (deliver env d w).1.store
  deliver-Reaches d w =
      deliver_keeps env (Reaches w.store) (complete-Reaches w.store) d w (Reaches-refl w.store)

  pub credit_invoice-Reaches :
      (catalog : Catalog) (inv : Invoice) (w : World env)
      → Reaches w.store (credit_invoice env catalog inv w).1.store
  credit_invoice-Reaches catalog inv w =
      credit_invoice_keeps env (Reaches w.store) (complete-Reaches w.store) (stage-Reaches w.store)
        catalog inv w (Reaches-refl w.store)

module _ (env : Environment) (set_string : String → Option Rat) (catalog : Catalog) where
  claimed-Reaches :
      (c : Bool × Store) (inv : Invoice) (w : World env)
      → Reaches c.1 (credit_claimed env set_string catalog c inv w).1.store
  claimed-Reaches (false, s) inv w = Reaches-refl s
  claimed-Reaches (true, s) inv w = credit_invoice-Reaches env catalog inv (record w { store = s })

  refuse-Reaches : (e : Error) (id : String) (s : Store) → Reaches s (refuse e id s)
  unfolding apply
  refuse-Reaches Error.underpaid id s = Reaches-one (Call.set_invoice_status id invalid) s
  refuse-Reaches _ id s = Reaches-refl s

  checked-Reaches :
      (f : Option Error) (inv : Invoice) (w : World env)
      → Reaches w.store (settle_checked env set_string catalog f inv w).1.store
  unfolding apply
  checked-Reaches (some e) inv w = refuse-Reaches e inv.id w.store
  checked-Reaches none inv w =
      let c = claim_settlement inv.id (env.clock w.outside) w.store in
      Reaches-trans w.store c.1 (credit_claimed env set_string catalog c inv w).1.store
        (Reaches-one (Call.claim_settlement inv.id (env.clock w.outside)) w.store)
        (claimed-Reaches c inv w)

  found-Reaches :
      (r : Result Invoice) (ev : Event) (w : World env)
      → Reaches w.store (settle_found env set_string catalog r ev w).1.store
  found-Reaches (err e) ev w = Reaches-refl w.store
  found-Reaches (ok inv) ev w = checked-Reaches (fraud set_string ev inv) inv w

  noted-Reaches :
      (s : Store) (ev : Event) (r : Result (Unit {0}) × World env)
      → Reaches s r.1.store
      → Reaches s (note_settled env set_string catalog ev r).1.store
  unfolding apply
  noted-Reaches s ev (err e, w) h = h
  noted-Reaches s ev (ok x, w) h =
      Reaches-trans s w.store (record_event ev.provider ev.external_id w.store) h
        (Reaches-one (Call.record_event ev.provider ev.external_id) w.store)

  marked-Reaches :
      (st : Status) (ev : Event) (s : Store)
      → Reaches s
          (record_event ev.provider ev.external_id (set_invoice_status ev.invoice_id st s).1)
  unfolding apply
  marked-Reaches st ev s =
      let t = (set_invoice_status ev.invoice_id st s).1 in
      Reaches-trans s t (record_event ev.provider ev.external_id t)
        (Reaches-one (Call.set_invoice_status ev.invoice_id st) s)
        (Reaches-one (Call.record_event ev.provider ev.external_id) t)

  status-Reaches :
      (st : Status) (ev : Event) (w : World env)
      → Reaches w.store (by_status env set_string catalog st ev w).1.store
  unfolding settle
  status-Reaches settled ev w =
      noted-Reaches w.store ev (settle env set_string catalog ev w)
        (found-Reaches (get_invoice ev.invoice_id w.store) ev w)
  status-Reaches expired ev w = marked-Reaches expired ev w.store
  status-Reaches invalid ev w = marked-Reaches invalid ev w.store
  status-Reaches _ ev w = Reaches-refl w.store

  -- What `Process` does to the store is a list of the store's calls.
  pub process-Reaches :
      (window : Duration) (ev : Event) (w : World env)
      → Reaches w.store (process env set_string catalog window ev w).1.store
  unfolding process
  process-Reaches window ev w = elim (Bool-cases (is_stale window (env.clock w.outside) ev)) [
    | inl t ↦ rw t (Reaches-refl w.store)
    | inr t ↦ elim (Bool-cases (seen_event ev.provider ev.external_id w.store)) [
      | inl u ↦ rw (t, u) (Reaches-refl w.store)
      | inr u ↦ rw (t, u) (status-Reaches ev.status ev w)
    ]
  ]
