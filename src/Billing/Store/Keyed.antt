-- ===== src/Billing/Store/Keyed.antt =====
-- Every invoice is stored under its id, after any calls.
use casper_vpn.Base.{
  String, Time, List, Option, none, some, ◌≡◌, refl, sym, ap, ◌∙◌, ◌==◌, arith, inl, inr, is_zero,
  Bool-cases, Option-cases, if◌then◌else◌, some_path,
}
use casper_vpn.Map.{
  Map, lookup, insert, update_all, lookup-insert_cases, lookup-update_all, updated,
}
use casper_vpn.Billing.Model.{Status, Invoice}
use casper_vpn.Billing.Store.State.{Store, new_store}
use casper_vpn.Billing.Store.Invoices
use casper_vpn.Billing.Store.Settlements
use casper_vpn.Billing.Store.Intents
use casper_vpn.Billing.Store.Credits
use casper_vpn.Billing.Store.Calls.{Call, apply, run}
use casper_vpn.Billing.Store.Reach.{run_invariant}

abbrev pub IsKeyed : Map Invoice → Type 0
IsKeyed m = (k : String) (inv : Invoice) → lookup k m ≡ some inv → inv.id ≡ k

insert-IsKeyed :
    (m : Map Invoice) (k : String) (v : Invoice) → v.id ≡ k → IsKeyed m → IsKeyed (insert k v m)
insert-IsKeyed m k v e h j inv p = elim (lookup-insert_cases k v m j inv p) [
  | inl (q, r) ↦ ap (λ (x : Invoice). x.id) (sym r) ∙ e ∙ q
  | inr (q, r) ↦ h j inv r
]

update_all-IsKeyed :
    (f : String → Invoice → Invoice) (m : Map Invoice)
    → ((k : String) (v : Invoice) → (f k v).id ≡ v.id)
    → IsKeyed m
    → IsKeyed (update_all f m)
update_all-IsKeyed f m same h k inv p = go (lookup k m) refl (sym (lookup-update_all f k m) ∙ p)
  where
    go : (o : Option Invoice) → lookup k m ≡ o → updated f k o ≡ some inv → inv.id ≡ k
    go none e q = cc
    go (some v) e q =
        ap (λ (x : Invoice). x.id) (sym (some_path (some (f k v)) refl q)) ∙ same k v ∙ h k v e

set_found-IsKeyed :
    (s : Store) (id : String) (st : Status)
    → IsKeyed s.invoices
    → IsKeyed (Invoices.set_invoice_status id st s).1.invoices
unfolding Invoices.set_invoice_status
set_found-IsKeyed s id st h = elim (Option-cases (lookup id s.invoices)) [
  | inl e ↦ rw e h
  | inr (inv, e) ↦ rw e (insert-IsKeyed s.invoices id (record inv { status = st }) (h id inv e) h)
]

complete-IsKeyed :
    (s : Store) (k : String) (now : Time)
    → IsKeyed s.invoices
    → IsKeyed (Credits.complete_billing_delivery k now s).1.invoices
unfolding Credits.complete_billing_delivery
complete-IsKeyed s k now h = elim (Option-cases (lookup k s.deliveries)) [
  | inl e ↦ rw e h
  | inr (d, e) ↦ elim (Bool-cases (is_zero d.delivered_at)) [
    | inr f ↦ rw (e, f) h
    | inl f ↦ elim (Bool-cases (d.invoice_id == "")) [
      | inl g ↦ rw (e, f, g) h
      | inr g ↦ elim (Option-cases (lookup d.invoice_id s.invoices)) [
        | inl i ↦ rw (e, f, g, i) h
        | inr (inv, i) ↦
            rw (e, f, g, i)
              (insert-IsKeyed s.invoices d.invoice_id (record inv { status = Status.settled })
                (h d.invoice_id inv i) h)
      ]
    ]
  ]
]

complete_create-IsKeyed :
    (s : Store) (k : String) (inv : Invoice)
    → IsKeyed s.invoices
    → IsKeyed (Intents.complete_invoice_create k inv s).1.invoices
unfolding Intents.complete_invoice_create
complete_create-IsKeyed s k inv h = elim (Option-cases (lookup k s.invoice_intents)) [
  | inl e ↦ rw e h
  | inr (intent, e) ↦ elim (Bool-cases (intent.order_id == inv.id)) [
    | inr f ↦ rw (e, f) h
    | inl f ↦ elim (Bool-cases (intent.provider == inv.provider)) [
      | inr g ↦ rw (e, f, g) h
      | inl g ↦ rw (e, f, g) (insert-IsKeyed s.invoices inv.id inv refl h)
    ]
  ]
]

same_invoices : (s t : Store) → t.invoices ≡ s.invoices → IsKeyed s.invoices → IsKeyed t.invoices
same_invoices s t e h = rw e h

pub apply-IsKeyed : (c : Call) (s : Store) → IsKeyed s.invoices → IsKeyed (apply c s).invoices
unfolding apply Invoices.create_invoice Invoices.record_event Settlements.claim_settlement
    Settlements.release_settlement Settlements.mark_settlement_activated
    Settlements.lease_stuck_settlements Settlements.expire_overdue Settlements.acquire_poll_lease
    Settlements.renew_poll_lease Settlements.release_poll_lease Settlements.record_negative_check
    Settlements.clear_negative_check Intents.reserve_invoice_intent Intents.begin_invoice_create
    Intents.fail_invoice_create Credits.lease_billing_deliveries Credits.stage_invoice_credit
    Credits.stage_schedule_transition Credits.upsert_schedule
apply-IsKeyed (Call.create_invoice inv) s h = insert-IsKeyed s.invoices inv.id inv refl h
apply-IsKeyed (Call.set_invoice_status id st) s h = set_found-IsKeyed s id st h
apply-IsKeyed (Call.expire_overdue now ps d) s h =
    update_all-IsKeyed
      (λ id inv.
        if Settlements.is_overdue now ps d s id inv
        then record inv { status = Status.expired }
        else inv)
      s.invoices (λ k v. ground arith) h
apply-IsKeyed (Call.complete_invoice_create k inv) s h = complete_create-IsKeyed s k inv h
apply-IsKeyed (Call.complete_billing_delivery k now) s h = complete-IsKeyed s k now h
apply-IsKeyed (Call.lease_stuck_settlements t d n now) s h = h
apply-IsKeyed (Call.lease_billing_deliveries t d n now) s h = h
apply-IsKeyed c s h = same_invoices s (apply c s) (ground arith) h

empty-IsKeyed : IsKeyed new_store.invoices
unfolding lookup
empty-IsKeyed k inv h = cc

-- After any calls of an empty store, in any order, an invoice is stored under its id.
pub run-IsKeyed : (cs : List Call) → IsKeyed (run cs new_store).invoices
run-IsKeyed cs = run_invariant (λ s. IsKeyed s.invoices) apply-IsKeyed cs new_store empty-IsKeyed
