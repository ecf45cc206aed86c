-- ===== src/Billing/Ledger/Refinement.antt =====
-- Every call of the store is a move of the abstract ledger.
use casper_vpn.Base.{
  String, ℕ, Time, Duration, Option, none, some, List, ◌≡◌, refl, ap, inl, inr, ◌==◌, ◌≤◌, arith,
  Option-cases, Bool-cases, nat_eq, is_zero, ◌∙◌,
}
use mathlib.Core.Path.{fun_ext}
use casper_vpn.Map.{Map, lookup, insert, lookup-insert}
use casper_vpn.Billing.Model.{Schedule, BillingDelivery, SubStatus}
use casper_vpn.Billing.Store.State.{Store}
use casper_vpn.Billing.Store.Invoices
use casper_vpn.Billing.Store.Settlements
use casper_vpn.Billing.Store.Intents
use casper_vpn.Billing.Store.Credits
use casper_vpn.Billing.Store.Calls.{Call, apply}
use casper_vpn.Billing.Ledger.{
  view, update, revision_of, Move, stay, credit, transition, stamp, write,
}

lookup-update :
    {V : Type 0} (m : List (String × V)) (k : String) (v : V)
    → ◌≡◌ {A = String → Option V} (λ j. lookup j (insert k v m)) (update (λ j. lookup j m) k v)
lookup-update m k v = fun_ext (λ j. lookup-insert k j v m)

pub stage-Move :
    (i sub user : String) (now : Time) (duration grace : Duration) (s : Store)
    → Move (view s) (view (Credits.stage_invoice_credit i sub user now duration grace s).1)
unfolding Credits.stage_invoice_credit
stage-Move i sub user now duration grace s = elim (Option-cases (lookup i s.invoice_deliveries)) [
  | inr (k, e) ↦ rw e (stay refl)
  | inl e ↦ elim (Option-cases (lookup i s.invoices)) [
    | inl f ↦ rw (e, f) (stay refl)
    | inr (inv, f) ↦ elim (Bool-cases (inv.anon_user_id == user)) [
      | inr g ↦ rw (e, f, g) (stay refl)
      | inl g ↦
          let d = Credits.credit_of inv i sub user now duration grace (lookup sub s.schedules) in
          rw (e, f, g)
            (credit d duration
              (record { fresh = e; named = refl; next = refl; extends = refl; open_ended = refl })
              (λ t. record {
                schedule = lookup-update s.schedules sub (Credits.schedule_of d) t;
                delivery = lookup-update s.deliveries d.id d t;
                staged = lookup-update s.invoice_deliveries i d.id t;
              }))
    ]
  ]
]

transition-Move :
    (sub : String) (r : ℕ) (st : SubStatus) (now : Time) (s : Store)
    → Move (view s) (view (Credits.stage_schedule_transition sub r st now s).1)
unfolding Credits.stage_schedule_transition
transition-Move sub r st now s = elim (Option-cases (lookup sub s.schedules)) [
  | inl e ↦ rw e (stay refl)
  | inr (sched, e) ↦ elim (Bool-cases (nat_eq sched.revision r)) [
    | inr f ↦ rw (e, f) (stay refl)
    | inl f ↦
        let d = Credits.transition_of sched sub st now in
        rw (e, f)
          (transition sched sub st now e (λ t. record {
            schedule =
                lookup-update s.schedules sub
                  (record sched { revision = d.revision; status = d.status }) t;
            delivery = lookup-update s.deliveries d.id d t;
            staged = λ j. lookup j s.invoice_deliveries;
          }))
  ]
]

-- Calls that leave the three maps of the ledger alone.
same_maps :
    (s t : Store)
    → (t.schedules ≡ s.schedules)
      × (t.deliveries ≡ s.deliveries)
      × (t.invoice_deliveries ≡ s.invoice_deliveries)
    → Move (view s) (view t)
same_maps s t (e, f, g) = stay (λ i. record {
  schedule = λ k. lookup k (e i);
  delivery = λ k. lookup k (f i);
  staged = λ k. lookup k (g i);
})

stamp-Move :
    (k : String) (d : BillingDelivery) (now : Time) (s t : Store)
    → lookup k s.deliveries ≡ some d
    → (t.schedules ≡ s.schedules)
      × (t.deliveries ≡ insert k (record d { delivered_at = now }) s.deliveries)
      × (t.invoice_deliveries ≡ s.invoice_deliveries)
    → Move (view s) (view t)
stamp-Move k d now s t h (e, f, g) = stamp k d now h (
    ap (λ (m : Map Schedule). record (view t) { schedule = λ j. lookup j m }) e
    ∙ ap
        (λ (m : Map BillingDelivery). record {
          schedule = λ j. lookup j s.schedules;
          delivery = λ j. lookup j m;
          staged = λ j. lookup j t.invoice_deliveries;
        })
        f
    ∙ (λ i. record {
      schedule = λ j. lookup j s.schedules;
      delivery = lookup-update s.deliveries k (record d { delivered_at = now }) i;
      staged = λ j. lookup j (g i);
    }))

complete-Move :
    (k : String) (now : Time) (s : Store)
    → Move (view s) (view (Credits.complete_billing_delivery k now s).1)
unfolding Credits.complete_billing_delivery
complete-Move k now s = elim (Option-cases (lookup k s.deliveries)) [
  | inl e ↦ rw e (stay refl)
  | inr (d, e) ↦ elim (Bool-cases (is_zero d.delivered_at)) [
    | inr f ↦ rw (e, f) (stay refl)
    | inl f ↦
        stamp-Move k d now s (Credits.complete_billing_delivery k now s).1 e
          (elim (Bool-cases (d.invoice_id == "")) [
            | inl g ↦ rw (e, f, g) (refl, refl, refl)
            | inr g ↦ elim (Option-cases (lookup d.invoice_id s.invoices)) [
              | inl h ↦ rw (e, f, g, h) (refl, refl, refl)
              | inr (inv, h) ↦ rw (e, f, g, h) (refl, refl, refl)
            ]
          ])
  ]
]

revision-merged :
    (old : Option Schedule) (sched : Schedule)
    → revision_of old ≤ (Credits.merged old sched).revision
revision-merged none sched = omega arith
revision-merged (some old) sched = ground arith

upsert-Move :
    (sched : Schedule) (s : Store) → Move (view s) (view (Credits.upsert_schedule sched s))
unfolding Credits.upsert_schedule
upsert-Move sched s =
    let new = Credits.merged (lookup sched.sub_id s.schedules) sched in
    write sched.sub_id new (revision-merged (lookup sched.sub_id s.schedules) sched)
      (λ t. record (view s) { schedule = lookup-update s.schedules sched.sub_id new t })

-- Each call of the store makes one move of the ledger.
pub apply-Move : (c : Call) (s : Store) → Move (view s) (view (apply c s))
unfolding apply Invoices.create_invoice Invoices.set_invoice_status Invoices.record_event
    Settlements.claim_settlement Settlements.release_settlement
    Settlements.mark_settlement_activated Settlements.lease_stuck_settlements
    Settlements.expire_overdue Settlements.acquire_poll_lease Settlements.renew_poll_lease
    Settlements.release_poll_lease Settlements.record_negative_check
    Settlements.clear_negative_check Intents.reserve_invoice_intent Intents.begin_invoice_create
    Intents.complete_invoice_create Intents.fail_invoice_create Credits.lease_billing_deliveries
apply-Move (Call.stage_invoice_credit i sub u now d g) s = stage-Move i sub u now d g s
apply-Move (Call.stage_schedule_transition sub r st now) s = transition-Move sub r st now s
apply-Move (Call.complete_billing_delivery k now) s = complete-Move k now s
apply-Move (Call.upsert_schedule sched) s = upsert-Move sched s
apply-Move (Call.lease_stuck_settlements t d n now) s = stay refl
apply-Move (Call.lease_billing_deliveries t d n now) s = stay refl
apply-Move (Call.expire_overdue now ps d) s = stay refl
apply-Move (Call.reserve_invoice_intent i now) s =
    same_maps s (apply (Call.reserve_invoice_intent i now) s) (ground arith)
apply-Move c s = same_maps s (apply c s) (ground arith)
