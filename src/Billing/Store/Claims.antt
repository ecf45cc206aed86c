-- ===== src/Billing/Store/Claims.antt =====
-- The settlement claim as a latch, and what shields an invoice from the expiry sweep.
use casper_vpn.Base.{
  String, Time, List, [], ◌∷◌, true, false, ◌≡◌, ◌≢◌, refl, inl, inr, ◌+◌, ◌==◌, arith, Bool-cases,
  Option-cases, eq_iff, is_some, All, is_zero,
}
use casper_vpn.Map.{Map, lookup, insert, remove, lookup-insert, lookup-remove, lookup-insert_self}
use casper_vpn.Billing.Model.{BillingDelivery}
use casper_vpn.Billing.Store.State.{Store, Settlement}
use casper_vpn.Billing.Store.Invoices
use casper_vpn.Billing.Store.Settlements
use casper_vpn.Billing.Store.Intents
use casper_vpn.Billing.Store.Credits
use casper_vpn.Billing.Store.Credits.{lease_key}
use casper_vpn.Billing.Store.Calls.{Call, apply, run}

-- The invoice has a row in the map of claims.
abbrev pub IsClaimed : String → Store → Type 0
IsClaimed id s = is_some (lookup id s.settled) ≡ true

-- The calls that do not give up the claim of the invoice: not its release, and not the end of an
-- outbox lease that is stored under the same key.
abbrev pub KeepsClaim : String → Call → Type 0
KeepsClaim id (Call.release_settlement k) = k ≢ id
KeepsClaim id (Call.complete_billing_delivery k now) = lease_key k ≢ id
KeepsClaim id c = Unit {0}

abbrev HasRow : String → Map Settlement → Type 0
HasRow id m = is_some (lookup id m) ≡ true

pub insert-HasRow :
    (id k : String) (v : Settlement) (m : Map Settlement) → HasRow id m → HasRow id (insert k v m)
insert-HasRow id k v m h = rw (lookup-insert k id v m) (ground arith)

remove-HasRow : (id k : String) (m : Map Settlement) → k ≢ id → HasRow id m → HasRow id (remove k m)
remove-HasRow id k m ne h = rw (lookup-remove k id m) (ground (arith, eq_iff k id))

lease_rows-HasRow :
    (until : Time) (xs : List (String × Settlement)) (id : String) (m : Map Settlement)
    → HasRow id m
    → HasRow id (Settlements.lease_rows until xs m)
lease_rows-HasRow until [] id m h = h
lease_rows-HasRow until ((k, row) ∷ xs) id m h =
    let row' : Settlement = record row { leased_until = until } in
    lease_rows-HasRow until xs id (insert k row' m) (insert-HasRow id k row' m h)

lease_all-HasRow :
    (until : Time) (xs : List BillingDelivery) (id : String) (m : Map Settlement)
    → HasRow id m
    → HasRow id (Credits.lease_all until xs m)
lease_all-HasRow until [] id m h = h
lease_all-HasRow until (d ∷ xs) id m h =
    let row : Settlement = record { claimed_at = 0; activated_at = 0; leased_until = until } in
    lease_all-HasRow until xs id (insert (lease_key d.id) row m)
      (insert-HasRow id (lease_key d.id) row m h)

complete-IsClaimed :
    (k id : String) (now : Time) (s : Store)
    → lease_key k ≢ id
    → IsClaimed id s
    → IsClaimed id (Credits.complete_billing_delivery k now s).1
unfolding Credits.complete_billing_delivery
complete-IsClaimed k id now s ne h = elim (Option-cases (lookup k s.deliveries)) [
  | inl e ↦ rw e h
  | inr (d, e) ↦ elim (Bool-cases (is_zero d.delivered_at)) [
    | inr f ↦ rw (e, f) (remove-HasRow id (lease_key k) s.settled ne h)
    | inl f ↦ elim (Bool-cases (d.invoice_id == "")) [
      | inl g ↦ rw (e, f, g) (remove-HasRow id (lease_key k) s.settled ne h)
      | inr g ↦ elim (Option-cases (lookup d.invoice_id s.invoices)) [
        | inl i ↦ rw (e, f, g, i) h
        | inr (inv, i) ↦ rw (e, f, g, i) (remove-HasRow id (lease_key k) s.settled ne h)
      ]
    ]
  ]
]

claim-IsClaimed :
    (k id : String) (now : Time) (s : Store)
    → IsClaimed id s
    → IsClaimed id (Settlements.claim_settlement k now s).1
unfolding Settlements.claim_settlement
claim-IsClaimed k id now s h =
    let row : Settlement = record { claimed_at = now; activated_at = 0; leased_until = 0 } in
    elim (Option-cases (lookup k s.settled)) [
      | inl e ↦ rw e (insert-HasRow id k row s.settled h)
      | inr (r, e) ↦ rw e h
    ]

mark-IsClaimed :
    (k id : String) (now : Time) (s : Store)
    → IsClaimed id s
    → IsClaimed id (Settlements.mark_settlement_activated k now s)
unfolding Settlements.mark_settlement_activated
mark-IsClaimed k id now s h = elim (Option-cases (lookup k s.settled)) [
  | inl e ↦ rw e h
  | inr (r, e) ↦ elim (Bool-cases (is_zero r.activated_at)) [
    | inl f ↦ rw (e, f) (insert-HasRow id k (record r { activated_at = now }) s.settled h)
    | inr f ↦ rw (e, f) h
  ]
]

same_rows : (id : String) (s t : Store) → t.settled ≡ s.settled → IsClaimed id s → IsClaimed id t
same_rows id s t e h = rw e h

pub apply-IsClaimed :
    (c : Call) (id : String) (s : Store)
    → KeepsClaim id c
    → IsClaimed id s
    → IsClaimed id (apply c s)
unfolding apply Invoices.create_invoice Invoices.set_invoice_status Invoices.record_event
    Settlements.release_settlement Settlements.lease_stuck_settlements Settlements.expire_overdue
    Settlements.acquire_poll_lease Settlements.renew_poll_lease Settlements.release_poll_lease
    Settlements.record_negative_check Settlements.clear_negative_check
    Intents.reserve_invoice_intent Intents.begin_invoice_create Intents.complete_invoice_create
    Intents.fail_invoice_create Credits.lease_billing_deliveries Credits.stage_invoice_credit
    Credits.stage_schedule_transition Credits.upsert_schedule
apply-IsClaimed (Call.claim_settlement k now) id s keep h = claim-IsClaimed k id now s h
apply-IsClaimed (Call.mark_settlement_activated k now) id s keep h = mark-IsClaimed k id now s h
apply-IsClaimed (Call.release_settlement k) id s keep h = remove-HasRow id k s.settled keep h
apply-IsClaimed (Call.complete_billing_delivery k now) id s keep h =
    complete-IsClaimed k id now s keep h
apply-IsClaimed (Call.lease_stuck_settlements t d n now) id s keep h =
    lease_rows-HasRow (now + d) (Settlements.stuck_chosen t n now s) id s.settled h
apply-IsClaimed (Call.lease_billing_deliveries t d n now) id s keep h =
    lease_all-HasRow (now + d) (Credits.deliveries_chosen t n now s) id s.settled h
apply-IsClaimed (Call.expire_overdue now ps d) id s keep h = h
apply-IsClaimed c id s keep h = same_rows id s (apply c s) (ground arith) h

pub run-IsClaimed :
    (cs : List Call) (id : String) (s : Store)
    → All (KeepsClaim id) cs
    → IsClaimed id s
    → IsClaimed id (run cs s)
unfolding run
run-IsClaimed [] id s keep h = h
run-IsClaimed (c ∷ cs) id s keep h =
    run-IsClaimed cs id (apply c s) keep.1 (apply-IsClaimed c id s keep.0 h)

pub claim-claims :
    (id : String) (now : Time) (s : Store) → IsClaimed id (Settlements.claim_settlement id now s).1
unfolding Settlements.claim_settlement
claim-claims id now s = elim (Option-cases (lookup id s.settled)) [
  | inl e ↦ rw e (
      rw
        (lookup-insert_self id (record { claimed_at = now; activated_at = 0; leased_until = 0 })
          s.settled)
        refl)
  | inr (r, e) ↦ rw e (rw e refl)
]

-- Of all claims of an invoice at most the first is granted: after `ClaimSettlement(id)`, whatever it
-- answered, and any calls that neither release the invoice's claim nor end an outbox lease stored
-- under the same key, `ClaimSettlement(id)` answers false and changes nothing.
pub claim_once :
    (id : String) (now later : Time) (cs : List Call) (s : Store)
    → All (KeepsClaim id) cs
    → let t = run cs (Settlements.claim_settlement id now s).1 in
      Settlements.claim_settlement id later t ≡ (false, t)
unfolding Settlements.claim_settlement
claim_once id now later cs s keep =
    let t = run cs (Settlements.claim_settlement id now s).1 in
    rw (run-IsClaimed cs id (Settlements.claim_settlement id now s).1 keep (claim-claims id now s))
      refl
