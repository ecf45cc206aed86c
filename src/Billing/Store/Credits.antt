-- ===== src/Billing/Store/Credits.antt =====
-- store/memory.go, the durable credit ledger: schedules, billing deliveries (the outbox) and their
-- recovery leases. A revision is an `int64` that grows by one with each staged update; it is a plain
-- number here, so its wrap-around after 2^63 updates of one subscription is not modelled.
use Prim.Native.String.{◌++◌, compare}
use Prim.Native.Nat.{Ordering}
use casper_vpn.Base.{
  String, ℕ, Time, Duration, Bool, true, false, not, Option, none, some, List, [], ◌∷◌, map, ◌+◌,
  ◌==◌, ◌&&◌, ltb, is_zero, after, before, nat_eq, if◌then◌else◌, keep_if, sort_by, decimal,
}
use casper_vpn.Map.{Map, lookup, insert, remove, entries}
use casper_vpn.Billing.Model.{
  settled, SubStatus, active, lapsed, same_sub_status, Invoice, Schedule, BillingDelivery, Result,
  ok, err, not_found, conflict,
}
use casper_vpn.Billing.Store.State.{Settlement, Store}
use casper_vpn.Billing.Store.Settlements.{up_to}

-- `"invoice:" + invoiceID`
abbrev pub invoice_delivery_id : String → String
invoice_delivery_id invoice_id = "invoice:" ++ invoice_id

-- `fmt.Sprintf("schedule:%s:%d", subID, revision)`
abbrev pub schedule_delivery_id : String → ℕ → String
schedule_delivery_id sub_id revision = "schedule:" ++ sub_id ++ ":" ++ decimal revision

-- `"delivery:" + deliveryID`: the outbox leases live in the map of the settlement claims.
abbrev pub lease_key : String → String
lease_key delivery_id = "delivery:" ++ delivery_id

-- What a renewal extends: the later of `now` and the current expiry.
abbrev pub extend_from : Time → Option Schedule → Time
extend_from now none = now
extend_from now (some sched) = if after sched.expires_at now then sched.expires_at else now

abbrev pub next_revision : Option Schedule → ℕ
next_revision none = 1
next_revision (some sched) = sched.revision + 1

abbrev pub credit_of :
    Invoice
    → String
    → String
    → String
    → Time
    → Duration
    → Duration
    → Option Schedule
    → BillingDelivery
credit_of inv invoice_id sub_id user now duration grace sched = record {
  id = invoice_delivery_id invoice_id;
  invoice_id = invoice_id;
  sub_id = sub_id;
  anon_user_id = user;
  revision = next_revision sched;
  plan = inv.plan;
  status = active;
  expires_at = extend_from now sched + duration;
  grace_until = extend_from now sched + duration + grace;
  created_at = now;
  delivered_at = 0;
}

-- The schedule that a delivery leaves.
abbrev pub schedule_of : BillingDelivery → Schedule
schedule_of d = record {
  sub_id = d.sub_id;
  anon_user_id = d.anon_user_id;
  revision = d.revision;
  plan = d.plan;
  status = d.status;
  expires_at = d.expires_at;
  grace_until = d.grace_until;
}

-- The three writes at the end of `StageInvoiceCredit`.
abbrev pub put_credit : BillingDelivery → Store → Store
put_credit d s = record s {
  schedules = insert d.sub_id (schedule_of d) s.schedules;
  deliveries = insert d.id d s.deliveries;
  invoice_deliveries = insert d.invoice_id d.id s.invoice_deliveries;
}

-- Go's zero value, for `m.deliveries[deliveryID]` on a missing key.
abbrev pub no_delivery : BillingDelivery
no_delivery = record {
  id = "";
  invoice_id = "";
  sub_id = "";
  anon_user_id = "";
  revision = 0;
  plan = "";
  status = SubStatus.other "";
  expires_at = 0;
  grace_until = 0;
  created_at = 0;
  delivered_at = 0;
}

abbrev delivery_or_zero : Option BillingDelivery → BillingDelivery
delivery_or_zero none = no_delivery
delivery_or_zero (some d) = d

abbrev stage_new :
    Option Invoice
    → String
    → String
    → String
    → Time
    → Duration
    → Duration
    → Store
    → Result BillingDelivery × Store
stage_new none invoice_id sub_id user now duration grace s = (err not_found, s)
stage_new (some inv) invoice_id sub_id user now duration grace s =
    let d = credit_of inv invoice_id sub_id user now duration grace (lookup sub_id s.schedules) in
    if not (inv.anon_user_id == user) then (err conflict, s) else (ok d, put_credit d s)

abbrev stage_as :
    Option String
    → String
    → String
    → String
    → Time
    → Duration
    → Duration
    → Store
    → Result BillingDelivery × Store
stage_as (some delivery_id) invoice_id sub_id user now duration grace s =
    (ok (delivery_or_zero (lookup delivery_id s.deliveries)), s)
stage_as none invoice_id sub_id user now duration grace s =
    stage_new (lookup invoice_id s.invoices) invoice_id sub_id user now duration grace s

unfoldable pub stage_invoice_credit :
    String → String → String → Time → Duration → Duration → Store → Result BillingDelivery × Store
stage_invoice_credit invoice_id sub_id user now duration grace s =
    stage_as (lookup invoice_id s.invoice_deliveries) invoice_id sub_id user now duration grace s

abbrev pub transition_of : Schedule → String → SubStatus → Time → BillingDelivery
transition_of sched sub_id status now = record {
  id = schedule_delivery_id sub_id (sched.revision + 1);
  invoice_id = "";
  sub_id = sub_id;
  anon_user_id = sched.anon_user_id;
  revision = sched.revision + 1;
  plan = sched.plan;
  status = status;
  expires_at = sched.expires_at;
  grace_until = sched.grace_until;
  created_at = now;
  delivered_at = 0;
}

abbrev put_transition : BillingDelivery → Schedule → Store → Store
put_transition d sched s = record s {
  schedules =
      insert d.sub_id (record sched { revision = d.revision; status = d.status }) s.schedules;
  deliveries = insert d.id d s.deliveries;
}

abbrev transition_found :
    Option Schedule
    → String
    → ℕ
    → SubStatus
    → Time
    → Store
    → Result (Option BillingDelivery) × Store
transition_found none sub_id expected status now s = (err not_found, s)
transition_found (some sched) sub_id expected status now s =
    let d = transition_of sched sub_id status now in
    if not (nat_eq sched.revision expected)
    then (ok none, s)
    else (ok (some d), put_transition d sched s)

-- `ok none` is the answer `staged == false`.
unfoldable pub stage_schedule_transition :
    String → ℕ → SubStatus → Time → Store → Result (Option BillingDelivery) × Store
stage_schedule_transition sub_id expected status now s =
    transition_found (lookup sub_id s.schedules) sub_id expected status now s

abbrev pub leased_after : Time → Option Settlement → Bool
leased_after now none = false
leased_after now (some row) = after row.leased_until now

-- The candidates of `LeaseBillingDeliveries`.
unfoldable pub is_deliverable : Time → Time → Store → BillingDelivery → Bool
is_deliverable older_than now s d =
    is_zero d.delivered_at
    && before d.created_at older_than
    && not (leased_after now (lookup (lease_key d.id) s.settled))

abbrev text_before : String → String → Bool
text_before a b = elim (compare a b) [ Ordering.lt ↦ true | _ ↦ false ]

unfoldable pub delivered_before : BillingDelivery → BillingDelivery → Bool
delivered_before a b =
    if nat_eq a.created_at b.created_at
    then text_before a.id b.id
    else before a.created_at b.created_at

abbrev pub lease_all : Time → List BillingDelivery → Map Settlement → Map Settlement
lease_all until [] rows = rows
lease_all until (d ∷ rest) rows =
    let row : Settlement = record { claimed_at = 0; activated_at = 0; leased_until = until } in
    lease_all until rest (insert (lease_key d.id) row rows)

-- The candidates that a call leases, the oldest first.
unfoldable pub deliveries_chosen : Time → ℕ → Time → Store → List BillingDelivery
unfolding is_deliverable delivered_before sort_by
deliveries_chosen older_than limit now s =
    let candidates =
      keep_if (is_deliverable older_than now s) (map (λ e. e.1) (entries s.deliveries)) in
    up_to limit (sort_by delivered_before candidates)

unfoldable pub lease_billing_deliveries :
    Time → Duration → ℕ → Time → Store → List BillingDelivery × Store
unfolding deliveries_chosen
lease_billing_deliveries older_than lease_for limit now s =
    let chosen = deliveries_chosen older_than limit now s in
    (chosen, record s { settled = lease_all (now + lease_for) chosen s.settled })

abbrev drop_lease : String → Store → Store
drop_lease delivery_id s = record s { settled = remove (lease_key delivery_id) s.settled }

abbrev settle_invoice : Option Invoice → String → String → Store → Result (Unit {0}) × Store
settle_invoice none invoice_id delivery_id s = (err not_found, s)
settle_invoice (some inv) invoice_id delivery_id s = (
  ok tt,
  drop_lease delivery_id
      (record s { invoices = insert invoice_id (record inv { status = settled }) s.invoices }),
)

abbrev complete_found : Option BillingDelivery → String → Time → Store → Result (Unit {0}) × Store
complete_found none delivery_id now s = (err not_found, s)
complete_found (some d) delivery_id now s =
    if not (is_zero d.delivered_at)
    then (ok tt, drop_lease delivery_id s)
    else let stamped = record s {
      deliveries = insert delivery_id (record d { delivered_at = now }) s.deliveries;
    } in
      if d.invoice_id == ""
      then (ok tt, drop_lease delivery_id stamped)
      else settle_invoice (lookup d.invoice_id s.invoices) d.invoice_id delivery_id stamped

unfoldable pub complete_billing_delivery : String → Time → Store → Result (Unit {0}) × Store
complete_billing_delivery delivery_id now s =
    complete_found (lookup delivery_id s.deliveries) delivery_id now s

abbrev pub merged : Option Schedule → Schedule → Schedule
merged none sched = sched
merged (some current) sched = record sched {
  revision = if ltb sched.revision current.revision then current.revision else sched.revision;
  plan = if sched.plan == "" then current.plan else sched.plan;
}

unfoldable pub upsert_schedule : Schedule → Store → Store
upsert_schedule sched s = record s {
  schedules = insert sched.sub_id (merged (lookup sched.sub_id s.schedules) sched) s.schedules;
}

abbrev found_schedule : Option Schedule → Result Schedule
found_schedule none = err not_found
found_schedule (some sched) = ok sched

unfoldable pub get_schedule : String → Store → Result Schedule
get_schedule sub_id s = found_schedule (lookup sub_id s.schedules)

abbrev is_due : Time → Schedule → Bool
is_due now sched = not (same_sub_status sched.status lapsed) && not (before now sched.expires_at)

unfoldable pub due_schedules : Time → Store → List Schedule
due_schedules now s = keep_if (is_due now) (map (λ e. e.1) (entries s.schedules))
