-- ===== src/Billing/Tests.antt =====
-- A shop with one invoice, and each theorem about billing applied to it.
use text.Mathlib.TextPositions.{slice-append_left}
use Prim.Native.String.{slice}
use casper_vpn.Base.{
  inr, String, Time, Bool, true, false, Option, none, some, List, [], ◌∷◌, ◌≡◌, ◌≢◌, refl, sym, ap,
  ◌⊎◌, ◌∙◌, ◌==◌, eq_iff, ◌+◌, ◌≤◌, if◌then◌else◌, is_some, arith,
}
use casper_vpn.Map.{lookup, insert, empty}
use casper_vpn.Billing.Model.{
  pending, active, settled, expired, Invoice, Event, BillingDelivery, ok,
}
use casper_vpn.Billing.Store.State.{new_store}
use casper_vpn.Billing.Store.Invoices.{create_invoice, get_invoice, record_event, seen_event}
use casper_vpn.Billing.Store.Settlements.{acquire_poll_lease, claim_settlement, expire_overdue}
use casper_vpn.Billing.Store.Credits.{stage_invoice_credit, complete_billing_delivery, credit_of}
use casper_vpn.Billing.Store.Calls.{Call, apply, run}
use casper_vpn.Billing.Store.Claims.{claim_once}
use casper_vpn.Billing.Store.Keyed.{IsKeyed, run-IsKeyed}
use casper_vpn.Billing.Ledger.{view, Move}
use casper_vpn.Billing.Ledger.Refinement.{apply-Move}
use casper_vpn.Billing.Ledger.Safety.{IsSound}
use casper_vpn.Billing.Ledger.Runs.{target, run-IsSound}
use casper_vpn.Billing.Ledger.Final.{credit_once}
use casper_vpn.Billing.Environment.{Check, Environment, World}
use casper_vpn.Billing.Money.{Rat}
use casper_vpn.Billing.Activator.{Plan, Catalog, catalog_get, credit_invoice}
use casper_vpn.Billing.Payment.Processor.{fraud, is_stale, process}
use casper_vpn.Billing.Payment.Processor.Outcome.{IsIdle, IsClean}
use casper_vpn.Billing.Payment.Processor.Marks.{expired_overwrites}
use casper_vpn.Billing.Payment.Processor.Success.{process_credits}
use casper_vpn.Billing.Store.Leases.{poll_lease_excludes}
use casper_vpn.Billing.Store.Sweep.{Unpaid, sweep_spares}
use casper_vpn.Billing.Payment.Recovery.{reconcile}
use casper_vpn.Billing.Payment.Recovery.Report.{IsBounded, reconcile_report}
use casper_vpn.Billing.Payment.Processor.Safety.{
  IsPlain, Deserves, credit_needs_payment, second_settlement-IsIdle, process_again,
}

-- The clock is the whole state of the outside; a call of the control plane takes one nanosecond.
abbrev shop : Environment
shop = record {
  State = Time;
  clock = λ t. t;
  canceled = λ t. false;
  new_id = λ t. ("token", t + 1);
  ensure_subscription = λ user plan t. (some "sub-1", t + 1);
  set_billing_state = λ sub state t. (true, t + 1);
  check_invoice = λ name inv t. (Check.undecided, t);
  poll = λ name invs t. (some [], t);
}

abbrev amounts : String → Option Rat
amounts s =
    if s == "10"
    then some (record { is_negative = false; num = 10; den = 1 })
    else if s == "9.5"
    then some (record { is_negative = false; num = 19; den = 2 })
    else none

abbrev month : Plan
month = record {
  id = "month";
  duration = 1000;
  grace = 100;
  prices = insert "USDT" "10" empty;
  traffic_limit_bytes = 0;
  speed_limit_mbps = 0;
  device_limit = 3;
}

abbrev plans : Catalog
plans = insert "month" month empty

abbrev order : Invoice
order = record {
  id = "inv-1";
  provider = "mock";
  anon_user_id = "anon-1";
  plan = "month";
  currency = "USDT";
  amount = "10";
  pay_address = "addr-1";
  provider_invoice_id = "p-1";
  status = pending;
  created_at = 5;
  expires_at = 500;
}

abbrev payment : Event
payment = record {
  provider = "mock";
  external_id = "ev-1";
  invoice_id = "inv-1";
  status = settled;
  currency = "USDT";
  amount = "10";
  confirmations = 1;
  timestamp = 0;
}

-- The same payment, reported by another notification.
abbrev second_payment : Event
second_payment = record payment { external_id = "ev-2" }

abbrev opened : List Call
opened = Call.create_invoice order ∷ []

abbrev before_payment : World shop
before_payment = record { store = run opened new_store; outside = 10 }

different : (b : Bool) → b ≡ false → b ≡ true → ⊥
different b e f = cc

order-IsPlain : IsPlain "inv-1"
order-IsPlain k e =
    let f : ◌≡◌ {A = String} "delivery:" "inv-1" =
      sym (slice-append_left "delivery:" k) ∙ ap (λ t. slice t 0 9) e in
    different ("delivery:" == "inv-1") refl ((eq_iff "delivery:" "inv-1").1 f)

payment-IsClean : IsClean shop amounts plans 0 payment before_payment order
unfolding is_stale seen_event run apply create_invoice lookup insert fraud
payment-IsClean = record {
  timely = refl;
  unseen = refl;
  paid = refl;
  known = refl;
  honest = refl;
  unclaimed = refl;
}

abbrev paid_world : World shop
paid_world = (process shop amounts plans 0 payment before_payment).1

abbrev later_world : World shop
later_world = record {
  store =
      run (Call.claim_settlement "inv-1" 20 ∷ Call.expire_overdue 900 [] 0 ∷ []) paid_world.store;
  outside = 1000;
}

second_settlement-IsIdle_example :
    IsIdle shop amounts plans later_world
      (process shop amounts plans 0 second_payment later_world).1
second_settlement-IsIdle_example =
    second_settlement-IsIdle shop amounts plans 0 payment second_payment before_payment later_world
      order (Call.claim_settlement "inv-1" 20 ∷ Call.expire_overdue 900 [] 0 ∷ [])
      (run-IsKeyed opened) order-IsPlain payment-IsClean (tt, (tt, tt)) refl refl

first_run : (process shop amounts plans 0 payment before_payment).0 ≡ ok tt
unfolding process is_stale seen_event run apply create_invoice lookup insert get_invoice
    claim_settlement credit_invoice catalog_get stage_invoice_credit complete_billing_delivery
first_run = refl

process_again_example : (process shop amounts plans 0 payment paid_world).1 ≡ paid_world
process_again_example = process_again shop amounts plans 0 payment before_payment first_run

staged_changes : paid_world.store.invoice_deliveries ≢ before_payment.store.invoice_deliveries
unfolding process is_stale seen_event run apply create_invoice lookup insert get_invoice
    claim_settlement credit_invoice catalog_get stage_invoice_credit complete_billing_delivery
    record_event
staged_changes e =
    different (is_some (lookup "inv-1" before_payment.store.invoice_deliveries)) refl
      (sym (ap (λ m. is_some (lookup "inv-1" m)) e))

credit_needs_payment_example :
    (inv : Invoice) × Deserves shop amounts plans 0 payment before_payment inv
credit_needs_payment_example =
    credit_needs_payment shop amounts plans 0 payment before_payment staged_changes

order_named : order.id ≢ ""
order_named e = different (order.id == "") refl ((eq_iff order.id "").1 e)

order_unstaged : lookup "inv-1" before_payment.store.invoice_deliveries ≡ none
unfolding run apply create_invoice lookup
order_unstaged = refl

month_offered : catalog_get "month" plans ≡ some month
unfolding catalog_get lookup insert
month_offered = refl

process_credits_example :
    let (r, w') = process shop amounts plans 0 payment before_payment in
    (r ≡ ok tt)
    × (lookup "inv-1" w'.store.invoices ≡ some (record order { status = settled }))
    × (lookup "sub-1" w'.store.schedules
        ≡ some (record {
          sub_id = "sub-1";
          anon_user_id = "anon-1";
          revision = 1;
          plan = "month";
          status = active;
          expires_at = 1011;
          grace_until = 1111;
        }))
    × ((id : String) × (lookup "inv-1" w'.store.invoice_deliveries ≡ some id)
        × (lookup id w'.store.deliveries
            ≡ some (record {
              id = id;
              invoice_id = "inv-1";
              sub_id = "sub-1";
              anon_user_id = "anon-1";
              revision = 1;
              plan = "month";
              status = active;
              expires_at = 1011;
              grace_until = 1111;
              created_at = 11;
              delivered_at = 12;
            })))
    × (seen_event "mock" "ev-1" w'.store ≡ true)
    × (w'.outside ≡ 12)
unfolding lookup run apply create_invoice
process_credits_example =
    process_credits shop amounts plans 0 payment before_payment order month "sub-1" 11 12
      payment-IsClean refl order_named order_unstaged month_offered refl refl

abbrev staging : List Call
staging =
    Call.create_invoice order ∷ Call.stage_invoice_credit "inv-1" "sub-1" "anon-1" 11 1000 100 ∷ []

run-IsSound_example : IsSound (view (run staging new_store))
run-IsSound_example = run-IsSound staging

apply-Move_example : Move (view before_payment.store) (
    view
      (apply (Call.stage_invoice_credit "inv-1" "sub-1" "anon-1" 11 1000 100) before_payment.store))
apply-Move_example =
    apply-Move (Call.stage_invoice_credit "inv-1" "sub-1" "anon-1" 11 1000 100) before_payment.store

run-IsKeyed_example : IsKeyed (run staging new_store).invoices
run-IsKeyed_example = run-IsKeyed staging

claim_once_example :
    let t = run staging (claim_settlement "inv-1" 10 new_store).1 in
    claim_settlement "inv-1" 90 t ≡ (false, t)
claim_once_example = claim_once "inv-1" 10 90 staging new_store (tt, (tt, tt))

abbrev first_delivery : BillingDelivery
first_delivery = credit_of order "inv-1" "sub-1" "anon-1" 11 1000 100 none

first_staging :
    (stage_invoice_credit "inv-1" "sub-1" "anon-1" 11 1000 100 (run opened new_store)).0
    ≡ ok first_delivery
unfolding run apply create_invoice lookup insert stage_invoice_credit
first_staging = refl

credit_once_example :
    let s = (stage_invoice_credit "inv-1" "sub-1" "anon-1" 11 1000 100 (run opened new_store)).1 in
    (e : BillingDelivery) × (stage_invoice_credit "inv-1" "sub-2" "anon-1" 99 7 7 (run staging s)
      ≡ (ok e, run staging s))
    × (target e ≡ target first_delivery)
credit_once_example =
    credit_once opened staging "inv-1" "sub-1" "anon-1" 11 1000 100 first_delivery "sub-2" "anon-1"
      99 7 7 first_staging

order_found : lookup "inv-1" (run opened new_store).invoices ≡ some order
unfolding run apply create_invoice lookup insert
order_found = refl

sweep_spares_example :
    let found =
      lookup "inv-1" (expire_overdue 600 ("mock" ∷ []) 50 (run opened new_store)).invoices in
    (found ≡ some order)
    ⊎ ((found ≡ some (record order { status = expired }))
        × Unpaid 600 ("mock" ∷ []) 50 (run opened new_store) "inv-1" order)
sweep_spares_example =
    sweep_spares 600 ("mock" ∷ []) 50 (run opened new_store) "inv-1" order order_found

-- A process that stopped after it staged the credit.
abbrev crashed : World shop
crashed = record { store = run staging new_store; outside = 50 }

reconcile_report_example :
    let (r, errs) = (reconcile shop plans 40 30 5 crashed).0 in
    IsBounded r.failed_ids
    × (r.recovered + r.failed ≤ r.leased)
    × (r.canceled ≡ false → r.recovered + r.failed ≡ r.leased)
    × (errs ≡ none → r.failed ≡ 0)
    × (r.failed ≡ 0 → errs ≡ none)
reconcile_report_example = reconcile_report shop plans 40 30 5 crashed

-- A notification of the gateway that comes late.
abbrev late_expiry : Event
late_expiry = record payment { external_id = "ev-3"; status = expired }

abbrev paid_order : Invoice
paid_order = record order { status = settled }

late_expiry_unseen : seen_event "mock" "ev-3" paid_world.store ≡ false
unfolding process is_stale seen_event run apply create_invoice lookup insert get_invoice
    claim_settlement credit_invoice catalog_get stage_invoice_credit complete_billing_delivery
    record_event
late_expiry_unseen = refl

paid_order_settled : lookup "inv-1" paid_world.store.invoices ≡ some paid_order
unfolding process is_stale seen_event run apply create_invoice lookup insert get_invoice
    claim_settlement credit_invoice catalog_get stage_invoice_credit complete_billing_delivery
    record_event
paid_order_settled = refl

late_expiry_timely : is_stale 0 paid_world.outside late_expiry ≡ false
unfolding is_stale
late_expiry_timely = refl

expired_overwrites_example :
    let w' = (process shop amounts plans 0 late_expiry paid_world).1 in
    (lookup "inv-1" w'.store.invoices ≡ some (record paid_order { status = expired }))
    × IsIdle shop amounts plans paid_world w'
expired_overwrites_example =
    expired_overwrites shop amounts plans 0 late_expiry paid_world paid_order late_expiry_timely
      late_expiry_unseen refl paid_order_settled

-- While the first poller checks the chain, another tries to take the lease, and the sweep runs.
abbrev meanwhile : List Call
meanwhile =
    Call.acquire_poll_lease "inv-1" "poller-2" 30 "token-2" 20 ∷ Call.expire_overdue 30 [] 0 ∷ []

lease_taken :
    (acquire_poll_lease "inv-1" "poller-1" 30 "token-1" 10 (run opened new_store)).0
    ≡ some "token-1"
unfolding acquire_poll_lease run apply create_invoice lookup insert
lease_taken = refl

poll_lease_excludes_example :
    let t =
      run meanwhile
        (acquire_poll_lease "inv-1" "poller-1" 30 "token-1" 10 (run opened new_store)).1 in
    acquire_poll_lease "inv-1" "poller-3" 60 "token-3" 35 t ≡ (none, t)
poll_lease_excludes_example =
    poll_lease_excludes "inv-1" "poller-1" "token-1" "poller-3" "token-3" 30 60 10 35 meanwhile
      (run opened new_store) lease_taken (inr (omega arith), (tt, tt)) (omega arith)
