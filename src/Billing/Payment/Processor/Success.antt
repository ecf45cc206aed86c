-- ===== src/Billing/Payment/Processor/Success.antt =====
-- A clean event whose credit the control plane accepts is credited in full.
use casper_vpn.Base.{
  String, Time, Duration, true, false, Option, none, some, ◌≡◌, ◌≢◌, refl, sym, inl, inr, ◌==◌,
  Bool-cases, is_some, eq_iff, eq_refl, is_zero, subst, ℕ, ◌+◌, max, arith,
}
use casper_vpn.Map.{Map, lookup, insert, remove, lookup-insert_self}
use casper_vpn.Billing.Model.{settled, active, Schedule, Invoice, Event, ok, BillingDelivery}
use casper_vpn.Billing.Store.State.{Store, Settlement}
use casper_vpn.Billing.Store.Invoices.{record_event, seen_event, event_key}
use casper_vpn.Billing.Store.Settlements.{claim_settlement}
use casper_vpn.Billing.Store.Credits.{
  lease_key, extend_from, next_revision, invoice_delivery_id, credit_of, schedule_of,
  stage_invoice_credit, complete_billing_delivery, put_credit,
}
use casper_vpn.Billing.Environment.{Environment, World}
use casper_vpn.Billing.Money.{Rat}
use casper_vpn.Billing.Activator.{Catalog, Plan, state_of, catalog_get, deliver, credit_invoice}
use casper_vpn.Billing.Payment.Processor.{process}
use casper_vpn.Billing.Payment.Processor.Outcome.{IsClean, claimed, process_clean}

is_empty_false : (s : String) → s ≢ "" → (s == "") ≡ false
is_empty_false s h = elim (Bool-cases (s == "")) [
  | inl e ↦ absurd (h ((eq_iff s "").0 e))
  | inr e ↦ e
]

recorded :
    (p e : String) (m : Map (Unit {0}))
    → is_some (lookup (event_key p e) (insert (event_key p e) tt m)) ≡ true
recorded p e m = rw (lookup-insert_self (event_key p e) tt m) refl

-- Staging a new credit.
stage_fresh :
    (inv : Invoice) (sub : String) (now : Time) (dur grace : Duration) (s : Store)
    → lookup inv.id s.invoice_deliveries ≡ none
    → lookup inv.id s.invoices ≡ some inv
    → let d = credit_of inv inv.id sub inv.anon_user_id now dur grace (lookup sub s.schedules) in
      stage_invoice_credit inv.id sub inv.anon_user_id now dur grace s ≡ (ok d, put_credit d s)
unfolding stage_invoice_credit
stage_fresh inv sub now dur grace s e f = rw (e, f, eq_refl inv.anon_user_id) refl

-- The store after a delivery for an invoice is completed.
abbrev completed : BillingDelivery → Invoice → Time → Store → Store
completed d inv now s = record s {
  deliveries = insert d.id (record d { delivered_at = now }) s.deliveries;
  invoices = insert d.invoice_id (record inv { status = settled }) s.invoices;
  settled = remove (lease_key d.id) s.settled;
}

complete_fresh :
    (d : BillingDelivery) (inv : Invoice) (now : Time) (s : Store)
    → lookup d.id s.deliveries ≡ some d
    → is_zero d.delivered_at ≡ true
    → d.invoice_id ≢ ""
    → lookup d.invoice_id s.invoices ≡ some inv
    → complete_billing_delivery d.id now s ≡ (ok tt, completed d inv now s)
unfolding complete_billing_delivery
complete_fresh d inv now s e f g h = rw (e, f, is_empty_false d.invoice_id g, h) refl

-- The end of the time that was paid for before, and the revision that came before.
abbrev pub paid_until : Option Schedule → Time
paid_until none = 0
paid_until (some sched) = sched.expires_at

abbrev pub last_revision : Option Schedule → ℕ
last_revision none = 0
last_revision (some sched) = sched.revision

extend_from-max : (now : Time) (o : Option Schedule) → max now (paid_until o) ≡ extend_from now o
extend_from-max now none = omega arith
extend_from-max now (some sched) = ground arith

next_revision_suc : (o : Option Schedule) → last_revision o + 1 ≡ next_revision o
next_revision_suc none = refl
next_revision_suc (some sched) = refl

module _ (env : Environment) (set_string : String → Option Rat) (catalog : Catalog) where
  module _ (w : World env) (inv : Invoice) (p : Plan) (sub : String) (o₁ o₂ : env.State)
      (known : lookup inv.id w.store.invoices ≡ some inv)
      (unclaimed : lookup inv.id w.store.settled ≡ none)
      (unstaged : lookup inv.id w.store.invoice_deliveries ≡ none) (named : inv.id ≢ "")
      (offered : catalog_get inv.plan catalog ≡ some p)
      (ensured : env.ensure_subscription inv.anon_user_id inv.plan w.outside ≡ (some sub, o₁)) where
    -- The credit: from the later of now and the paid-up time, for the plan's duration.
    abbrev pub due_credit : BillingDelivery
    due_credit =
        credit_of inv inv.id sub inv.anon_user_id (env.clock o₁) p.duration p.grace
          (lookup sub w.store.schedules)

    abbrev claimed_store : Store
    claimed_store =
        let row : Settlement = record {
          claimed_at = env.clock w.outside;
          activated_at = 0;
          leased_until = 0;
        } in
        record w.store { settled = insert inv.id row w.store.settled }

    module _ (sent : env.set_billing_state sub (state_of due_credit) o₁ ≡ (true, o₂)) where
      credit_accepted : credit_invoice env catalog inv (claimed env set_string catalog inv w) ≡ (
        ok tt,
        record {
          store = completed due_credit inv (env.clock o₂) (put_credit due_credit claimed_store);
          outside = o₂;
        },
      )
      unfolding credit_invoice claim_settlement deliver
      credit_accepted =
          let s = claimed_store in
          let staged = put_credit due_credit s in
          let d = due_credit in
          rw
            (
              unclaimed,
              offered,
              ensured,
              stage_fresh inv sub (env.clock o₁) p.duration p.grace s unstaged known,
              sent,
              complete_fresh d inv (env.clock o₂) staged (lookup-insert_self d.id d s.deliveries)
                  refl named known,
            )
            refl

  -- What a clean event whose credit is accepted leaves, in the code's own terms.
  process_credits_as :
      (window : Duration) (ev : Event) (w : World env) (inv : Invoice) (p : Plan) (sub : String)
      (o₁ o₂ : env.State)
      → IsClean env set_string catalog window ev w inv
      → inv.id ≡ ev.invoice_id
      → inv.id ≢ ""
      → lookup inv.id w.store.invoice_deliveries ≡ none
      → catalog_get inv.plan catalog ≡ some p
      → env.ensure_subscription inv.anon_user_id inv.plan w.outside ≡ (some sub, o₁)
      → let d =
          credit_of inv inv.id sub inv.anon_user_id
            (env.clock o₁)
            p.duration
            p.grace
            (lookup sub w.store.schedules) in
        env.set_billing_state sub (state_of d) o₁ ≡ (true, o₂)
        → let (r, w') = process env set_string catalog window ev w in
          (r ≡ ok tt)
          × (lookup inv.id w'.store.invoices ≡ some (record inv { status = settled }))
          × (lookup sub w'.store.schedules ≡ some (schedule_of d))
          × (lookup d.id w'.store.deliveries ≡ some (record d { delivered_at = env.clock o₂ }))
          × (lookup inv.id w'.store.invoice_deliveries ≡ some d.id)
          × (seen_event ev.provider ev.external_id w'.store ≡ true)
          × (w'.outside ≡ o₂)
  unfolding record_event seen_event
  process_credits_as window ev w inv p sub o₁ o₂ clean stored named unstaged offered ensured sent =
      let known = subst (λ k. lookup k w.store.invoices ≡ some inv) (sym stored) clean.known in
      let d = due_credit w inv p sub o₁ o₂ known clean.unclaimed unstaged named offered ensured in
      let s = w.store in
      rw
        (
          process_clean env set_string catalog window ev w inv clean,
          credit_accepted w inv p sub o₁ o₂ known clean.unclaimed unstaged named offered ensured
              sent,
        )
        (
          refl,
          lookup-insert_self inv.id (record inv { status = settled }) s.invoices,
          lookup-insert_self sub (schedule_of d) s.schedules,
          lookup-insert_self d.id (record d { delivered_at = env.clock o₂ })
              (insert d.id d s.deliveries),
          lookup-insert_self inv.id d.id s.invoice_deliveries,
          recorded ev.provider ev.external_id s.events,
          refl,
        )

  -- Let an event be clean for an invoice that has an id, is stored under it, was not staged before and
  -- names a plan of the catalog; and let the control plane name a subscription and accept the state
  -- that is sent. That state is active, of the invoice's plan, has the revision after the schedule's
  -- (1 without a schedule), and ends the plan's duration after the later of now and the end of the paid
  -- time, with the plan's grace. Then `Process` succeeds; the invoice is settled; the schedule has just
  -- that state; the invoice has a delivery with that state, stamped as done; the event is recorded; and
  -- nothing else happened outside.
  pub process_credits :
      (window : Duration) (ev : Event) (w : World env) (inv : Invoice) (p : Plan) (sub : String)
      (o₁ o₂ : env.State)
      → IsClean env set_string catalog window ev w inv
      → inv.id ≡ ev.invoice_id
      → inv.id ≢ ""
      → lookup inv.id w.store.invoice_deliveries ≡ none
      → catalog_get inv.plan catalog ≡ some p
      → env.ensure_subscription inv.anon_user_id inv.plan w.outside ≡ (some sub, o₁)
      → let before = lookup sub w.store.schedules in
        let ends = max (env.clock o₁) (paid_until before) + p.duration in
        env.set_billing_state sub
            (record {
              plan = inv.plan;
              revision = last_revision before + 1;
              status = active;
              expires_at = ends;
              grace_until = ends + p.grace;
            })
            o₁
          ≡ (true, o₂)
        → let (r, w') = process env set_string catalog window ev w in
          (r ≡ ok tt)
          × (lookup inv.id w'.store.invoices ≡ some (record inv { status = settled }))
          × (lookup sub w'.store.schedules
              ≡ some (record {
                sub_id = sub;
                anon_user_id = inv.anon_user_id;
                revision = last_revision before + 1;
                plan = inv.plan;
                status = active;
                expires_at = ends;
                grace_until = ends + p.grace;
              }))
          × ((id : String) × (lookup inv.id w'.store.invoice_deliveries ≡ some id)
              × (lookup id w'.store.deliveries
                  ≡ some (record {
                    id = id;
                    invoice_id = inv.id;
                    sub_id = sub;
                    anon_user_id = inv.anon_user_id;
                    revision = last_revision before + 1;
                    plan = inv.plan;
                    status = active;
                    expires_at = ends;
                    grace_until = ends + p.grace;
                    created_at = env.clock o₁;
                    delivered_at = env.clock o₂;
                  })))
          × (seen_event ev.provider ev.external_id w'.store ≡ true)
          × (w'.outside ≡ o₂)
  process_credits window ev w inv p sub o₁ o₂ clean stored named unstaged offered ensured sent =
      let before = lookup sub w.store.schedules in
      let starts = extend_from-max (env.clock o₁) before in
      let counts = next_revision_suc before in
      let (ended, invoice, schedule, delivery, link, seen, quiet) =
        process_credits_as window ev w inv p sub o₁ o₂ clean stored named unstaged offered ensured
          (rw (starts, counts) at sent) in
      rw (starts, counts)
        (ended, invoice, schedule, (invoice_delivery_id inv.id, link, delivery), seen, quiet)
