-- ===== src/Billing/Activator.antt =====
-- services/billing/internal/subscription/activator.go, the credit of a paid invoice, and the part of
-- plan/catalog.go that it reads. `WithUserLock` serialises whole activations of one user; here a
-- handler runs alone between the calls of the environment, and `Store/Calls` has the interleavings.
-- `Activate`, which no other code of the service calls, is left out.
pub mod Keeps
use casper_vpn.Base.{String, ℕ, Duration, Bool, true, false, Option, none, some}
use casper_vpn.Map.{Map, lookup}
use casper_vpn.Billing.Model.{
  Invoice, BillingDelivery, Error, Result, ok, err, unknown_plan, remote,
}
use casper_vpn.Billing.Store.State.{Store}
use casper_vpn.Billing.Store.Credits.{stage_invoice_credit, complete_billing_delivery}
use casper_vpn.Billing.Environment.{BillingState, Environment, World}

-- `plan.Plan`
pub record Plan : Type 0 where
  pub id : String
  pub duration : Duration
  pub grace : Duration
  pub prices : Map String
  pub traffic_limit_bytes : ℕ
  pub speed_limit_mbps : ℕ
  pub device_limit : ℕ

-- `plan.Catalog`, and its `Get`.
abbrev pub Catalog : Type 0
Catalog = Map Plan

unfoldable pub catalog_get : String → Catalog → Option Plan
catalog_get id c = lookup id c

-- The state that `Deliver` sends; revision and dates come from the saved delivery alone.
abbrev pub state_of : BillingDelivery → BillingState
state_of d = record {
  plan = d.plan;
  revision = d.revision;
  status = d.status;
  expires_at = d.expires_at;
  grace_until = d.grace_until;
}

module _ (env : Environment) where
  open env use {State, clock, ensure_subscription, set_billing_state}

  abbrev pub finish_delivery :
      BillingDelivery → Bool × State → Store → Result (Unit {0}) × World env
  finish_delivery d (false, o) s = (err remote, record { store = s; outside = o })
  finish_delivery d (true, o) s =
      let (r, s') = complete_billing_delivery d.id (clock o) s in
      (r, record { store = s'; outside = o })

  unfoldable pub deliver : BillingDelivery → World env → Result (Unit {0}) × World env
  deliver d w = finish_delivery d (set_billing_state d.sub_id (state_of d) w.outside) w.store

  abbrev pub deliver_staged : Result BillingDelivery × Store → State → Result (Unit {0}) × World env
  deliver_staged (ok d, s) o = deliver d (record { store = s; outside = o })
  deliver_staged (err e, s) o = (err e, record { store = s; outside = o })

  abbrev pub credit_subscription :
      Invoice → Plan → Option String × State → Store → Result (Unit {0}) × World env
  credit_subscription inv p (none, o) s = (err remote, record { store = s; outside = o })
  credit_subscription inv p (some sub, o) s =
      deliver_staged
        (stage_invoice_credit inv.id sub inv.anon_user_id (clock o) p.duration p.grace s) o

  abbrev pub credit_plan : Option Plan → Invoice → World env → Result (Unit {0}) × World env
  credit_plan none inv w = (err unknown_plan, w)
  credit_plan (some p) inv w =
      credit_subscription inv p (ensure_subscription inv.anon_user_id inv.plan w.outside) w.store

  unfoldable pub credit_invoice : Catalog → Invoice → World env → Result (Unit {0}) × World env
  unfolding deliver
  credit_invoice catalog inv w = credit_plan (catalog_get inv.plan catalog) inv w
