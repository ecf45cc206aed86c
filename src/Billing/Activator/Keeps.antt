-- ===== src/Billing/Activator/Keeps.antt =====
-- What the store keeps when an invoice is staged and when a delivery is completed, it keeps when an
-- invoice is credited, whatever the control plane answers.
use casper_vpn.Base.{String, Time, Duration, Bool, true, false, Option, none, some}
use casper_vpn.Billing.Model.{Invoice, BillingDelivery, Result, ok, err}
use casper_vpn.Billing.Store.State.{Store}
use casper_vpn.Billing.Store.Credits.{stage_invoice_credit, complete_billing_delivery}
use casper_vpn.Billing.Environment.{Environment, World}
use casper_vpn.Billing.Activator.{
  Catalog, Plan, state_of, catalog_get, deliver, credit_invoice, finish_delivery, deliver_staged,
  credit_subscription, credit_plan,
}

module _ {κ} (env : Environment) (P : Store → Type κ)
    (complete : (k : String) (now : Time) (s : Store)
      → P s
      → P (complete_billing_delivery k now s).1) where
  finish_keeps :
      (d : BillingDelivery) (r : Bool × env.State) (s : Store)
      → P s
      → P (finish_delivery env d r s).1.store
  finish_keeps d (false, o) s h = h
  finish_keeps d (true, o) s h = complete d.id (env.clock o) s h

  pub deliver_keeps :
      (d : BillingDelivery) (w : World env) → P w.store → P (deliver env d w).1.store
  unfolding deliver
  deliver_keeps d w h =
      finish_keeps d (env.set_billing_state d.sub_id (state_of d) w.outside) w.store h

  staged_keeps :
      (r : Result BillingDelivery × Store) (o : env.State)
      → P r.1
      → P (deliver_staged env r o).1.store
  staged_keeps (ok d, s) o h = deliver_keeps d (record { store = s; outside = o }) h
  staged_keeps (err e, s) o h = h

  module _
      (stage : (i sub user : String) (now : Time) (dur grace : Duration) (s : Store)
        → P s
        → P (stage_invoice_credit i sub user now dur grace s).1) where
    subscription_keeps :
        (inv : Invoice) (p : Plan) (r : Option String × env.State) (s : Store)
        → P s
        → P (credit_subscription env inv p r s).1.store
    subscription_keeps inv p (none, o) s h = h
    subscription_keeps inv p (some sub, o) s h =
        staged_keeps
          (stage_invoice_credit inv.id sub inv.anon_user_id (env.clock o) p.duration p.grace s) o
          (stage inv.id sub inv.anon_user_id (env.clock o) p.duration p.grace s h)

    plan_keeps :
        (o : Option Plan) (inv : Invoice) (w : World env)
        → P w.store
        → P (credit_plan env o inv w).1.store
    plan_keeps none inv w h = h
    plan_keeps (some p) inv w h =
        subscription_keeps inv p (env.ensure_subscription inv.anon_user_id inv.plan w.outside)
          w.store h

    pub credit_invoice_keeps :
        (catalog : Catalog) (inv : Invoice) (w : World env)
        → P w.store
        → P (credit_invoice env catalog inv w).1.store
    unfolding credit_invoice
    credit_invoice_keeps catalog inv w h = plan_keeps (catalog_get inv.plan catalog) inv w h
