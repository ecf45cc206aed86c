-- ===== src/Billing/Expiry.antt =====
-- services/billing/internal/expiry/sweeper.go: subscriptions whose paid time has run out are moved to
-- past-due, and after the grace period to expired.
use casper_vpn.Base.{Time, not, Option, none, some, List, [], ◌∷◌, before, if◌then◌else◌}
use casper_vpn.Billing.Model.{
  SubStatus, past_due, lapsed, same_sub_status, Schedule, BillingDelivery, Result, ok, err,
}
use casper_vpn.Billing.Store.State.{Store}
use casper_vpn.Billing.Store.Credits.{get_schedule, due_schedules, stage_schedule_transition}
use casper_vpn.Billing.Environment.{Environment, World}
use casper_vpn.Billing.Activator.{deliver}

-- `transition`; `none` is the empty text.
unfoldable pub transition : Schedule → Time → Option SubStatus
transition s now =
    if not (before now s.grace_until)
    then some lapsed
    else if not (before now s.expires_at)
    then some past_due
    else none

-- `next == "" || next == sched.Status` leaves the schedule alone.
abbrev pub new_status : Option SubStatus → SubStatus → Option SubStatus
new_status none current = none
new_status (some next) current = if same_sub_status next current then none else some next

module _ (env : Environment) where
  -- The control plane is told, and the outbox row completed, as in the activator's `Deliver`.
  abbrev pub send_staged : Result (Option BillingDelivery) × Store → World env → World env
  send_staged (err e, s) w = record w { store = s }
  send_staged (ok none, s) w = record w { store = s }
  send_staged (ok (some d), s) w = (deliver env d (record w { store = s })).1

  abbrev pub move_schedule : Option SubStatus → Schedule → Time → World env → World env
  move_schedule none sched now w = w
  move_schedule (some next) sched now w =
      send_staged (stage_schedule_transition sched.sub_id sched.revision next now w.store) w

  -- The schedule is read again: a renewal may have advanced it since the list was made.
  abbrev pub sweep_found : Result Schedule → Time → World env → World env
  sweep_found (err e) now w = w
  sweep_found (ok sched) now w =
      move_schedule (new_status (transition sched now) sched.status) sched now w

  unfoldable pub sweep_all : List Schedule → Time → World env → World env
  sweep_all [] now w = w
  sweep_all (s ∷ rest) now w =
      sweep_all rest now (sweep_found (get_schedule s.sub_id w.store) now w)

  -- `RunOnce`, with a control plane that has the billing-state API.
  unfoldable pub sweep : World env → World env
  unfolding sweep_all
  sweep w = let now = env.clock w.outside in sweep_all (due_schedules now w.store) now w
