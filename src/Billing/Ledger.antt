-- ===== src/Billing/Ledger.antt =====
-- The abstract specification of billing's credit ledger, with the maps of the store seen as
-- functions, and the moves that it allows: credit an invoice once, stage a status transition, stamp
-- a delivery as done, and write a schedule without lowering its revision. `Ledger/Refinement` shows
-- that every call of the store is such a move or leaves the ledger alone.
pub mod Refinement
pub mod Keys
pub mod Safety
pub mod Runs
pub mod Final
use casper_vpn.Base.{
  String, ℕ, Time, Duration, Bool, Option, none, some, ◌≡◌, ◌≢◌, ◌+◌, ◌≤◌, ◌==◌, if◌then◌else◌,
}
use casper_vpn.Map.{lookup}
use casper_vpn.Billing.Model.{Schedule, BillingDelivery, SubStatus}
use casper_vpn.Billing.Store.State.{Store}
use casper_vpn.Billing.Store.Credits.{
  invoice_delivery_id, schedule_delivery_id, extend_from, next_revision, schedule_of, transition_of,
}

pub record Ledger : Type 0 where
  pub schedule : String → Option Schedule
  pub delivery : String → Option BillingDelivery
  pub staged : String → Option String

-- What the store's maps say.
abbrev pub view : Store → Ledger
view s = record {
  schedule = λ k. lookup k s.schedules;
  delivery = λ k. lookup k s.deliveries;
  staged = λ k. lookup k s.invoice_deliveries;
}

abbrev pub update : {V : Type 0} → (String → Option V) → String → V → String → Option V
update f k v j = if k == j then some v else f j

abbrev pub revision_of : Option Schedule → ℕ
revision_of none = 0
revision_of (some sched) = sched.revision

abbrev pub credited : Ledger → BillingDelivery → Ledger
credited l d = record {
  schedule = update l.schedule d.sub_id (schedule_of d);
  delivery = update l.delivery d.id d;
  staged = update l.staged d.invoice_id d.id;
}

abbrev pub moved_on : Ledger → BillingDelivery → Schedule → Ledger
moved_on l d sched = record l {
  schedule = update l.schedule d.sub_id (record sched { revision = d.revision; status = d.status });
  delivery = update l.delivery d.id d;
}

-- A credit fixes its target when it is staged.
pub record IsCredit (l : Ledger) (d : BillingDelivery) (duration : Duration) : Type 0 where
  pub fresh : l.staged d.invoice_id ≡ none
  pub named : d.id ≡ invoice_delivery_id d.invoice_id
  pub next : d.revision ≡ next_revision (l.schedule d.sub_id)
  pub extends : d.expires_at ≡ extend_from d.created_at (l.schedule d.sub_id) + duration
  pub open_ended : d.delivered_at ≡ 0

pub data Move (l m : Ledger) : Type 0 where
  stay : m ≡ l → Move l m
  credit :
      (d : BillingDelivery) (duration : Duration)
      → IsCredit l d duration
      → m ≡ credited l d
      → Move l m
  transition :
      (sched : Schedule) (sub_id : String) (status : SubStatus) (now : Time)
      → l.schedule sub_id ≡ some sched
      → m ≡ moved_on l (transition_of sched sub_id status now) sched
      → Move l m
  stamp :
      (k : String) (d : BillingDelivery) (now : Time)
      → l.delivery k ≡ some d
      → m ≡ record l { delivery = update l.delivery k (record d { delivered_at = now }) }
      → Move l m
  write :
      (k : String) (sched : Schedule)
      → revision_of (l.schedule k) ≤ sched.revision
      → m ≡ record l { schedule = update l.schedule k sched }
      → Move l m
