-- ===== src/ControlPlane/Store/Operator.antt =====
-- adapters/memory/operator.go: the summary of the private operator overview. The counts by status
-- are functions of the status here; Go's maps hold the same numbers.
use casper_vpn.Base.{
  String, ℕ, Time, Bool, true, false, Option, none, some, List, ◌==◌, nat_eq, after, if◌then◌else◌,
  map, count_if, sort_by, take,
}
use casper_vpn.Map.{Map, lookup, entries}
use casper_vpn.Billing.Model.{SubStatus, same_sub_status}
use casper_vpn.ControlPlane.Contracts.{UserStatus, User, Subscription}
use casper_vpn.ControlPlane.Store.State.{State}

pub record OperatorAccount : Type 0 where
  pub id : String
  pub status : UserStatus
  pub subscription_id : Option String
  pub plan : String
  pub subscription_status : SubStatus
  pub expires_at : Option Time
  pub grace_until : Option Time
  pub updated_at : Time

pub record OperatorSummary : Type 0 where
  pub users : UserStatus → ℕ
  pub subscriptions : SubStatus → ℕ
  pub recent : List OperatorAccount

abbrev pub same_user_status : UserStatus → UserStatus → Bool
same_user_status UserStatus.active UserStatus.active = true
same_user_status UserStatus.suspended UserStatus.suspended = true
same_user_status UserStatus.expired UserStatus.expired = true
same_user_status UserStatus.banned UserStatus.banned = true
same_user_status (UserStatus.other s) (UserStatus.other t) = s == t
same_user_status _ _ = false

abbrev bare : User → OperatorAccount
bare u = record {
  id = u.id;
  status = u.status;
  subscription_id = u.subscription_id;
  plan = "";
  subscription_status = SubStatus.other "";
  expires_at = none;
  grace_until = none;
  updated_at = u.updated_at;
}

abbrev with_subscription : User → Option Subscription → OperatorAccount
with_subscription u none = bare u
with_subscription u (some sub) =
    if sub.user_id == u.id
    then record (bare u) {
      plan = sub.plan;
      subscription_status = sub.status;
      expires_at = sub.expires_at;
      grace_until = sub.grace_until;
    }
    else bare u

unfoldable pub account_of : Map Subscription → User → OperatorAccount
account_of subs u = elim u.subscription_id [
  | none ↦ bare u
  | some id ↦ with_subscription u (lookup id subs)
]

-- `less` is Go's order on texts.
abbrev pub recent_first : (String → String → Bool) → OperatorAccount → OperatorAccount → Bool
recent_first less a b =
    if nat_eq a.updated_at b.updated_at then less b.id a.id else after a.updated_at b.updated_at

abbrev page_size : ℕ
page_size = 50

unfoldable pub read : (String → String → Bool) → State → OperatorSummary
unfolding account_of entries sort_by
read less s = record {
  users = λ status. count_if (λ e. same_user_status e.1.status status) (entries s.users);
  subscriptions = λ status. count_if (λ e. same_sub_status e.1.status status) (entries s.subs);
  recent =
      take page_size
        (sort_by (recent_first less) (map (λ e. account_of s.subs e.1) (entries s.users)));
}
