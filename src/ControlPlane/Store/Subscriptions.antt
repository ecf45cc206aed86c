-- ===== src/ControlPlane/Store/Subscriptions.antt =====
-- adapters/memory/memory.go and launch.go, `Subscriptions`. `now` is what the clock returns in the
-- call, and `digest` the hash of a billing state. The token's prefix, which the stores drop, is left
-- out.
pub mod BillingStates
pub mod Links
use casper_vpn.Base.{
  String, ℕ, Time, Bool, true, false, not, Option, none, some, List, [], ◌∷◌, ◌&&◌, ◌||◌, ◌==◌,
  nat_eq, ltb, if◌then◌else◌, is_some,
}
use casper_vpn.Map.{Map, lookup, insert, remove, entries}
use casper_vpn.Billing.Model.{canceled, same_sub_status}
use casper_vpn.Billing.Environment.{BillingState}
use casper_vpn.ControlPlane.Contracts.{
  User, user_active, Subscription, unset, points_to, Error, conflict, not_found, Result, ok, err,
  or_not_found,
}
use casper_vpn.ControlPlane.Action.{Action}
use casper_vpn.ControlPlane.Store.State.{
  State, DeliveryToken, SubscriptionTokenBinding, apply_plan_limits, billing_fingerprint,
}

-- What the stores keep of a new subscription: no token in the clear.
abbrev put_subscription : Subscription → String → State → State
put_subscription sub hash s = record s {
  subs = insert sub.id (record sub { token = "" }) s.subs;
  hashes = insert sub.id hash s.hashes;
}

abbrev link_new : Option User → Subscription → String → String → State → Result (Unit {0}) × State
link_new none sub hash user s = (err not_found, s)
link_new (some u) sub hash user s =
    if not (unset u.subscription_id)
    then (err conflict, s)
    else let s' = put_subscription sub hash s in
      (
        ok tt,
        record s' {
          users =
              insert user (record u { subscription_id = some sub.id; updated_at = sub.updated_at })
                s'.users;
        },
      )

unfoldable pub create_and_link : Subscription → String → String → Action State (Unit {0})
create_and_link sub hash user s = link_new (lookup user s.users) sub hash user s

unfoldable pub create_subscription : Subscription → String → Action State (Unit {0})
create_subscription sub hash s = (ok tt, put_subscription sub hash s)

unfoldable pub get_subscription : String → Action State Subscription
get_subscription id s = (or_not_found (lookup id s.subs), s)

abbrev replace_unbilled : Option Subscription → Subscription → State → Result (Unit {0}) × State
replace_unbilled none sub s = (err not_found, s)
replace_unbilled (some old) sub s =
    if ltb 0 old.billing_revision
    then (err conflict, s)
    else (ok tt, record s { subs = insert sub.id (record sub { token = "" }) s.subs })

unfoldable pub update_subscription : Subscription → Action State (Unit {0})
update_subscription sub s = replace_unbilled (lookup sub.id s.subs) sub s

unfoldable pub update_token_hash : String → String → Action State (Unit {0})
update_token_hash id hash s =
    if not (is_some (lookup id s.subs))
    then (err not_found, s)
    else (ok tt, record s { hashes = insert id hash s.hashes; delivery = remove id s.delivery })

-- `t == nil || !state.Equal(*t)`, negated.
abbrev same_time : Option Time → Time → Bool
same_time none t = false
same_time (some u) t = nat_eq t u

-- `fingerprint := billingHashes[id]`, where a missing key reads as "".
abbrev pub text_or_blank : Option String → String
text_or_blank none = ""
text_or_blank (some t) = t

-- The state of the revision that the subscription has is not the one that was applied.
unfoldable pub differs : String → String → BillingState → Subscription → Bool
differs fingerprint incoming state s =
    if not (fingerprint == "")
    then not (fingerprint == incoming)
    else not (state.plan == "") && not (s.plan == state.plan)
      || not (same_sub_status state.status s.status)
      || not (same_time s.expires_at state.expires_at)
      || not (same_time s.grace_until state.grace_until)

-- The subscription after a newer state.
unfoldable pub advance : Time → BillingState → Subscription → Subscription
advance now state s =
    let limited = if not (state.plan == "") then apply_plan_limits state.plan s else s in
    record limited {
      billing_revision = state.revision;
      status = state.status;
      expires_at = some state.expires_at;
      grace_until = some state.grace_until;
      updated_at = now;
    }

abbrev apply_to :
    (BillingState → String)
    → Time
    → String
    → BillingState
    → Option Subscription
    → State
    → Result Subscription × State
apply_to digest now id state none s = (err not_found, s)
apply_to digest now id state (some sub) s =
    let incoming = billing_fingerprint digest state sub.plan in
    if nat_eq state.revision sub.billing_revision
      && differs (text_or_blank (lookup id s.billing_hashes)) incoming state sub
    then (err conflict, s)
    else if ltb sub.billing_revision state.revision
    then (
      ok (advance now state sub),
      record s {
        subs = insert id (advance now state sub) s.subs;
        billing_hashes = insert id incoming s.billing_hashes;
      },
    )
    else (ok sub, s)

unfoldable pub apply_billing_state :
    (BillingState → String) → Time → String → BillingState → Action State Subscription
unfolding billing_fingerprint differs advance apply_plan_limits
apply_billing_state digest now id state s = apply_to digest now id state (lookup id s.subs) s

abbrev keep_or_put :
    Option DeliveryToken → String → DeliveryToken → State → Result DeliveryToken × State
keep_or_put (some d) id candidate s = (ok d, s)
keep_or_put none id candidate s =
    (ok candidate, record s { delivery = insert id candidate s.delivery })

unfoldable pub ensure_delivery_token : String → DeliveryToken → Action State DeliveryToken
ensure_delivery_token id candidate s =
    if not (is_some (lookup id s.subs))
    then (err not_found, s)
    else keep_or_put (lookup id s.delivery) id candidate s

-- `r.delivery[id].Hash`
abbrev pub delivery_hash : Option DeliveryToken → String
delivery_hash none = ""
delivery_hash (some d) = d.hash

-- The user of the subscription is active and points back at it.
abbrev pub bound_to : Option User → String → Bool
bound_to none id = false
bound_to (some u) id = user_active u.status && points_to u.subscription_id id

abbrev pub token_matches : String → String → State → Bool
token_matches hash id s =
    text_or_blank (lookup id s.hashes) == hash || delivery_hash (lookup id s.delivery) == hash

unfoldable pub find_binding :
    String → State → List (String × Subscription) → Option SubscriptionTokenBinding
find_binding hash s [] = none
find_binding hash s ((id, sub) ∷ rest) =
    let later = find_binding hash s rest in
    if token_matches hash id s && bound_to (lookup sub.user_id s.users) id
    then some (record { user_id = sub.user_id; subscription_id = id })
    else later

unfoldable pub resolve_token_hash : String → Action State SubscriptionTokenBinding
unfolding find_binding entries
resolve_token_hash hash s = (or_not_found (find_binding hash s (entries s.subs)), s)

abbrev cancel_in : Option Subscription → Time → String → State → Result Subscription × State
cancel_in none now id s = (err not_found, s)
cancel_in (some sub) now id s =
    let sub' = record sub { status = canceled; updated_at = now } in
    (ok sub', record s { subs = insert id sub' s.subs })

unfoldable pub cancel_subscription : Time → String → Action State Subscription
cancel_subscription now id s = cancel_in (lookup id s.subs) now id s
