-- ===== src/ControlPlane/Service/Subscriptions.antt =====
-- usecase/subscriptions.go and launch.go: the entitlements.
pub mod Rotation
pub mod Ensure
use casper_vpn.Base.{
  String, ℕ, Bool, true, false, not, Option, none, some, ◌&&◌, ◌||◌, ◌==◌, ltb, nat_eq, is_some,
  if◌then◌else◌,
}
use casper_vpn.Billing.Model.{SubStatus}
use casper_vpn.Billing.Environment.{BillingState}
use casper_vpn.ControlPlane.Contracts.{
  User, user_active, Subscription, valid_plan, valid_subscription, access_until, SubscriptionPatch,
  valid_patch, patch_is_zero, valid_billing_state, servable, Error, conflict, validation, failure,
  Result, ok, err,
}
use casper_vpn.ControlPlane.Action.{Action, ◌>>=◌, ◌>>◌, done, fail, reject_if, returns, try}
use casper_vpn.ControlPlane.Store.State.{
  State, SubscriptionWithToken, DeliveryToken, SubscriptionTokenBinding, apply_plan_limits,
  truncate,
}
use casper_vpn.ControlPlane.Store.Users.{get_user}
use casper_vpn.ControlPlane.Store.Subscriptions.{
  create_and_link, get_subscription, update_subscription, update_token_hash, apply_billing_state,
  ensure_delivery_token, resolve_token_hash, cancel_subscription,
}
use casper_vpn.ControlPlane.Store.AllowList.{has_ended}
use casper_vpn.ControlPlane.Service.Environment.{
  Environment, World, in_store, now, draw, notify, change,
}

pub record DeliveryLink : Type 0 where
  pub token : String
  pub subscription_id : String

-- `existing.Token = ""`
abbrev pub without_token : Subscription → Subscription
without_token sub = record sub { token = "" }

abbrev pub patched : SubscriptionPatch → Subscription → Subscription
patched p sub = record sub {
  status = elim p.status [ none ↦ sub.status | some st ↦ st ];
  expires_at = if is_some p.expires_at then p.expires_at else sub.expires_at;
}

-- `patch.Status != nil && !servable(*patch.Status)`
abbrev pub ends_service : Option SubStatus → Bool
ends_service none = false
ends_service (some st) = not (servable st)

-- Go's zero value.
abbrev pub blank_subscription : Subscription
blank_subscription = record {
  id = "";
  user_id = "";
  plan = "";
  status = SubStatus.other "";
  token = "";
  traffic_limit_bytes = 0;
  speed_limit_mbps = 0;
  device_limit = 0;
  grace_until = none;
  billing_revision = 0;
  starts_at = 0;
  expires_at = none;
  created_at = 0;
  updated_at = 0;
}

module _ (env : Environment) where
  open env use {
    uuid, token, revoke_subscription, register_token, key_id, seal, unseal, hash_token, hex_length,
    billing_digest,
  }

  -- What `create` hands to the store; `inactive` is for an account that has not paid.
  abbrev pub fresh : String → String → String → String → Bool → ℕ → Subscription
  fresh id user plan secret inactive t = record {
    id = id;
    user_id = user;
    plan = plan;
    status = if inactive then SubStatus.lapsed else SubStatus.active;
    token = secret;
    traffic_limit_bytes = 0;
    speed_limit_mbps = 0;
    device_limit = 0;
    grace_until = none;
    billing_revision = 0;
    starts_at = t;
    expires_at = if inactive then some t else none;
    created_at = t;
    updated_at = t;
  }

  unfoldable pub create : String → String → Bool → Action (World env) SubscriptionWithToken
  unfolding get_user create_and_link apply_plan_limits valid_subscription
  create user plan inactive = do
    reject_if (not (valid_plan plan)) validation
    in_store env (get_user user)
    id ← draw env uuid
    secret ← draw env token
    t ← now env
    let sub = apply_plan_limits plan (fresh id user plan secret inactive t)
    reject_if (not (valid_subscription sub)) validation
    in_store env (create_and_link sub (hash_token secret) user)
    notify env (register_token secret user sub.id)
    done (record { subscription = sub; plain_token = secret })

  unfoldable pub get : String → Action (World env) Subscription
  unfolding get_subscription
  get id = in_store env (get_subscription id) >>= λ sub. done (without_token sub)

  abbrev pub patch_stored :
      String → SubscriptionPatch → Subscription → Action (World env) Subscription
  unfolding update_subscription
  patch_stored id p old = do
    t ← now env
    let sub = record (patched p old) { updated_at = t }
    in_store env (update_subscription sub)
    if ends_service p.status then notify env (revoke_subscription id) else done tt
    done (without_token sub)

  unfoldable pub patch : String → SubscriptionPatch → Action (World env) Subscription
  unfolding get_subscription update_subscription valid_patch patch_is_zero
  patch id p = do
    reject_if (not (valid_patch p)) validation
    old ← in_store env (get_subscription id)
    reject_if (ltb 0 old.billing_revision && not (patch_is_zero p)) conflict
    if patch_is_zero p then done (without_token old) else patch_stored id p old

  -- `Cancel`, with a store that is a `SubscriptionCanceler`, as both are.
  unfoldable pub cancel : String → Action (World env) Subscription
  unfolding cancel_subscription
  cancel id = do
    t ← now env
    sub ← in_store env (cancel_subscription t id)
    notify env (revoke_subscription id)
    done sub

  unfoldable pub rotate_token : String → Action (World env) SubscriptionWithToken
  unfolding get_subscription update_token_hash
  rotate_token id = do
    old ← in_store env (get_subscription id)
    secret ← draw env token
    in_store env (update_token_hash id (hash_token secret))
    t ← now env
    notify env (revoke_subscription id)
    notify env (register_token secret old.user_id id)
    done (record {
      subscription = record old { updated_at = t; token = secret };
      plain_token = secret;
    })

  -- The end of `Ensure` after a conflict: the subscription that won is read. If the user has none, the
  -- conflict is forgotten, since `users.Get` has overwritten `err`, and an empty one is returned.
  abbrev pub linked_or_blank : Option String → Action (World env) Subscription
  linked_or_blank (some id) = get id
  linked_or_blank none = done blank_subscription

  abbrev pub or_linked : String → Result SubscriptionWithToken → Action (World env) Subscription
  or_linked user (ok r) = done (without_token r.subscription)
  or_linked user (err conflict) =
      in_store env (get_user user) >>= λ u. linked_or_blank u.subscription_id
  or_linked user (err e) = fail e

  abbrev pub ensure_for : String → String → Option String → Action (World env) Subscription
  ensure_for user plan (some id) = get id
  ensure_for user plan none = try (create user plan true) >>= or_linked user

  unfoldable pub ensure : String → String → Action (World env) Subscription
  unfolding get create get_user
  ensure user plan = do
    reject_if (not (valid_plan plan)) validation
    u ← in_store env (get_user user)
    ensure_for user plan u.subscription_id

  abbrev pub truncated : BillingState → BillingState
  truncated st = record st {
    expires_at = truncate st.expires_at;
    grace_until = truncate st.grace_until;
  }

  unfoldable pub apply_billing : String → BillingState → Action (World env) Subscription
  unfolding valid_billing_state apply_billing_state
  apply_billing id st = do
    reject_if (not (valid_billing_state st)) validation
    t ← now env
    in_store env (apply_billing_state billing_digest t id (truncated st))

  abbrev unsealed : Option String → String → Action (World env) DeliveryLink
  unsealed none id = fail failure
  unsealed (some secret) id = done (record { token = secret; subscription_id = id })

  unfoldable pub delivery_link : String → Action (World env) DeliveryLink
  unfolding get get_user ensure_delivery_token access_until
  delivery_link id = do
    sub ← get id
    u ← in_store env (get_user sub.user_id)
    t ← now env
    reject_if
        (not (user_active u.status) || not (servable sub.status) || has_ended (access_until sub) t)
        conflict
    secret ← draw env token
    sealed ← draw env (seal id secret)
    saved ← in_store env (
        ensure_delivery_token id
          (record { hash = hash_token secret; ciphertext = sealed; key_id = key_id }))
    unsealed (unseal id saved.key_id saved.ciphertext) id

  abbrev is_digest : Option ℕ → Bool
  is_digest none = false
  is_digest (some n) = nat_eq n 32

  unfoldable pub resolve_token : String → Action (World env) SubscriptionTokenBinding
  unfolding resolve_token_hash
  resolve_token hash = do
    reject_if (not (is_digest (hex_length hash))) validation
    in_store env (resolve_token_hash hash)
