-- ===== src/ControlPlane/Service/Subscriptions/Ensure.antt =====
-- A user has one subscription, however often it is asked for.
use casper_vpn.Base.{
  String, Bool, true, none, some, ◌≡◌, ◌≢◌, refl, ap, subst, ◌∙◌, inl, inr, Bool-cases,
  Option-cases,
}
use casper_vpn.Map.{lookup, lookup-insert_self}
use casper_vpn.ControlPlane.Contracts.{
  User, Subscription, valid_plan, valid_subscription, unset, conflict, Result, ok, err,
}
use casper_vpn.ControlPlane.Action.{next, ◌>>=◌, ◌>>◌}
use casper_vpn.ControlPlane.Store.State.{SubscriptionWithToken, apply_plan_limits}
use casper_vpn.ControlPlane.Store.Users.{get_user}
use casper_vpn.ControlPlane.Store.Subscriptions.{get_subscription, create_and_link}
use casper_vpn.ControlPlane.Service.Environment.{Environment, World, draw-cases}
use casper_vpn.ControlPlane.Service.Subscriptions.{
  without_token, fresh, create, get, or_linked, ensure,
}

module _ (env : Environment) where
  open env use {uuid, token, clock}

  -- The subscription of a user that has one is returned, and nothing changes.
  ensure-linked :
      (user plan id : String) (u : User) (sub : Subscription) (w : World env)
      → valid_plan plan ≡ true
      → lookup user w.store.users ≡ some u
      → u.subscription_id ≡ some id
      → lookup id w.store.subs ≡ some sub
      → ensure env user plan w ≡ (ok (without_token sub), w)
  unfolding ensure get get_user get_subscription ◌>>=◌ ◌>>◌
  ensure-linked user plan id u sub w v e l k = rw (v, e) (rw l (rw k refl))

  -- What a creation that succeeded has left.
  record Created (user : String) (sub : Subscription) (w' : World env) : Type 0 where
    pub owner : User
    pub stored_owner : lookup user w'.store.users ≡ some owner
    pub linked : owner.subscription_id ≡ some sub.id
    pub stored : lookup sub.id w'.store.subs ≡ some (without_token sub)

  create-Created :
      (user plan : String) (inactive : Bool) (w w' : World env) (r : SubscriptionWithToken)
      → create env user plan inactive w ≡ (ok r, w')
      → Created user r.subscription w'
  unfolding create get_user create_and_link ◌>>=◌ ◌>>◌
  create-Created user plan inactive w w' r h = elim (Bool-cases (valid_plan plan)) [
    | inr v ↦ absurd (cc (rw v at h))
    | inl v ↦ elim (Option-cases (lookup user w.store.users)) [
      | inl e ↦ absurd (cc (rw (v, e) at h))
      | inr (u, e) ↦ elim (draw-cases (uuid w.outside)) [
        | inl (o, d) ↦ absurd (cc (rw (v, e, d) at h))
        | inr (id, o1, d1) ↦ elim (draw-cases (token o1)) [
          | inl (o, d) ↦ absurd (cc (rw (v, e, d1, d) at h))
          | inr (secret, o2, d2) ↦
              let sub =
                apply_plan_limits plan (fresh env id user plan secret inactive (clock o2).0) in
              elim (Bool-cases (valid_subscription sub)) [
                | inr x ↦ absurd (cc (rw (v, e, d1, d2, x) at h))
                | inl x ↦ elim (Bool-cases (unset u.subscription_id)) [
                  | inr y ↦ absurd (cc (rw (v, e, d1, d2, x, e, y) at h))
                  | inl y ↦
                      let p = rw (v, e, d1, d2, x, e, y) at h in
                      let made : SubscriptionWithToken = record {
                        subscription = sub;
                        plain_token = secret;
                      } in
                      let same : made ≡ r = cc p in
                      subst (λ z. Created user z.subscription w') same
                        (subst (λ z. Created user sub z) (ap (λ q. q.1) p)
                          (record {
                            owner = record u {
                              subscription_id = some sub.id;
                              updated_at = sub.updated_at;
                            };
                            stored_owner = lookup-insert_self user _ w.store.users;
                            linked = refl;
                            stored = lookup-insert_self sub.id _ w.store.subs;
                          }))
                ]
              ]
        ]
      ]
    ]
  ]

  -- A linked subscription that was read is what the next call returns.
  read_again :
      (user plan id : String) (u : User) (sub : Subscription) (w w' : World env)
      → valid_plan plan ≡ true
      → lookup user w.store.users ≡ some u
      → u.subscription_id ≡ some id
      → get env id w ≡ (ok sub, w')
      → ensure env user plan w' ≡ (ok sub, w')
  unfolding get get_subscription ◌>>=◌
  read_again user plan id u sub w w' v e l h = elim (Option-cases (lookup id w.store.subs)) [
    | inl k ↦ absurd (cc (rw k at h))
    | inr (x, k) ↦
        let p = rw k at h in
        let same : without_token x ≡ sub = cc p in
        subst (λ z. ensure env user plan z ≡ (ok sub, z)) (ap (λ q. q.1) p)
          (ensure-linked user plan id u x w v e l k ∙ ap (λ y. (ok y, w)) same)
  ]

  -- For a user without a subscription, a creation never ends in a conflict.
  create-conflict_free :
      (user plan : String) (inactive : Bool) (u : User) (w w' : World env)
      → lookup user w.store.users ≡ some u
      → u.subscription_id ≡ none
      → create env user plan inactive w ≢ (err conflict, w')
  unfolding create get_user create_and_link ◌>>=◌ ◌>>◌
  create-conflict_free user plan inactive u w w' e l h = elim (Bool-cases (valid_plan plan)) [
    | inr v ↦ cc (rw v at h)
    | inl v ↦ elim (draw-cases (uuid w.outside)) [
      | inl (o, d) ↦ cc (rw (v, e, d) at h)
      | inr (id, o1, d1) ↦ elim (draw-cases (token o1)) [
        | inl (o, d) ↦ cc (rw (v, e, d1, d) at h)
        | inr (secret, o2, d2) ↦
            let sub =
              apply_plan_limits plan (fresh env id user plan secret inactive (clock o2).0) in
            elim (Bool-cases (valid_subscription sub)) [
              | inr x ↦ cc (rw (v, e, d1, d2, x) at h)
              | inl x ↦ cc (rw (v, e, d1, d2, x, e, l) at h)
            ]
      ]
    ]
  ]

  ensure_created :
      (user plan : String) (u : User) (sub : Subscription) (w w' : World env)
      → valid_plan plan ≡ true
      → lookup user w.store.users ≡ some u
      → u.subscription_id ≡ none
      → (o : Result SubscriptionWithToken × World env) → create env user plan true w ≡ o
      → next (or_linked env user) (ok o.0, o.1) ≡ (ok sub, w')
      → ensure env user plan w' ≡ (ok sub, w')
  unfolding ◌>>=◌ get_user get get_subscription
  ensure_created user plan u sub w w' v e l (ok r, w1) c h =
      let made = create-Created user plan true w w1 r c in
      let same : without_token r.subscription ≡ sub = cc h in
      subst (λ z. ensure env user plan z ≡ (ok sub, z)) (ap (λ q. q.1) h)
        (ensure-linked user plan r.subscription.id made.owner (without_token r.subscription) w1 v
            made.stored_owner made.linked made.stored
          ∙ ap (λ x. (ok x, w1)) same)
  ensure_created user plan u sub w w' v e l (err conflict, w1) c h =
      absurd (create-conflict_free user plan true u w w1 e l c)
  ensure_created user plan u sub w w' v e l (err _, w1) c h = absurd (cc h)

  -- `Ensure` is idempotent: when it has returned a subscription, another call with the same arguments
  -- returns the same one and changes nothing.
  pub ensure_again :
      (user plan : String) (sub : Subscription) (w w' : World env)
      → ensure env user plan w ≡ (ok sub, w')
      → ensure env user plan w' ≡ (ok sub, w')
  unfolding ensure get_user ◌>>=◌ ◌>>◌ get get_subscription
  ensure_again user plan sub w w' h = elim (Bool-cases (valid_plan plan)) [
    | inr v ↦ absurd (cc (rw v at h))
    | inl v ↦ elim (Option-cases (lookup user w.store.users)) [
      | inl e ↦ absurd (cc (rw (v, e) at h))
      | inr (u, e) ↦ elim (Option-cases u.subscription_id) [
        | inl l ↦
            ensure_created user plan u sub w w' v e l (create env user plan true w) refl
              (rw (v, e, l) at h)
        | inr (id, l) ↦ read_again user plan id u sub w w' v e l (rw (v, e, l) at h)
      ]
    ]
  ]
