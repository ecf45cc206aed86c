-- ===== src/ControlPlane/Store/Subscriptions/BillingStates.antt =====
-- Billing's states at the store, in any order and any number of times.
use casper_vpn.Base.{
  String, Time, Bool, true, false, some, List, [], ◌∷◌, ◌≡◌, refl, ap, ◌<◌, ◌≤◌, inl, inr, ◌⊎◌,
  ◌==◌, ltb, nat_eq, ◌&&◌, if◌then◌else◌, arith, Bool-cases, All, Memᴰ, subst,
}
use casper_vpn.Map.{lookup, lookup-insert_self}
use casper_vpn.Billing.Model.{canceled}
use casper_vpn.Billing.Environment.{BillingState}
use casper_vpn.ControlPlane.Contracts.{Subscription}
use casper_vpn.ControlPlane.Store.State.{State, billing_fingerprint, apply_plan_limits}
use casper_vpn.ControlPlane.Store.Subscriptions.{
  text_or_blank, differs, advance, apply_billing_state, cancel_subscription,
}

-- The subscription is entitled to what the state says.
pub record Grants (st : BillingState) (sub : Subscription) : Type 0 where
  pub revision : sub.billing_revision ≡ st.revision
  pub status : sub.status ≡ st.status
  pub expires_at : sub.expires_at ≡ some st.expires_at
  pub grace_until : sub.grace_until ≡ some st.grace_until
  pub plan : (st.plan == "") ≡ false → sub.plan ≡ st.plan

advance-Grants :
    (now : Time) (st : BillingState) (sub : Subscription) → Grants st (advance now st sub)
unfolding advance apply_plan_limits
advance-Grants now st sub = record {
  revision = refl;
  status = refl;
  expires_at = refl;
  grace_until = refl;
  plan = λ h. rw h (limited (st.plan == "basic") (st.plan == "unlimited"));
}
  where
    limited :
        (b c : Bool)
        → (if b
            then record sub {
              plan = st.plan;
              traffic_limit_bytes = 107374182400;
              speed_limit_mbps = 50;
              device_limit = 2;
            }
            else if c
            then record sub {
              plan = st.plan;
              traffic_limit_bytes = 0;
              speed_limit_mbps = 0;
              device_limit = 5;
            }
            else record sub { plan = st.plan }).plan
          ≡ st.plan
    limited true c = refl
    limited false true = refl
    limited false false = refl

module _ (digest : BillingState → String) (id : String) where
  -- The deliveries of states, each with the time at which it is handled; errors are dropped.
  unfoldable pub apply_all : List (Time × BillingState) → State → State
  unfolding apply_billing_state
  apply_all [] s = s
  apply_all ((now, st) ∷ rest) s = apply_all rest (apply_billing_state digest now id st s).1

  stale-idle :
      (now : Time) (st : BillingState) (s : State) (sub : Subscription)
      → lookup id s.subs ≡ some sub
      → st.revision ≤ sub.billing_revision
      → (apply_billing_state digest now id st s).1 ≡ s
  unfolding apply_billing_state
  stale-idle now st s sub h old =
      let older : ltb sub.billing_revision st.revision ≡ false = ground arith in
      rw (h, older)
        (elim (Bool-cases (
          nat_eq st.revision sub.billing_revision
          && differs (text_or_blank (lookup id s.billing_hashes))
              (billing_fingerprint digest st sub.plan) st sub)) [
                | inl e ↦ rw e refl
                | inr e ↦ rw e refl
              ])

  newer-advance :
      (now : Time) (st : BillingState) (s : State) (sub : Subscription)
      → lookup id s.subs ≡ some sub
      → sub.billing_revision < st.revision
      → lookup id (apply_billing_state digest now id st s).1.subs ≡ some (advance now st sub)
  unfolding apply_billing_state
  newer-advance now st s sub h new =
      let newer : ltb sub.billing_revision st.revision ≡ true = ground arith in
      let differ : nat_eq st.revision sub.billing_revision ≡ false = ground arith in
      rw (h, differ, newer) (lookup-insert_self id (advance now st sub) s.subs)

  -- The best state is still to come, or it is what the subscription has.
  abbrev Approaches : BillingState → State → Type 0
  Approaches best s =
      (sub : Subscription) × (lookup id s.subs ≡ some sub)
      × ((sub.billing_revision < best.revision) ⊎ Grants best sub)

  step-Approaches :
      (best : BillingState) (now : Time) (st : BillingState) (s : State)
      → (st.revision < best.revision) ⊎ (st ≡ best)
      → Approaches best s
      → Approaches best (apply_billing_state digest now id st s).1
  step-Approaches best now st s k (sub, h, a) =
      elim (Bool-cases (ltb sub.billing_revision st.revision)) [
        | inl e ↦ (advance now st sub, newer-advance now st s sub h (ground arith), arrives k)
        | inr e ↦ rw (stale-idle now st s sub h (ground arith)) (sub, h, a)
      ]
    where
      arrives :
          (st.revision < best.revision) ⊎ (st ≡ best)
          → ((advance now st sub).billing_revision < best.revision)
            ⊎ Grants best (advance now st sub)
      arrives (inl p) = inl (rw (Grants.revision (advance-Grants now st sub)) p)
      arrives (inr p) =
          inr (subst (λ x. Grants x (advance now st sub)) p (advance-Grants now st sub))

  reach :
      (best : BillingState) (states : List (Time × BillingState)) (s : State)
      → All (λ e. (e.1.revision < best.revision) ⊎ (e.1 ≡ best)) states
      → Approaches best s
      → Approaches best (apply_all states s)
  unfolding apply_all
  reach best [] s a h = h
  reach best ((now, st) ∷ rest) s a h = reach best rest _ a.1 (step-Approaches best now st s a.0 h)

  -- Once the best state was handled, the subscription has what it says.
  Reached : BillingState → State → Type 0
  Reached best s = (sub : Subscription) × (lookup id s.subs ≡ some sub) × Grants best sub

  arrive :
      (best : BillingState) (now : Time) (s : State)
      → Approaches best s
      → Reached best (apply_billing_state digest now id best s).1
  unfolding Reached
  arrive best now s (sub, h, inl new) =
      (advance now best sub, newer-advance now best s sub h new, advance-Grants now best sub)
  arrive best now s (sub, h, inr g) =
      rw (stale-idle now best s sub h (omega (arith, Grants.revision g))) (sub, h, g)

  stay :
      (best : BillingState) (states : List (Time × BillingState)) (s : State)
      → All (λ e. (e.1.revision < best.revision) ⊎ (e.1 ≡ best)) states
      → Reached best s
      → Reached best (apply_all states s)
  unfolding apply_all Reached
  stay best [] s a h = h
  stay best ((now, st) ∷ rest) s a (sub, h, g) =
      stay best rest _ a.1 (rw (stale-idle now st s sub h (not_newer a.0)) (sub, h, g))
    where
      not_newer : (st.revision < best.revision) ⊎ (st ≡ best) → st.revision ≤ sub.billing_revision
      not_newer (inl p) = omega (arith, Grants.revision g)
      not_newer (inr p) = omega (arith, Grants.revision g, ap BillingState.revision p)

  meets :
      (best : BillingState) (at : Time) (states : List (Time × BillingState)) (s : State)
      → All (λ e. (e.1.revision < best.revision) ⊎ (e.1 ≡ best)) states
      → Memᴰ (at, best) states
      → Approaches best s
      → Reached best (apply_all states s)
  unfolding apply_all
  meets best at [] s a m h = elim m [ ]
  meets best at ((now, st) ∷ rest) s a (Memᴰ.head e) h = stay best rest _ a.1 (
      subst (λ x. Reached best (apply_billing_state digest now id x s).1) (ap (λ p. p.1) e)
        (arrive best now s h))
  meets best at ((now, st) ∷ rest) s a (Memᴰ.tail m) h =
      meets best at rest _ a.1 m (step-Approaches best now st s a.0 h)

  -- Deliveries of billing states may come in any order and any number of times, and may be mixed with
  -- older ones: when one state has the highest revision, and no other state shares it, then after all
  -- deliveries the subscription has the revision, status, expiry and grace of that state, and its
  -- plan if it names one. It is assumed that the subscription exists, below that revision.
  pub newest_wins :
      (best : BillingState) (at : Time) (states : List (Time × BillingState)) (s : State)
      (sub : Subscription)
      → lookup id s.subs ≡ some sub
      → sub.billing_revision < best.revision
      → Memᴰ (at, best) states
      → All (λ e. (e.1.revision < best.revision) ⊎ (e.1 ≡ best)) states
      → (new : Subscription) × (lookup id (apply_all states s).subs ≡ some new) × Grants best new
  unfolding Reached
  newest_wins best at states s sub h below m a = meets best at states s a m (sub, h, inl below)

  stale-All :
      (states : List (Time × BillingState)) (s : State) (sub : Subscription)
      → lookup id s.subs ≡ some sub
      → All (λ e. e.1.revision ≤ sub.billing_revision) states
      → apply_all states s ≡ s
  unfolding apply_all
  stale-All [] s sub h a = refl
  stale-All ((now, st) ∷ rest) s sub h a =
      rw (stale-idle now st s sub h a.0) (stale-All rest s sub h a.1)

  -- A cancelled subscription stays as the cancellation left it, whatever billing states of its
  -- revision or of older ones are delivered afterwards, and so does the rest of the store.
  pub cancel_sticks :
      (now : Time) (states : List (Time × BillingState)) (s : State) (sub : Subscription)
      → lookup id s.subs ≡ some sub
      → All (λ e. e.1.revision ≤ sub.billing_revision) states
      → let left = (cancel_subscription now id s).1 in
        (apply_all states left ≡ left)
        × (lookup id left.subs ≡ some (record sub { status = canceled; updated_at = now }))
  unfolding cancel_subscription
  cancel_sticks now states s sub h a = rw h (
    stale-All states _ (record sub { status = canceled; updated_at = now })
        (lookup-insert_self id _ s.subs) a,
    lookup-insert_self id _ s.subs,
  )
