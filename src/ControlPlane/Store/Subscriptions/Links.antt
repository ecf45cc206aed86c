-- ===== src/ControlPlane/Store/Subscriptions/Links.antt =====
-- Which links resolve, and that a rotation ends the old ones.
use casper_vpn.Base.{
  String, Bool, true, false, Option, none, some, List, [], ◌∷◌, ◌≡◌, ◌≢◌, refl, ap, sym, subst, ◌∙◌,
  inl, inr, ◌==◌, ◌&&◌, ◌||◌, ◌⊎◌, Bool-cases, All, Memᴰ, eq_iff, eq_refl, is_some, some_path,
}
use casper_vpn.Map.{
  lookup, insert, remove, entries, lookup-insert, lookup-insert_self, lookup-remove, All-entries,
}
use casper_vpn.ControlPlane.Contracts.{
  User, UserStatus, user_active, points_to, Subscription, ok, or_not_found,
}
use casper_vpn.ControlPlane.Store.State.{State, DeliveryToken, SubscriptionTokenBinding}
use casper_vpn.ControlPlane.Store.Users.{mark_if, revoke_links}
use casper_vpn.ControlPlane.Store.Subscriptions.{
  text_or_blank, delivery_hash, find_binding, token_matches, bound_to, resolve_token_hash,
  update_token_hash,
}

-- What stands behind a binding.
pub record IsBacked (hash : String) (b : SubscriptionTokenBinding) (s : State) : Type 0 where
  pub sub : Subscription
  pub stored : lookup b.subscription_id s.subs ≡ some sub
  pub owner : sub.user_id ≡ b.user_id
  pub matched : token_matches hash b.subscription_id s ≡ true
  pub bound : bound_to (lookup b.user_id s.users) b.subscription_id ≡ true

and_left : (a b : Bool) → (a && b) ≡ true → a ≡ true
and_left true b h = refl
and_left false b h = h

and_right : (a b : Bool) → (a && b) ≡ true → b ≡ true
and_right true b h = h
and_right false b h = cc

find_binding-IsBacked :
    (hash : String) (s : State) (es : List (String × Subscription)) (b : SubscriptionTokenBinding)
    → All (λ e. lookup e.0 s.subs ≡ some e.1) es
    → find_binding hash s es ≡ some b
    → IsBacked hash b s
unfolding find_binding
find_binding-IsBacked hash s [] b a h = cc
find_binding-IsBacked hash s ((id, sub) ∷ rest) b a h =
    elim (Bool-cases (token_matches hash id s && bound_to (lookup sub.user_id s.users) id)) [
      | inl e ↦ here e (rw e at h)
      | inr e ↦ find_binding-IsBacked hash s rest b a.1 (rw e at h)
    ]
  where
    here :
        (token_matches hash id s && bound_to (lookup sub.user_id s.users) id) ≡ true
        → some (record { user_id = sub.user_id; subscription_id = id }) ≡ some b
        → IsBacked hash b s
    here e p =
        subst (λ y. IsBacked hash y s)
          (some_path (some (record { user_id = sub.user_id; subscription_id = id })) refl p)
          (record {
            sub = sub;
            stored = a.0;
            owner = refl;
            matched =
                and_left (token_matches hash id s) (bound_to (lookup sub.user_id s.users) id) e;
            bound =
                and_right (token_matches hash id s) (bound_to (lookup sub.user_id s.users) id) e;
          })

-- What the search has tested of a digest that resolves.
pub resolve-IsBacked :
    (hash : String) (b : SubscriptionTokenBinding) (s : State)
    → (resolve_token_hash hash s).0 ≡ ok b
    → IsBacked hash b s
unfolding resolve_token_hash
resolve-IsBacked hash b s h = found (find_binding hash s (entries s.subs)) refl h
  where
    ok_path : {c : SubscriptionTokenBinding} → ok c ≡ ok b → c ≡ b
    ok_path p = cc

    found :
        (o : Option SubscriptionTokenBinding)
        → find_binding hash s (entries s.subs) ≡ o
        → or_not_found o ≡ ok b
        → IsBacked hash b s
    found none e p = cc
    found (some c) e p =
        find_binding-IsBacked hash s (entries s.subs) b (All-entries s.subs)
          (e ∙ ap some (ok_path p))

-- Neither a link nor an alias of the subscription has the digest.
pub Dead : String → String → State → Type 0
Dead hash id s = token_matches hash id s ≡ false

pub ended_unresolved :
    (hash : String) (b : SubscriptionTokenBinding) (s : State)
    → Dead hash b.subscription_id s
    → (resolve_token_hash hash s).0 ≡ ok b
    → ⊥
unfolding Dead
ended_unresolved hash b s d h = cc (d, IsBacked.matched (resolve-IsBacked hash b s h))

-- A subscription with this link's hash and without an alias has no other link.
pub only_link :
    (hash id mark : String) (s : State)
    → lookup id s.hashes ≡ some mark
    → lookup id s.delivery ≡ none
    → (mark == hash) ≡ false
    → hash ≢ ""
    → Dead hash id s
unfolding Dead
only_link hash id mark s h k differ full =
    rw (h, k, differ)
      (elim (Bool-cases ("" == hash)) [
        | inl e ↦ absurd (full (sym ((eq_iff "" hash).0 e)))
        | inr e ↦ e
      ])

pub update_token_hash-Dead :
    (id new hash : String) (s : State)
    → is_some (lookup id s.subs) ≡ true
    → (new == hash) ≡ false
    → hash ≢ ""
    → Dead hash id (update_token_hash id new s).1
unfolding update_token_hash
update_token_hash-Dead id new hash s h differ full = rw h (
    only_link hash id new
      (record s { hashes = insert id new s.hashes; delivery = remove id s.delivery })
      (lookup-insert_self id new s.hashes) (rw (lookup-remove id id s.delivery, eq_refl id) refl)
      differ full)

-- The link of the subscription is the mark, and it has no alias.
abbrev pub Marked : String → String → State → Type 0
Marked mark id s = (lookup id s.hashes ≡ some mark) × (lookup id s.delivery ≡ none)

mark_if-Marked :
    (b : Bool) (mark k id : String) (s : State)
    → Marked mark id s
    → Marked mark id (mark_if b k mark s)
mark_if-Marked false mark k id s h = h
mark_if-Marked true mark k id s h = elim (Bool-cases (k == id)) [
  | inl e ↦ rw (lookup-insert k id mark s.hashes, lookup-remove k id s.delivery, e) (refl, refl)
  | inr e ↦ rw (lookup-insert k id mark s.hashes, lookup-remove k id s.delivery, e) h
]

mark_if-hits :
    (b : Bool) (mark k : String) (s : State) → b ≡ true → Marked mark k (mark_if b k mark s)
mark_if-hits false mark k s h = cc
mark_if-hits true mark k s h =
    (lookup-insert_self k mark s.hashes, rw (lookup-remove k k s.delivery, eq_refl k) refl)

mark_if-kept :
    (b : Bool) (mark k : String) (s : State)
    → ((mark_if b k mark s).subs ≡ s.subs) × ((mark_if b k mark s).users ≡ s.users)
mark_if-kept false mark k s = (refl, refl)
mark_if-kept true mark k s = (refl, refl)

module _ (mark user : String) where
  revoke_links-Marked :
      (es : List (String × Subscription)) (id : String) (s : State)
      → Marked mark id s
      → Marked mark id (revoke_links mark user es s)
  unfolding revoke_links
  revoke_links-Marked [] id s h = h
  revoke_links-Marked ((k, sub) ∷ rest) id s h =
      revoke_links-Marked rest id _ (mark_if-Marked (sub.user_id == user) mark k id s h)

  -- The loop marks the links of every subscription of the user that it meets.
  pub revoke_links-hits :
      (es : List (String × Subscription)) (id : String) (sub : Subscription) (s : State)
      → Memᴰ (id, sub) es
      → (sub.user_id == user) ≡ true
      → Marked mark id (revoke_links mark user es s)
  unfolding revoke_links
  revoke_links-hits [] id sub s m h = elim m [ ]
  revoke_links-hits ((k, x) ∷ rest) id sub s (Memᴰ.head e) h =
      subst (λ j. Marked mark j (revoke_links mark user ((k, x) ∷ rest) s)) (ap (λ p. p.0) (sym e))
        (revoke_links-Marked rest k _ (
          mark_if-hits (x.user_id == user) mark k s
            (subst (λ p. (p.1.user_id == user) ≡ true) e h)))
  revoke_links-hits ((k, x) ∷ rest) id sub s (Memᴰ.tail m) h = revoke_links-hits rest id sub _ m h

  -- It changes no account and no entitlement.
  pub revoke_links-kept :
      (es : List (String × Subscription)) (s : State)
      → ((revoke_links mark user es s).subs ≡ s.subs)
        × ((revoke_links mark user es s).users ≡ s.users)
  unfolding revoke_links
  revoke_links-kept [] s = (refl, refl)
  revoke_links-kept ((k, sub) ∷ rest) s =
      let next = revoke_links-kept rest (mark_if (sub.user_id == user) k mark s) in
      let one = mark_if-kept (sub.user_id == user) mark k s in (next.0 ∙ one.0, next.1 ∙ one.1)

-- The digest is that of a link, or of an alias.
stored_hash :
    (link : Option String) (alias : Option DeliveryToken) (hash : String)
    → hash ≢ ""
    → (text_or_blank link == hash || delivery_hash alias == hash) ≡ true
    → (link ≡ some hash) ⊎ ((d : DeliveryToken) × (alias ≡ some d) × (d.hash ≡ hash))
stored_hash (some x) alias hash full h = elim (Bool-cases (x == hash)) [
  | inl e ↦ inl (ap some ((eq_iff x hash).0 e))
  | inr e ↦ of_alias alias (rw e at h)
]
  where
    of_alias :
        (alias : Option DeliveryToken)
        → (delivery_hash alias == hash) ≡ true
        → (some x ≡ some hash) ⊎ ((d : DeliveryToken) × (alias ≡ some d) × (d.hash ≡ hash))
    of_alias none k = absurd (full (sym ((eq_iff "" hash).0 k)))
    of_alias (some d) k = inr (d, refl, (eq_iff d.hash hash).0 k)
stored_hash none none hash full h = elim (Bool-cases ("" == hash)) [
  | inl e ↦ absurd (full (sym ((eq_iff "" hash).0 e)))
  | inr e ↦ absurd (cc (rw e at h))
]
stored_hash none (some d) hash full h = elim (Bool-cases ("" == hash)) [
  | inl e ↦ absurd (full (sym ((eq_iff "" hash).0 e)))
  | inr e ↦ inr (d, refl, (eq_iff d.hash hash).0 (rw e at h))
]

-- What a binding stands for, field by field.
pub record IsLinked (hash : String) (b : SubscriptionTokenBinding) (s : State) : Type 0 where
  pub sub : Subscription
  pub stored : lookup b.subscription_id s.subs ≡ some sub
  pub owner : sub.user_id ≡ b.user_id
  pub matched :
      (lookup b.subscription_id s.hashes ≡ some hash)
      ⊎ ((d : DeliveryToken) × (lookup b.subscription_id s.delivery ≡ some d) × (d.hash ≡ hash))
  pub user : User
  pub has_user : lookup b.user_id s.users ≡ some user
  pub active : user.status ≡ UserStatus.active
  pub linked : user.subscription_id ≡ some b.subscription_id

active_path : (st : UserStatus) → user_active st ≡ true → st ≡ UserStatus.active
active_path UserStatus.active h = refl
active_path _ h = cc

points_path : (o : Option String) (id : String) → points_to o id ≡ true → o ≡ some id
points_path none id h = cc
points_path (some x) id h = ap some ((eq_iff x id).0 h)

bound_user :
    (o : Option User) (id : String)
    → bound_to o id ≡ true
    → (u : User) × (o ≡ some u) × (u.status ≡ UserStatus.active) × (u.subscription_id ≡ some id)
bound_user none id h = absurd (cc h)
bound_user (some u) id h = (
  u,
  refl,
  active_path u.status (and_left (user_active u.status) (points_to u.subscription_id id) h),
  points_path u.subscription_id id
      (and_right (user_active u.status) (points_to u.subscription_id id) h),
)

-- A digest that resolves, the empty one left out, is the stored digest of a link, or of a delivery
-- alias, of a stored subscription; the user of the binding owns the subscription, is stored and
-- active, and points back at just this subscription.
pub resolve-IsLinked :
    (hash : String) (b : SubscriptionTokenBinding) (s : State)
    → hash ≢ ""
    → (resolve_token_hash hash s).0 ≡ ok b
    → IsLinked hash b s
resolve-IsLinked hash b s full h =
    let backed = resolve-IsBacked hash b s h in
    let (u, has, active, linked) =
      bound_user (lookup b.user_id s.users) b.subscription_id backed.bound in
    record {
      sub = backed.sub;
      stored = backed.stored;
      owner = backed.owner;
      matched =
          stored_hash (lookup b.subscription_id s.hashes) (lookup b.subscription_id s.delivery) hash
            full backed.matched;
      user = u;
      has_user = has;
      active = active;
      linked = linked;
    }
