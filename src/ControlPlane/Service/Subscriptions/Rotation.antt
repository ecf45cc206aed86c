-- ===== src/ControlPlane/Service/Subscriptions/Rotation.antt =====
-- A rotated link, or rotated secrets, end the links of before.
use casper_vpn.Base.{
  eq_iff, eq_refl, concat, String, false, some, ◌≡◌, ◌≢◌, refl, ap, sym, subst, ◌∙◌, inl, inr, ◌==◌,
  Option-cases,
}
use casper_vpn.Map.{lookup, entries, lookup-insert_self, lookup-remove, Memᴰ-entries}
use casper_vpn.ControlPlane.Contracts.{User, ok}
use casper_vpn.ControlPlane.Action.{◌>>=◌, ◌>>◌}
use casper_vpn.ControlPlane.Store.State.{State, SubscriptionTokenBinding, SubscriptionWithToken}
use casper_vpn.ControlPlane.Store.Subscriptions.{
  resolve_token_hash, update_token_hash, get_subscription,
}
use casper_vpn.ControlPlane.Store.Subscriptions.Links.{
  Dead, only_link, ended_unresolved, resolve-IsBacked, revoke_links-hits, revoke_links-kept,
}
use casper_vpn.ControlPlane.Service.Environment.{Environment, World, draw-cases}
use casper_vpn.ControlPlane.Service.Subscriptions.{rotate_token}
use casper_vpn.ControlPlane.Store.Users.{revoke_links, rotate_secrets, get_user}
use casper_vpn.ControlPlane.Service.Users.{rotate}

module _ (env : Environment) where
  open env use {token, hash_token, uuid, short_id, private_key}

  rotate_token-Dead :
      (id hash : String) (w w' : World env) (r : SubscriptionWithToken)
      → rotate_token env id w ≡ (ok r, w')
      → (hash_token r.plain_token == hash) ≡ false
      → hash ≢ ""
      → Dead hash id w'.store
  unfolding rotate_token get_subscription ◌>>=◌ ◌>>◌
  rotate_token-Dead id hash w w' r h differ full = elim (Option-cases (lookup id w.store.subs)) [
    | inl e ↦ absurd (cc (rw e at h))
    | inr (sub, e) ↦ elim (draw-cases (token w.outside)) [
      | inl (o, d) ↦ absurd (cc (rw (e, d) at h))
      | inr (secret, o, d) ↦
          let p = rw (e, d, e, update_token_hash) at h in
          let same : secret ≡ r.plain_token = cc p in
          subst (Dead hash id) (ap (λ q. q.1.store) p) (
            only_link hash id (hash_token secret) _
              (lookup-insert_self id (hash_token secret) w.store.hashes)
              (rw (lookup-remove id id w.store.delivery, eq_refl id) refl)
              (subst (λ x. (hash_token x == hash) ≡ false) (sym same) differ) full)
    ]
  ]

  -- After a successful `RotateToken`, no digest but that of the returned token resolves to the
  -- subscription, be it that of an earlier token or of a delivery alias; the empty digest, which
  -- `ResolveToken` refuses, is left out.
  pub rotation_ends_links :
      (id hash : String) (w w' : World env) (r : SubscriptionWithToken)
      (b : SubscriptionTokenBinding)
      → rotate_token env id w ≡ (ok r, w')
      → (hash_token r.plain_token == hash) ≡ false
      → hash ≢ ""
      → (resolve_token_hash hash w'.store).0 ≡ ok b
      → b.subscription_id ≢ id
  rotation_ends_links id hash w w' r b h differ full found same =
      ended_unresolved hash b w'.store
        (subst (λ x. Dead hash x w'.store) (sym same)
          (rotate_token-Dead id hash w w' r h differ full))
        found

  -- What a successful `RotateSecrets` leaves of the links.
  record Severed (id : String) (s s' : State) : Type 0 where
    pub hy2 : String
    pub links : s'.hashes ≡ (revoke_links (concat "revoked:" hy2) id (entries s.subs) s).hashes
    pub aliases :
        s'.delivery ≡ (revoke_links (concat "revoked:" hy2) id (entries s.subs) s).delivery
    pub entitlements : s'.subs ≡ s.subs

  rotate-Severed :
      (id reason : String) (w w' : World env) (u : User)
      → rotate env id reason w ≡ (ok u, w')
      → Severed id w.store w'.store
  unfolding rotate get_user rotate_secrets ◌>>=◌ ◌>>◌
  rotate-Severed id reason w w' u h = elim (Option-cases (lookup id w.store.users)) [
    | inl e ↦ absurd (cc (rw e at h))
    | inr (old, e) ↦ elim (draw-cases (short_id w.outside)) [
      | inl (o, d) ↦ absurd (cc (rw (e, d) at h))
      | inr (short, o1, d1) ↦ elim (draw-cases (uuid o1)) [
        | inl (o, d) ↦ absurd (cc (rw (e, d1, d) at h))
        | inr (vless, o2, d2) ↦ elim (draw-cases (private_key o2)) [
          | inl (o, d) ↦ absurd (cc (rw (e, d1, d2, d) at h))
          | inr (key, o3, d3) ↦ elim (draw-cases (token o3)) [
            | inl (o, d) ↦ absurd (cc (rw (e, d1, d2, d3, e, d) at h))
            | inr (hy2, o4, d4) ↦ elim (draw-cases (uuid o4)) [
              | inl (o, d) ↦ absurd (cc (rw (e, d1, d2, d3, e, d4, e, d) at h))
              | inr (rec_id, o5, d5) ↦
                  let p = rw (e, d1, d2, d3, e, d4, e, d5) at h in
                  record {
                    hy2 = hy2;
                    links = sym (ap (λ q. q.1.store.hashes) p);
                    aliases = sym (ap (λ q. q.1.store.delivery) p);
                    entitlements =
                        sym (ap (λ q. q.1.store.subs) p)
                        ∙ (revoke_links-kept (concat "revoked:" hy2) id (entries w.store.subs)
                            w.store).0;
                  }
            ]
          ]
        ]
      ]
    ]
  ]

  -- After a successful `RotateSecrets`, no digest resolves to a subscription of the user, be it that of
  -- a link or of a delivery alias; the empty digest and the marks `revoked:…`, which are no digests
  -- and which `ResolveToken` refuses, are left out.
  pub secrets_end_links :
      (id reason hash : String) (w w' : World env) (u : User) (b : SubscriptionTokenBinding)
      → rotate env id reason w ≡ (ok u, w')
      → hash ≢ ""
      → ((x : String) → (concat "revoked:" x == hash) ≡ false)
      → (resolve_token_hash hash w'.store).0 ≡ ok b
      → b.user_id ≢ id
  secrets_end_links id reason hash w w' u b h full unmarked found same =
      let cut = rotate-Severed id reason w w' u h in
      let backed = resolve-IsBacked hash b w'.store found in
      let stored =
        subst (λ m. lookup b.subscription_id m ≡ some backed.sub) cut.entitlements backed.stored in
      let marked =
        revoke_links-hits (concat "revoked:" cut.hy2) id (entries w.store.subs) b.subscription_id
          backed.sub w.store (Memᴰ-entries b.subscription_id backed.sub w.store.subs stored)
          ((eq_iff backed.sub.user_id id).1 (backed.owner ∙ same)) in
      ended_unresolved hash b w'.store
        (only_link hash b.subscription_id (concat "revoked:" cut.hy2) w'.store
          (ap (λ m. lookup b.subscription_id m) cut.links ∙ marked.0)
          (ap (λ m. lookup b.subscription_id m) cut.aliases ∙ marked.1) (unmarked cut.hy2) full)
        found
