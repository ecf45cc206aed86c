-- ===== src/ControlPlane/Service/Bundles/Renewed.antt =====
-- What a build returns and writes.
use casper_vpn.Base.{
  String, true, false, some, List, [], ◌∷◌, ◌≡◌, refl, ap, subst, sym, ◌+◌, inl, inr, map, keep_if,
  Bool-cases, Memᴰ, All, All-Memᴰ, All-keep_if, All-map_into,
}
use casper_vpn.Map.{lookup, insert, entries, Memᴰ-entries, All-entries}
use casper_vpn.Orchestrator.Policy.{NodeStatus}
use casper_vpn.ControlPlane.Contracts.{Node, User, same_node_status, ok}
use casper_vpn.ControlPlane.Action.{◌>>=◌, ◌>>◌}
use casper_vpn.ControlPlane.Store.State.{State, SubscriptionSet}
use casper_vpn.ControlPlane.Store.Nodes.{is_active, active_nodes, list_active}
use casper_vpn.ControlPlane.Store.Users.{get_user, get_set, upsert}
use casper_vpn.ControlPlane.Service.Environment.{Environment, World}
use casper_vpn.ControlPlane.Service.Bundles.{set_for, build}
use casper_vpn.ControlPlane.Service.Bundles.Rebuild.{revision_of, prior}

-- A stored node that serves.
abbrev pub IsServing : State → Node → Type 0
IsServing s n = (k : String) × (lookup k s.nodes ≡ some n) × (n.status ≡ NodeStatus.active)

active_path :
    (st : NodeStatus) → same_node_status st NodeStatus.active ≡ true → st ≡ NodeStatus.active
active_path NodeStatus.active h = refl
active_path _ h = cc

All-values :
    (P : Node → Type 0) (es : List (String × Node))
    → All (λ e. P e.1) es
    → All P (map (λ e. e.1) es)
All-values P [] h = tt
All-values P (e ∷ es) h = (h.0, All-values P es h.1)

Memᴰ-values :
    {k : String} {n : Node} (es : List (String × Node))
    → Memᴰ (k, n) es
    → Memᴰ n (map (λ e. e.1) es)
Memᴰ-values [] m = elim m [ ]
Memᴰ-values (e ∷ es) (Memᴰ.head p) = Memᴰ.head (ap (λ x. x.1) p)
Memᴰ-values (e ∷ es) (Memᴰ.tail m) = Memᴰ.tail (Memᴰ-values es m)

Memᴰ-active :
    (n : Node) (ns : List Node) → is_active n ≡ true → Memᴰ n ns → Memᴰ n (keep_if is_active ns)
Memᴰ-active n [] h m = elim m [ ]
Memᴰ-active n (x ∷ xs) h (Memᴰ.head p) =
    let on : is_active x ≡ true = subst (λ y. is_active y ≡ true) p h in rw on (Memᴰ.head p)
Memᴰ-active n (x ∷ xs) h (Memᴰ.tail m) = elim (Bool-cases (is_active x)) [
  | inl e ↦ rw e (Memᴰ.tail (Memᴰ-active n xs h m))
  | inr e ↦ rw e (Memᴰ-active n xs h m)
]

active_nodes-IsServing : (s : State) (n : Node) → Memᴰ n (active_nodes s) → IsServing s n
unfolding active_nodes
active_nodes-IsServing s n m =
    let all =
      All-keep_if (λ x. (k : String) × (lookup k s.nodes ≡ some x)) is_active _
        (All-values (λ x. (k : String) × (lookup k s.nodes ≡ some x)) (entries s.nodes)
          (All-map_into (λ e p. (e.0, p)) (entries s.nodes) (All-entries s.nodes))) in
    let here = All-Memᴰ _ (active_nodes s) all m in
    (here.0.0, here.0.1, active_path n.status here.1)

serving-Memᴰ : (s : State) (n : Node) → IsServing s n → Memᴰ n (active_nodes s)
unfolding active_nodes
serving-Memᴰ s n (k, stored, on) =
    Memᴰ-active n (map (λ e. e.1) (entries s.nodes))
      (subst (λ x. same_node_status x NodeStatus.active ≡ true) (sym on) refl)
      (Memᴰ-values (entries s.nodes) (Memᴰ-entries k n s.nodes stored))

-- The set of a build for a user, given the store that the build met.
pub record Renewed (user : String) (u : User) (s : State) (set : SubscriptionSet) : Type 0 where
  pub owner : set.user_id ≡ user
  pub fresh : set.dirty ≡ false
  pub revision : set.revision ≡ revision_of (lookup user s.sets) + 1
  pub shown : set.bundle.user ≡ record u { private_key = "" }
  pub serving : (n : Node) → Memᴰ n set.bundle.nodes → IsServing s n
  pub complete : (n : Node) → IsServing s n → Memᴰ n set.bundle.nodes
  pub node_ids : set.node_ids ≡ map (λ n. n.id) set.bundle.nodes

module _ (env : Environment) where
  -- A build for a user that exists succeeds, whatever set there was. The set that it returns is the
  -- user's, fresh, with the next revision, and holds the user without the private key and exactly the
  -- stored nodes that are active; it replaces the user's set, and nothing else of the sets, the nodes
  -- and the accounts changes.
  pub build-Renewed :
      (user : String) (u : User) (w : World env)
      → lookup user w.store.users ≡ some u
      → let (r, w') = build env user w in
        (set : SubscriptionSet) × (r ≡ ok set)
        × Renewed user u w.store set
        × (w'.store.sets ≡ insert user set w.store.sets)
        × (w'.store.nodes ≡ w.store.nodes)
        × (w'.store.users ≡ w.store.users)
  unfolding build get_user list_active get_set upsert ◌>>=◌ ◌>>◌
  build-Renewed user u w e =
      let t = env.clock w.outside in
      let old = lookup user w.store.sets in
      let set = set_for user u (active_nodes w.store) (revision_of old) t.0 (env.clock t.1).0 in
      rw (e, prior old)
        (
          set,
          refl,
          record {
            owner = refl;
            fresh = refl;
            revision = refl;
            shown = refl;
            serving = active_nodes-IsServing w.store;
            complete = serving-Memᴰ w.store;
            node_ids = refl;
          },
          refl,
          refl,
          refl,
        )
