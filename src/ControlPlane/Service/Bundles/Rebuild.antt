-- ===== src/ControlPlane/Service/Bundles/Rebuild.antt =====
-- What a build writes, and what a rebuild for a node leaves in the users' sets.
use casper_vpn.Base.{
  String, ℕ, true, false, Option, none, some, List, [], ◌∷◌, ◌≡◌, refl, ap, subst, sym, ◌∙◌, ◌+◌,
  inl, inr, ◌⊎◌, ◌==◌, eq_iff, map, keep_if, any_of, Bool-cases, Option-cases, Memᴰ, some_path,
}
use casper_vpn.Map.{Map, lookup, insert, entries, lookup-insert_cases, Memᴰ-entries}
use casper_vpn.ControlPlane.Contracts.{Node, User, ok, or_not_found}
use casper_vpn.ControlPlane.Action.{◌>>=◌, ◌>>◌}
use casper_vpn.ControlPlane.Store.State.{State, SubscriptionSet, Job}
use casper_vpn.ControlPlane.Store.Nodes.{active_nodes, list_active}
use casper_vpn.ControlPlane.Store.Users.{
  get_user, get_set, upsert, includes, user_ids_by_node, mark_dirty_by_node,
}
use casper_vpn.ControlPlane.Service.Environment.{Environment, World}
use casper_vpn.ControlPlane.Service.Bundles.{
  set_for, previous_revision, build, rebuild_all, process,
}

-- The set that a build of this user writes: what it is about, with no time in it.
pub record IsBuilt (user : String) (s : State) (set : SubscriptionSet) : Type 0 where
  pub owner : set.user_id ≡ user
  pub node_ids : set.node_ids ≡ map (λ n. n.id) (active_nodes s)
  pub nodes : set.bundle.nodes ≡ active_nodes s
  pub fresh : set.dirty ≡ false
  pub secret : set.bundle.user.private_key ≡ ""

-- The revision of the user's set, 0 if there is none.
abbrev pub revision_of : Option SubscriptionSet → ℕ
revision_of none = 0
revision_of (some set) = set.revision

-- A build for a user that exists: what it writes, and that it writes nothing else.
pub record Built (user : String) (s s' : State) : Type 0 where
  pub set : SubscriptionSet
  pub is_built : IsBuilt user s set
  pub next_revision : set.revision ≡ revision_of (lookup user s.sets) + 1
  pub written : s'.sets ≡ insert user set s.sets
  pub nodes : s'.nodes ≡ s.nodes
  pub users : s'.users ≡ s.users

pub prior : (o : Option SubscriptionSet) → previous_revision (or_not_found o) ≡ ok (revision_of o)
prior none = refl
prior (some set) = refl

any_of-map :
    (node : String) (nodes : List Node)
    → any_of (λ id. id == node) (map (λ n. n.id) nodes) ≡ any_of (λ n. n.id == node) nodes
any_of-map node [] = refl
any_of-map node (n ∷ nodes) = rw (any_of-map node nodes) refl

-- Whoever holds the node is found.
holder-Memᴰ :
    (node user : String) (set : SubscriptionSet) (sets : Map SubscriptionSet)
    → lookup user sets ≡ some set
    → includes node set ≡ true
    → Memᴰ user (map (λ e. e.0) (keep_if (λ e. includes node e.1) (entries sets)))
holder-Memᴰ node user set sets h holds = found (entries sets) (Memᴰ-entries user set sets h)
  where
    found :
        (es : List (String × SubscriptionSet))
        → Memᴰ (user, set) es
        → Memᴰ user (map (λ e. e.0) (keep_if (λ e. includes node e.1) es))
    found [] m = elim m [ ]
    found (e ∷ es) (Memᴰ.head p) =
        let here : includes node e.1 ≡ true = subst (λ x. includes node x.1 ≡ true) p holds in
        rw here (Memᴰ.head (ap (λ x. x.0) p))
    found (e ∷ es) (Memᴰ.tail m) = elim (Bool-cases (includes node e.1)) [
      | inl here ↦ rw here (Memᴰ.tail (found es m))
      | inr away ↦ rw away (found es m)
    ]

module _ (env : Environment) where
  -- What a build for a user that exists writes.
  pub build-Built :
      (user : String) (u : User) (w : World env)
      → lookup user w.store.users ≡ some u
      → Built user w.store (build env user w).1.store
  unfolding build get_user list_active get_set upsert ◌>>=◌ ◌>>◌
  build-Built user u w e =
      let t = env.clock w.outside in
      let old = lookup user w.store.sets in
      rw (e, prior old)
        (record {
          set = set_for user u (active_nodes w.store) (revision_of old) t.0 (env.clock t.1).0;
          is_built = record {
            owner = refl;
            node_ids = refl;
            nodes = refl;
            fresh = refl;
            secret = refl;
          };
          next_revision = refl;
          written = refl;
          nodes = refl;
          users = refl;
        })

  -- For a user without an account it fails and writes nothing.
  build-idle :
      (user : String) (w : World env)
      → lookup user w.store.users ≡ none
      → (build env user w).1.store ≡ w.store
  unfolding build get_user ◌>>=◌
  build-idle user w e = rw e refl

  -- The node has no place in the user's set.
  pub Spared : String → String → State → Type 0
  Spared user node s =
      (set : SubscriptionSet) → lookup user s.sets ≡ some set → includes node set ≡ false

  -- The user has an account, and the node is not active.
  record Ready (user node : String) (s : State) : Type 0 where
    pub account : User
    pub has_account : lookup user s.users ≡ some account
    pub idle : any_of (λ n. n.id == node) (active_nodes s) ≡ false

  written-Ready :
      (user node other : String) (s s' : State)
      → Ready user node s
      → Built other s s'
      → Ready user node s'
  unfolding active_nodes
  written-Ready user node other s s' r b = record {
    account = r.account;
    has_account = ap (lookup user) b.users ∙ r.has_account;
    idle = rw b.nodes r.idle;
  }

  build-Ready :
      (user node other : String) (w : World env)
      → Ready user node w.store
      → Ready user node (build env other w).1.store
  build-Ready user node other w r = elim (Option-cases (lookup other w.store.users)) [
    | inr (u, e) ↦ written-Ready user node other w.store _ r (build-Built other u w e)
    | inl e ↦ rw (build-idle other w e) r
  ]

  written-Spared :
      (user other node : String) (s s' : State)
      → Ready user node s
      → Built other s s'
      → (other ≡ user) ⊎ Spared user node s
      → Spared user node s'
  unfolding Spared
  written-Spared user other node s s' r b h set e =
      elim (lookup-insert_cases other b.set s.sets user set
        (ap (lookup user) (sym b.written) ∙ e)) [
          | inl p ↦
              subst (λ x. includes node x ≡ false) p.1
                (rw b.is_built.node_ids (any_of-map node (active_nodes s) ∙ r.idle))
          | inr p ↦ elim h [
            | inl same ↦ absurd (cc (p.0, (eq_iff other user).1 same))
            | inr spared ↦ spared set p.1
          ]
        ]

  build-Spared :
      (user other node : String) (w : World env)
      → Ready user node w.store
      → (other ≡ user) ⊎ Spared user node w.store
      → Spared user node (build env other w).1.store
  build-Spared user other node w r h = elim (Option-cases (lookup other w.store.users)) [
    | inr (u, e) ↦ written-Spared user other node w.store _ r (build-Built other u w e) h
    | inl e ↦ elim h [
      | inl same ↦ absurd (cc (e, r.has_account, same))
      | inr spared ↦ rw (build-idle other w e) spared
    ]
  ]

  rebuild_all-Spared :
      (users : List String) (user node : String) (w : World env)
      → Ready user node w.store
      → Memᴰ user users ⊎ Spared user node w.store
      → Spared user node (rebuild_all env users w).1.store
  unfolding rebuild_all ◌>>◌ ◌>>=◌
  rebuild_all-Spared [] user node w r (inl m) = elim m [ ]
  rebuild_all-Spared [] user node w r (inr h) = h
  rebuild_all-Spared (other ∷ rest) user node w r h =
      rebuild_all-Spared rest user node _ (build-Ready user node other w r) (elim h [
        | inr spared ↦ inr (build-Spared user other node w r (inr spared))
        | inl m ↦ at_head m
      ])
    where
      at_head :
          Memᴰ user (other ∷ rest) → Memᴰ user rest ⊎ Spared user node (build env other w).1.store
      at_head (Memᴰ.head e) = inr (build-Spared user other node w r (inl (sym e)))
      at_head (Memᴰ.tail m) = inl m

  -- Once the worker has processed the job of a node that is not active, the node has no place in the set
  -- of any user that has an account: whoever held it was rebuilt onto the active nodes.
  pub process_spares :
      (node user : String) (u : User) (w : World env) (set : SubscriptionSet)
      → lookup user w.store.users ≡ some u
      → any_of (λ n. n.id == node) (active_nodes w.store) ≡ false
      → lookup user (process env (Job.node_job node) w).1.store.sets ≡ some set
      → includes node set ≡ false
  unfolding process Spared mark_dirty_by_node user_ids_by_node ◌>>◌ ◌>>=◌ active_nodes
  process_spares node user u w set e idle =
      rebuild_all-Spared holders user node marked
        (record { account = u; has_account = e; idle = idle })
        (elim (Option-cases (lookup user marked.store.sets)) [
          | inl none_yet ↦ inr (λ set h. absurd (cc (none_yet, h)))
          | inr (set, h) ↦ elim (Bool-cases (includes node set)) [
            | inr out ↦ inr (λ other k. subst (λ x. includes node x ≡ false) (some_path _ h k) out)
            | inl holds ↦ inl (holder-Memᴰ node user set marked.store.sets h holds)
          ]
        ])
        set
    where
      marked : World env
      marked = record w { store = (mark_dirty_by_node node w.store).1 }

      holders : List String
      holders = map (λ e. e.0) (keep_if (λ e. includes node e.1) (entries marked.store.sets))
