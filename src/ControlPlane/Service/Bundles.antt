-- ===== src/ControlPlane/Service/Bundles.antt =====
-- usecase/bundle.go and allowlist.go, and adapters/rebuild/queue.go: what a user is served, what a
-- node lets in, and the queue that rebuilds the users' sets. A job runs within its time limit here.
pub mod Rebuild
pub mod Renewed
use casper_vpn.Base.{
  String, ℕ, Time, Bool, true, false, Option, none, some, List, [], ◌∷◌, ◌+◌, map, if◌then◌else◌,
}
use casper_vpn.ControlPlane.Contracts.{
  Node, User, SubscriptionBundle, RealityUser, NodeRealityUsers, NodeAccessUsers, Error, not_found,
  Result, ok, err,
}
use casper_vpn.ControlPlane.Action.{Action, ◌>>=◌, ◌>>◌, done, fail, returns, try, ignore}
use casper_vpn.ControlPlane.Store.State.{State, SubscriptionSet, Job}
use casper_vpn.ControlPlane.Store.Nodes.{get_node, list_active}
use casper_vpn.ControlPlane.Store.Users.{
  get_user, get_set, upsert, user_ids_by_node, mark_dirty_by_node,
}
use casper_vpn.ControlPlane.Store.AllowList.{
  eligible_reality_users, eligible_access_users, reality_users_revision,
}
use casper_vpn.ControlPlane.Service.Environment.{Environment, World, in_store, now, change}

abbrev pub without_private_key : User → User
without_private_key u = record u { private_key = "" }

-- The revision of the set before, 0 if there is none.
abbrev pub previous_revision : Result SubscriptionSet → Result ℕ
previous_revision (ok set) = ok set.revision
previous_revision (err not_found) = ok 0
previous_revision (err e) = err e

abbrev pub set_for : String → User → List Node → ℕ → Time → Time → SubscriptionSet
set_for user u nodes revision generated built = record {
  user_id = user;
  revision = revision + 1;
  node_ids = map (λ n. n.id) nodes;
  bundle = record { user = without_private_key u; nodes = nodes; generated_at = generated };
  dirty = false;
  generated_at = built;
}

module _ (env : Environment) where
  open env use {digests}

  unfoldable pub build : String → Action (World env) SubscriptionSet
  unfolding get_user list_active get_set upsert
  build user = do
    u ← in_store env (get_user user)
    nodes ← in_store env list_active
    prev ← try (in_store env (get_set user))
    revision ← returns (previous_revision prev)
    generated ← now env
    built ← now env
    let set = set_for user u nodes revision generated built
    in_store env (upsert set)
    done set

  abbrev pub rebuild_unless_fresh :
      String → Result SubscriptionSet → Action (World env) SubscriptionSet
  rebuild_unless_fresh user (ok set) = if set.dirty then build user else done set
  rebuild_unless_fresh user (err not_found) = build user
  rebuild_unless_fresh user (err e) = fail e

  unfoldable pub get_for_user : String → Action (World env) SubscriptionSet
  unfolding build get_set
  get_for_user user = try (in_store env (get_set user)) >>= rebuild_unless_fresh user

  unfoldable pub reality_for_node : String → Action (World env) NodeRealityUsers
  unfolding get_node eligible_reality_users reality_users_revision
  reality_for_node id = do
    in_store env (get_node id)
    t ← now env
    users ← in_store env (λ s. (ok (eligible_reality_users t s), s))
    done (record { revision = reality_users_revision digests users; users = users })

  unfoldable pub access_for_node : String → Action (World env) NodeAccessUsers
  unfolding get_node eligible_access_users
  access_for_node id = do
    in_store env (get_node id)
    t ← now env
    in_store env (λ s. (eligible_access_users digests t s, s))

  -- A failed build is logged, and the next user's turn comes.
  unfoldable pub rebuild_all : List String → Action (World env) (Unit {0})
  unfolding build
  rebuild_all [] = done tt
  rebuild_all (user ∷ rest) = ignore (build user) >> rebuild_all rest

  unfoldable pub process : Job → Action (World env) (Unit {0})
  unfolding build rebuild_all mark_dirty_by_node user_ids_by_node
  process (Job.user_job user) = ignore (build user)
  process (Job.node_job node) = do
    ignore (in_store env (mark_dirty_by_node node))
    users ← in_store env (user_ids_by_node node)
    rebuild_all users

  -- The worker takes the jobs in their order.
  abbrev take_job : List Job → Action (World env) (Unit {0})
  take_job [] = done tt
  take_job (j ∷ rest) = change env (λ s. record s { jobs = rest }) >> process j

  unfoldable pub work : Action (World env) (Unit {0})
  unfolding process
  work w = take_job w.store.jobs w
