-- ===== src/ControlPlane/Service/Nodes.antt =====
-- usecase/nodes.go: the registry of nodes.
pub mod Records
pub mod Quiet
pub mod Handlers
pub mod Activation
use casper_vpn.Base.{
  String, ℕ, Bool, true, false, not, Option, none, some, List, ◌&&◌, ◌||◌, ◌==◌, ltb, is_zero,
  if◌then◌else◌,
}
use casper_vpn.Orchestrator.Policy.{NodeStatus}
use casper_vpn.ControlPlane.Contracts.{
  Node, valid_node, same_node_status, blank_status, Error, conflict, validation, Result, ok, err,
}
use casper_vpn.ControlPlane.Action.{Action, ◌>>=◌, ◌>>◌, done, fail, reject_if, returns, ignore}
use casper_vpn.ControlPlane.Store.State.{State, NodeFilter, RotationRecord, enqueue_node}
use casper_vpn.ControlPlane.Store.Nodes.{
  create_node, get_node, list_nodes, update_node, set_status, demote, set_entry_ip,
  add_node_rotation, list_node_rotations,
}
use casper_vpn.ControlPlane.Store.AllowList.{activate}
use casper_vpn.ControlPlane.Service.Environment.{Environment, World, in_store, now, draw, change}

module _ (env : Environment) where
  open env use {uuid, node_id, digests}

  -- `recordRotation`
  unfoldable pub record_rotation :
      String
      → Option NodeStatus
      → NodeStatus
      → String
      → String
      → String
      → Action (World env) (Unit {0})
  unfolding add_node_rotation
  record_rotation id from to reason ip actor = do
    rec_id ← draw env uuid
    t ← now env
    in_store env (
        add_node_rotation (record {
          id = rec_id;
          node_id = id;
          from_status = from;
          to_status = to;
          reason = reason;
          entry_ip = ip;
          actor = actor;
          created_at = t;
        }))

  -- `Activate` and `ActivateAccess`: one of the two revisions is "".
  unfoldable pub activate_node :
      String → String → String → String → String → Action (World env) Node
  unfolding activate record_rotation
  activate_node id revision access evidence actor = do
    t ← now env
    r ← in_store env (activate digests t id revision access evidence)
    ignore (record_rotation id (some r.1) r.0.status "activate" r.0.entry_ip actor)
    change env (enqueue_node id)
    done r.0

  -- What `Register` stores for a node that the caller sent.
  abbrev pub incoming : String → Node → Node
  incoming id n = record n {
    id = id;
    status = if blank_status n.status then NodeStatus.provisioning else n.status;
  }

  unfoldable pub register : Node → String → Action (World env) Node
  unfolding create_node record_rotation valid_node
  register sent actor = do
    id ← if sent.id == "" then draw env node_id else done sent.id
    reject_if (same_node_status (incoming id sent).status NodeStatus.active) conflict
    created ← if is_zero sent.created_at then now env else done sent.created_at
    let n = record (incoming id sent) { created_at = created }
    reject_if (not (valid_node n)) validation
    in_store env (create_node n)
    record_rotation n.id none n.status "register" n.entry_ip actor
    done n

  unfoldable pub get : String → Action (World env) Node
  unfolding get_node
  get id = in_store env (get_node id)

  unfoldable pub list : NodeFilter → Action (World env) (List Node)
  unfolding list_nodes
  list f = in_store env (
      list_nodes
        (record f { limit = if is_zero f.limit || ltb 1000 f.limit then 100 else f.limit }))

  abbrev pub record_change : Node → Node → String → String → Action (World env) (Unit {0})
  record_change old n id actor =
      if not (same_node_status old.status n.status)
      then record_rotation id (some old.status) n.status "update" n.entry_ip actor
      else done tt

  -- `Update`, once the stored node is known.
  unfoldable pub update_stored : Node → String → Node → String → Action (World env) Node
  unfolding update_node record_rotation valid_node
  update_stored old id sent actor = do
    let n = record sent { id = old.id; created_at = old.created_at }
    reject_if
        (same_node_status n.status NodeStatus.active
          && not (same_node_status old.status NodeStatus.active))
        conflict
    reject_if (not (valid_node n)) validation
    in_store env (update_node n)
    record_change old n id actor
    change env (enqueue_node id)
    done n

  unfoldable pub update : String → Node → String → Action (World env) Node
  unfolding update_stored get_node
  update id sent actor = do old ← in_store env (get_node id); update_stored old id sent actor

  unfoldable pub rotate : String → String → String → String → Action (World env) Node
  unfolding get_node set_entry_ip record_rotation
  rotate id ip reason actor = do
    n ← in_store env (get_node id)
    if not (ip == "") then in_store env (set_entry_ip id ip) else done tt
    let n' = if not (ip == "") then record n { entry_ip = ip } else n
    record_rotation id (some n'.status) n'.status (if reason == "" then "rotate" else reason)
        n'.entry_ip actor
    change env (enqueue_node id)
    done n'

  unfoldable pub retire : String → String → Action (World env) (Unit {0})
  unfolding set_status record_rotation
  retire id actor = do
    prev ← in_store env (set_status id NodeStatus.retired)
    record_rotation id (some prev) NodeStatus.retired "retire" "" actor
    change env (enqueue_node id)

  unfoldable pub demote_node : String → String → Action (World env) Node
  unfolding demote record_rotation get_node
  demote_node id actor = do
    prev ← in_store env (demote id)
    ignore (record_rotation id (some prev) NodeStatus.provisioning "demote" "" actor)
    change env (enqueue_node id)
    in_store env (get_node id)

  unfoldable pub history : String → ℕ → Action (World env) (List RotationRecord)
  unfolding list_node_rotations
  history id limit =
      in_store env (list_node_rotations id (if is_zero limit || ltb 500 limit then 100 else limit))

  abbrev pub after_change :
      NodeStatus → String → NodeStatus → String → String → Action (World env) (NodeStatus × Bool)
  after_change prev id to reason actor = do
    record_rotation id (some prev) to reason "" actor
    change env (enqueue_node id)
    done (prev, true)

  -- `setStatusIfChanged`: the status before, and whether it changed.
  unfoldable pub set_status_if_changed :
      String → NodeStatus → String → String → Action (World env) (NodeStatus × Bool)
  unfolding set_status record_rotation
  set_status_if_changed id to reason actor = do
    prev ← in_store env (set_status id to)
    if same_node_status prev to then done (prev, false) else after_change prev id to reason actor
