-- ===== src/ControlPlane/Store/Nodes.antt =====
-- adapters/memory/memory.go: `Nodes`, `Rotations` and `Signals`.
use casper_vpn.Base.{
  String, ℕ, Bool, true, false, not, Option, none, some, List, [], ◌∷◌, ◌++◌, ◌&&◌, ◌||◌, ◌==◌,
  is_some, if◌then◌else◌, keep_if, map, take,
}
use casper_vpn.Map.{lookup, insert, entries}
use casper_vpn.Orchestrator.Policy.{NodeStatus}
use casper_vpn.ControlPlane.Contracts.{
  Node, same_node_status, same_role, blank_status, blank_role, conflict, not_found, Result, ok, err,
  or_not_found,
}
use casper_vpn.ControlPlane.Action.{Action}
use casper_vpn.ControlPlane.Store.State.{
  State, NodeFilter, RotationRecord, UserSecretRotation, SignalAggregate,
}

-- Where a node is written: under its own id.
abbrev pub put_node : String → Node → State → State
put_node id n s = record s { nodes = insert id n s.nodes }

unfoldable pub create_node : Node → Action State (Unit {0})
create_node n s =
    if is_some (lookup n.id s.nodes) then (err conflict, s) else (ok tt, put_node n.id n s)

unfoldable pub get_node : String → Action State Node
get_node id s = (or_not_found (lookup id s.nodes), s)

abbrev matches : NodeFilter → Node → Bool
matches f n =
    (blank_status f.status || same_node_status n.status f.status)
    && (blank_role f.role || same_role n.role f.role)
    && (f.region == "" || n.region == f.region)

-- The memory store returns everything in one page.
unfoldable pub list_nodes : NodeFilter → Action State (List Node)
unfolding entries
list_nodes f s = (ok (keep_if (matches f) (map (λ e. e.1) (entries s.nodes))), s)

unfoldable pub update_node : Node → Action State (Unit {0})
update_node n s =
    if not (is_some (lookup n.id s.nodes)) then (err not_found, s) else (ok tt, put_node n.id n s)

abbrev set_status_of : Option Node → String → NodeStatus → State → Result NodeStatus × State
set_status_of none id status s = (err not_found, s)
set_status_of (some n) id status s = (ok n.status, put_node id (record n { status = status }) s)

unfoldable pub set_status : String → NodeStatus → Action State NodeStatus
set_status id status s = set_status_of (lookup id s.nodes) id status s

-- `case contracts.NodeStatusDraining, contracts.NodeStatusRetired`
abbrev pub is_terminal : NodeStatus → Bool
is_terminal NodeStatus.draining = true
is_terminal NodeStatus.retired = true
is_terminal _ = false

abbrev demote_of : Option Node → String → State → Result NodeStatus × State
demote_of none id s = (err not_found, s)
demote_of (some n) id s =
    if is_terminal n.status
    then (err conflict, s)
    else (ok n.status, put_node id (record n { status = NodeStatus.provisioning }) s)

unfoldable pub demote : String → Action State NodeStatus
demote id s = demote_of (lookup id s.nodes) id s

abbrev set_entry_ip_of : Option Node → String → String → State → Result (Unit {0}) × State
set_entry_ip_of none id ip s = (err not_found, s)
set_entry_ip_of (some n) id ip s = (ok tt, put_node id (record n { entry_ip = ip }) s)

unfoldable pub set_entry_ip : String → String → Action State (Unit {0})
set_entry_ip id ip s = set_entry_ip_of (lookup id s.nodes) id ip s

abbrev pub is_active : Node → Bool
is_active n = same_node_status n.status NodeStatus.active

unfoldable pub active_nodes : State → List Node
unfolding entries
active_nodes s = keep_if is_active (map (λ e. e.1) (entries s.nodes))

unfoldable pub list_active : Action State (List Node)
unfolding active_nodes
list_active s = (ok (active_nodes s), s)

-- `Rotations`
unfoldable pub add_node_rotation : RotationRecord → Action State (Unit {0})
add_node_rotation rec s = (ok tt, record s { node_recs = s.node_recs ++ rec ∷ [] })

abbrev newest_first {ℓ} : {A : Type ℓ} → List A → List A
newest_first [] = []
newest_first (x ∷ xs) = newest_first xs ++ x ∷ []

unfoldable pub list_node_rotations : String → ℕ → Action State (List RotationRecord)
list_node_rotations id limit s =
    (ok (take limit (keep_if (λ r. r.node_id == id) (newest_first s.node_recs))), s)

unfoldable pub add_user_secret_rotation : UserSecretRotation → Action State (Unit {0})
add_user_secret_rotation rec s = (ok tt, record s { user_recs = s.user_recs ++ rec ∷ [] })

-- `Signals`
unfoldable pub add_aggregate : SignalAggregate → Action State (Unit {0})
add_aggregate a s = (ok tt, record s { aggregates = s.aggregates ++ a ∷ [] })
