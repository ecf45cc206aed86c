-- ===== src/Orchestrator/Reconcile.antt =====
-- services/orchestrator/internal/reconcile/reconcile.go: one cycle of the loop. The labels that draining
-- a node writes are not seen again through the other actions of a cycle: each node of the fleet is
-- sent as it was listed. What `Run` logs, and a report next to an error, are left out.
pub mod Silence
pub mod Drain
pub mod Requests
pub mod Budget
use casper_vpn.Base.{
  String, ℕ, suc, Time, Duration, Bool, true, false, not, Option, none, some, List, [], ◌∷◌, ◌+◌,
  ◌*◌, ◌&&◌, ◌||◌, ◌==◌, after, is_zero, is_some, if◌then◌else◌, map,
}
use casper_vpn.Map.{Map, lookup, insert, entries, empty}
use casper_vpn.Orchestrator.Policy.{
  NodeStatus, NodeBlock, Recommendations, HealthEvent, ActionType, noop, mark_degraded, retire,
  side_effecting, Thresholds, Input, plan, drain_started_label,
}
use casper_vpn.Orchestrator.Policy
use casper_vpn.Orchestrator.Ports.{
  Ports, World, Verdict, ProvisionedPair, Request, answer, ask, outcome, order, now,
}
use casper_vpn.ControlPlane.Contracts.{
  NodeRole, Node, same_node_status, is_exit, is_entry, points_to, unset, NodeAccessUsers, Error,
  failure, Result, ok, err,
}
use casper_vpn.ControlPlane.Action.{Action, ◌>>=◌, ◌>>◌, done, fail, reject_if, try, ignore}

pub record Options : Type 0 where
  pub dry_run : Bool
  pub thresholds : Thresholds
  pub probe_enabled : Bool
  pub default_region : String
  pub default_cloud : String
  pub rotation_interval : Duration
  pub access_sync_enabled : Bool

pub record Report : Type 0 where
  pub plan : List Policy.Action
  pub executed : ℕ
  pub access_synced : ℕ
  pub dry_run : Bool

-- The part of a node that the policy reads.
abbrev pub policy_node : Node → Policy.Node
policy_node n = record {
  id = n.id;
  status = n.status;
  ephemeral_entry_ip = n.ephemeral_entry_ip;
  rotate_after = n.rotate_after;
  labels = n.labels;
}

abbrev pub is_active : Node → Bool
is_active n = same_node_status n.status NodeStatus.active

-- `byID`
unfoldable pub by_id : List Node → Map Node → Map Node
by_id [] m = m
by_id (n ∷ ns) m = by_id ns (insert n.id n m)

-- The node that Go reads from a map without it.
abbrev pub blank_node : Node
blank_node = record {
  id = "";
  role = NodeRole.other "";
  status = NodeStatus.other "";
  entry_node_id = none;
  provider = "";
  cloud = "";
  region = "";
  entry_ip = "";
  ephemeral_entry_ip = false;
  transports = [];
  capacity_users = 0;
  rotate_after = none;
  created_at = 0;
  expires_at = none;
  labels = empty;
}

abbrev pub node_or_blank : Option Node → Node
node_or_blank none = blank_node
node_or_blank (some n) = n

-- The first exit of an entry that a `range` over the fleet meets.
unfoldable pub exit_of : String → List (String × Node) → List Node
exit_of id [] = []
exit_of id ((k, n) ∷ rest) =
    let later = exit_of id rest in
    if is_exit n.role && points_to n.entry_node_id id then n ∷ [] else later

abbrev as_list : Option Node → List Node
as_list none = []
as_list (some n) = n ∷ []

abbrev entry_of : Option String → Map Node → List Node
entry_of none fleet = []
entry_of (some id) fleet = if id == "" then [] else as_list (lookup id fleet)

unfoldable pub old_pair : Node → Map Node → List Node
unfolding exit_of entries
old_pair n fleet =
    n
    ∷ (if is_entry n.role
        then exit_of n.id (entries fleet)
        else if is_exit n.role
        then entry_of n.entry_node_id fleet
        else [])

abbrev pub or_default : String → String → String
or_default s default = if s == "" then default else s

-- `24 * time.Hour`
abbrev day : Duration
day = 86400000000000

abbrev interval_of : Options → Duration
interval_of opts = if is_zero opts.rotation_interval then day else opts.rotation_interval

module _ (ports : Ports) where
  abbrev pub get_node : String → Action (World ports) Node
  get_node id = ask ports (Request.got id) (ports.get_node id)

  abbrev pub update_node : Node → Action (World ports) (Unit {0})
  update_node n = order ports (Request.updated n) (ports.update_node n)

  abbrev pub sync_node : Node → Time → Action (World ports) (Unit {0})
  sync_node n t = do
    snapshot ← ask ports (λ r. Request.read_access) (ports.access_users n.id)
    reject_if (not (after snapshot.valid_until t)) failure
    order ports (Request.synced n) (ports.sync_access n snapshot)

  -- `syncFleetAccess`, with the count so far.
  unfoldable pub sync_fleet_access : List Node → Time → ℕ → Action (World ports) ℕ
  sync_fleet_access [] t count = done count
  sync_fleet_access (n ∷ ns) t count =
      if not (is_entry n.role && is_active n)
      then sync_fleet_access ns t count
      else sync_node n t >> sync_fleet_access ns t (suc count)

  -- The verdict is told to telemetry, best effort, unless this is a dry run.
  abbrev pub tell : Bool → Verdict → Action (World ports) (Unit {0})
  tell true v = done tt
  tell false v = ignore (order ports (λ b. Request.reported v) (ports.report_health v))

  abbrev pub note :
      Bool → String → Map Verdict → Result Verdict → Action (World ports) (Map Verdict)
  note dry id out (ok v) = tell dry v >> done (insert id v out)
  note dry id out (err e) = done out

  -- `out[b.NodeID].NodeID != ""`
  abbrev pub is_probed : Option Verdict → Bool
  is_probed none = false
  is_probed (some v) = not (v.node_id == "")

  abbrev pub suspect :
      Bool → NodeBlock → Option Node → Map Verdict → Action (World ports) (Map Verdict)
  suspect dry b none out = done out
  suspect dry b (some n) out =
      if is_probed (lookup b.node_id out)
      then done out
      else try (ask ports (λ r. Request.probed) (ports.probe n)) >>= note dry b.node_id out

  unfoldable pub confirm :
      Bool → List NodeBlock → Map Node → Map Verdict → Action (World ports) (Map Verdict)
  confirm dry [] fleet out = done out
  confirm dry (b ∷ bs) fleet out =
      suspect dry b (lookup b.node_id fleet) out >>= confirm dry bs fleet

  unfoldable pub confirm_suspects :
      Options → Recommendations → List Node → Action (World ports) (Map Verdict)
  unfolding confirm by_id
  confirm_suspects opts recs nodes =
      if not opts.probe_enabled
      then done empty
      else confirm opts.dry_run recs.node_blocks (by_id nodes empty) empty

  abbrev pub draining_since : Time → Node → Node
  draining_since t n = record n {
    status = NodeStatus.draining;
    labels = insert drain_started_label (ports.format t) n.labels;
  }

  unfoldable pub drain : Time → List Node → Action (World ports) (Unit {0})
  drain t [] = done tt
  drain t (n ∷ ns) = update_node (draining_since t n) >> drain t ns

  unfoldable pub rotate_entry : Options → String → Node → Time → Action (World ports) (Unit {0})
  rotate_entry opts id n t = do
    order ports (Request.rotated n) (ports.node_rotate n)
    fresh ← get_node id
    reject_if (fresh.entry_ip == n.entry_ip) failure
    reject_if (not (is_active fresh)) failure
    update_node (record fresh { rotate_after = some (t + interval_of opts) })

  unfoldable pub replace_pair : Options → Node → Map Node → Time → Action (World ports) (Unit {0})
  unfolding drain old_pair
  replace_pair opts n fleet t = do
    let region = or_default n.region opts.default_region
    let cloud = or_default n.cloud opts.default_cloud
    pair ← ask ports (Request.upped region cloud) (ports.node_up region cloud)
    new_entry ← get_node pair.entry_id
    reject_if (not (is_active new_entry)) failure
    new_exit ← get_node pair.exit_id
    reject_if (not (is_active new_exit)) failure
    drain t (old_pair n fleet)

  -- The registry is made to agree, if it can be read.
  abbrev pub mark_retired : Result Node → Action (World ports) (Unit {0})
  mark_retired (err e) = done tt
  mark_retired (ok n) =
      if same_node_status n.status NodeStatus.retired
      then done tt
      else update_node (record n { status = NodeStatus.retired })

  unfoldable pub retire_node : String → Node → Action (World ports) (Unit {0})
  retire_node id n = do
    order ports (Request.downed n) (ports.node_down n)
    fresh ← try (get_node id)
    mark_retired fresh

  unfoldable pub execute :
      Options → ActionType → String → Node → Map Node → Time → Action (World ports) (Unit {0})
  unfolding rotate_entry replace_pair retire_node
  execute opts mark_degraded id n fleet t = update_node (record n { status = NodeStatus.degraded })
  execute opts ActionType.rotate id n fleet t = rotate_entry opts id n t
  execute opts ActionType.replace id n fleet t = replace_pair opts n fleet t
  execute opts retire id n fleet t = retire_node id n
  execute opts noop id n fleet t = fail failure

  abbrev pub is_noop : ActionType → Bool
  is_noop noop = true
  is_noop _ = false

  abbrev pub is_mark : ActionType → Bool
  is_mark mark_degraded = true
  is_mark _ = false

  -- The actions of the plan, with the number executed so far; the first failure ends the cycle.
  unfoldable pub run_plan :
      Options → List Policy.Action → Map Node → Time → ℕ → Action (World ports) ℕ
  unfolding execute
  run_plan opts [] fleet t executed = done executed
  run_plan opts (a ∷ rest) fleet t executed =
      if is_noop a.type
      then run_plan opts rest fleet t executed
      else execute opts a.type a.node_id (node_or_blank (lookup a.node_id fleet)) fleet t
        >> run_plan opts rest fleet t (if is_mark a.type then executed else suc executed)

  -- Without recommendations the cycle goes on.
  abbrev pub recs_or_none : Result Recommendations → Recommendations
  recs_or_none (ok recs) = recs
  recs_or_none (err e) = record { generated_at = 0; node_blocks = [] }

  -- What the policy is asked.
  abbrev pub input_of : Time → Recommendations → List Node → Map Verdict → Input
  input_of t recs nodes probes = record {
    now = t;
    recs = recs;
    nodes = map policy_node nodes;
    probes = map (λ e. (e.0, e.1.event)) probes;
  }

  unfoldable pub act :
      Options → List Policy.Action → List Node → Time → ℕ → Action (World ports) Report
  unfolding run_plan by_id
  act opts actions nodes t synced =
      if opts.dry_run
      then done (record { plan = actions; executed = 0; access_synced = synced; dry_run = true })
      else run_plan opts actions (by_id nodes empty) t 0 >>= λ n.
          done (record { plan = actions; executed = n; access_synced = synced; dry_run = false })

  unfoldable pub cycle : Options → Action (World ports) Report
  unfolding sync_fleet_access confirm_suspects plan run_plan by_id
  cycle opts = do
    t ← now ports
    nodes ← ask ports (λ r. Request.listed) ports.list_nodes
    synced ←
        if not opts.dry_run && opts.access_sync_enabled then sync_fleet_access nodes t 0 else done 0
    recs ← try (ask ports (λ r. Request.read_recommendations) ports.recommendations)
    probes ← confirm_suspects opts (recs_or_none recs) nodes
    act opts (plan ports.parse (input_of t (recs_or_none recs) nodes probes) opts.thresholds) nodes
        t synced
