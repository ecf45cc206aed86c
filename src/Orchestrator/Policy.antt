-- ===== src/Orchestrator/Policy.antt =====
-- services/orchestrator/internal/policy/policy.go, with the contract types that it reads
-- (packages/contracts/node.go, recommendation.go, signal.go). A difference of two times is compared
-- as a sum, `started + grace ≤ now` for `now.Sub(started) >= grace`, so a time in the future counts as
-- in the code. A reason is data here; its English text is not modelled.
pub mod Safety
pub mod Budget
use casper_vpn.Base.{
  String, ℕ, suc, Time, Duration, Bool, true, false, not, Option, none, some, List, [], ◌∷◌, ◌++◌,
  ◌+◌, ◌&&◌, ◌||◌, ◌==◌, ltb, leb, nat_eq, after, before, is_zero, is_some, if◌then◌else◌, sort_by,
}
use casper_vpn.Map.{Map, lookup, insert, empty}

-- `contracts.NodeStatus`, `NodeRole` and the node fields that the orchestrator uses.
pub data NodeStatus : Type 0 where
  provisioning active degraded blocked draining retired : NodeStatus
  other : String → NodeStatus

pub record Node : Type 0 where
  pub id : String
  pub status : NodeStatus
  pub ephemeral_entry_ip : Bool
  pub rotate_after : Option Time
  pub labels : Map String

pub data Confidence : Type 0 where
  authoritative corroborated : Confidence
  unknown : String → Confidence

pub data BlockAction : Type 0 where
  mark_node_blocked prioritize_transport : BlockAction
  other : String → BlockAction

pub record NodeBlock : Type 0 where
  pub action : BlockAction
  pub node_id : String
  pub regions : List String
  pub confidence : Confidence
  pub reason : String

-- `NodeBlock.Validate`: whether there is no error.
abbrev marks_blocked : BlockAction → Bool
marks_blocked mark_node_blocked = true
marks_blocked _ = false

abbrev known_confidence : Confidence → Bool
known_confidence (unknown s) = false
known_confidence _ = true

abbrev is_empty : List String → Bool
is_empty [] = true
is_empty (x ∷ xs) = false

unfoldable pub valid_block : NodeBlock → Bool
valid_block b =
    marks_blocked b.action
    && not (b.node_id == "")
    && not (is_empty b.regions)
    && known_confidence b.confidence

pub record Recommendations : Type 0 where
  pub generated_at : Time
  pub node_blocks : List NodeBlock

pub data HealthStatus : Type 0 where
  healthy degraded blocked unreachable : HealthStatus
  other : String → HealthStatus

pub record HealthEvent : Type 0 where
  pub status : HealthStatus
  pub observed_at : Time

pub data ActionType : Type 0 where
  noop mark_degraded rotate replace retire : ActionType

unfoldable pub side_effecting : ActionType → Bool
side_effecting rotate = true
side_effecting replace = true
side_effecting retire = true
side_effecting _ = false

-- Why an action is planned, or a stronger one withheld.
pub data Reason : Type 0 where
  unknown_node stale_recommendations : Reason
  already : NodeStatus → Reason
  unconfirmed probe_too_old probe_disagrees unknown_confidence : Reason
  already_degraded : Reason → Reason
  blocked_in : Confidence → String → Reason
  scheduled_rotation : Time → Reason
  no_drain_timestamp : Reason
  grace_elapsed : Time → Reason
  deferred : ActionType → Reason → Reason

pub record Action : Type 0 where
  pub type : ActionType
  pub node_id : String
  pub regions : List String
  pub reason : Reason

pub record Thresholds : Type 0 where
  pub recommendation_max_age : Duration
  pub probe_max_age : Duration
  pub drain_grace : Duration
  pub max_actions_per_cycle : ℕ

abbrev pub drain_started_label : String
drain_started_label = "orchestrator.drain_started_at"

pub record Input : Type 0 where
  pub now : Time
  pub recs : Recommendations
  pub nodes : List Node
  pub probes : Map HealthEvent

-- `gatePassed`: `none` lets the block pass, a reason holds it back.
abbrev pub shows_block : HealthStatus → Bool
shows_block HealthStatus.blocked = true
shows_block unreachable = true
shows_block _ = false

abbrev pub probe_gate : Option HealthEvent → Time → Duration → Option Reason
probe_gate none now max_age = some unconfirmed
probe_gate (some ev) now max_age =
    if after now (ev.observed_at + max_age)
    then some probe_too_old
    else if not (shows_block ev.status)
    then some probe_disagrees
    else none

abbrev pub confidence_gate : Confidence → String → Map HealthEvent → Time → Duration → Option Reason
confidence_gate authoritative id probes now max_age = none
confidence_gate corroborated id probes now max_age = probe_gate (lookup id probes) now max_age
confidence_gate (unknown s) id probes now max_age = some unknown_confidence

unfoldable pub gate : NodeBlock → Map HealthEvent → Time → Duration → Option Reason
gate b probes now max_age = confidence_gate b.confidence b.node_id probes now max_age

unfoldable pub replace_or_rotate : Node → ActionType
replace_or_rotate n = if n.ephemeral_entry_ip then rotate else replace

-- `byID`: of nodes with one id the last is kept.
unfoldable pub index : List Node → Map Node → Map Node
index [] m = m
index (n ∷ ns) m = index ns (insert n.id n m)

unfoldable pub recs_fresh : Input → Thresholds → Bool
recs_fresh input th =
    not (is_zero input.recs.generated_at)
    && not (after input.now (input.recs.generated_at + th.recommendation_max_age))

-- The statuses that no recommendation touches.
abbrev pub is_settled : NodeStatus → Bool
is_settled draining = true
is_settled retired = true
is_settled provisioning = true
is_settled _ = false

abbrev pub is_degraded : NodeStatus → Bool
is_degraded NodeStatus.degraded = true
is_degraded _ = false

abbrev pub is_active : NodeStatus → Bool
is_active active = true
is_active _ = false

abbrev pub is_draining : NodeStatus → Bool
is_draining draining = true
is_draining _ = false

abbrev act : ActionType → NodeBlock → Reason → Action
act type b reason = record {
  type = type;
  node_id = b.node_id;
  regions = b.regions;
  reason = reason;
}

-- The action that a valid block on a node leads to.
abbrev pub gated : Option Reason → NodeBlock → Node → Action
gated (some why) b node =
    if is_degraded node.status then act noop b (already_degraded why) else act mark_degraded b why
gated none b node = act (replace_or_rotate node) b (blocked_in b.confidence b.reason)

abbrev pub on_node : Option Node → NodeBlock → Input → Thresholds → Action
on_node none b input th = act noop b unknown_node
on_node (some node) b input th =
    if not (recs_fresh input th)
    then act noop b stale_recommendations
    else if is_settled node.status
    then act noop b (already node.status)
    else gated (gate b input.probes input.now th.probe_max_age) b node

-- The nodes already decided, and the actions so far.
pub record Draft : Type 0 where
  pub planned : Map (Unit {0})
  pub out : List Action

unfoldable pub add : Action → Draft → Draft
add a d = record { planned = insert a.node_id tt d.planned; out = d.out ++ a ∷ [] }

-- 1. Decisions that telemetry drives. A malformed block drives none.
unfoldable pub plan_blocks : List NodeBlock → Map Node → Input → Thresholds → Draft → Draft
unfolding add valid_block recs_fresh gate replace_or_rotate
plan_blocks [] by_id input th d = d
plan_blocks (b ∷ bs) by_id input th d =
    plan_blocks bs by_id input th
      (if valid_block b then add (on_node (lookup b.node_id by_id) b input th) d else d)

abbrev node_action : ActionType → Node → Reason → Action
node_action type n reason = record { type = type; node_id = n.id; regions = []; reason = reason }

-- 2. Scheduled rotation.
abbrev pub due_rotation : Option Time → Node → Time → Option Action
due_rotation none n now = none
due_rotation (some at) n now =
    if before now at
    then none
    else if is_active n.status || is_degraded n.status
    then some (node_action rotate n (scheduled_rotation at))
    else none

abbrev pub add_option : Option Action → Draft → Draft
add_option none d = d
add_option (some a) d = add a d

unfoldable pub plan_rotations : List Node → Time → Draft → Draft
unfolding add
plan_rotations [] now d = d
plan_rotations (n ∷ ns) now d = plan_rotations ns now (
    if is_some (lookup n.id d.planned) then d else add_option (due_rotation n.rotate_after n now) d)

abbrev pub label_or_empty : Option String → String
label_or_empty none = ""
label_or_empty (some s) = s

-- 3. Drained nodes are retired after the grace period. `parse` is `time.Parse(time.RFC3339, ·)`.
abbrev pub due_retirement : Option Time → Node → Time → Duration → Option Action
due_retirement none n now grace = some (node_action noop n no_drain_timestamp)
due_retirement (some started) n now grace =
    if leb (started + grace) now then some (node_action retire n (grace_elapsed started)) else none

-- `capSideEffects` sorts the harmless actions first, then by `rank`.
abbrev rank : ActionType → ℕ
rank retire = 0
rank rotate = 1
rank replace = 2
rank _ = 3

abbrev pub action_before : Action → Action → Bool
action_before a b =
    if side_effecting a.type
    then side_effecting b.type && ltb (rank a.type) (rank b.type)
    else side_effecting b.type || ltb (rank a.type) (rank b.type)

abbrev pub defer : Action → Action
defer a = record a { type = noop; reason = deferred a.type a.reason }

-- The loop over the sorted actions, with the number of side effects so far.
unfoldable pub keep_capped : ℕ → ℕ → List Action → List Action
unfolding side_effecting
keep_capped max side [] = []
keep_capped max side (a ∷ rest) =
    let full = side_effecting a.type && leb max side in
    let next = if side_effecting a.type && not (leb max side) then suc side else side in
    (if full then defer a else a) ∷ keep_capped max next rest

unfoldable pub cap_side_effects : List Action → ℕ → List Action
unfolding keep_capped sort_by side_effecting
cap_side_effects actions max =
    keep_capped (if nat_eq max 0 then 1 else max) 0 (sort_by action_before actions)

module _ (parse : String → Option Time) where
  unfoldable pub plan_retirements : List Node → Time → Duration → Draft → Draft
  unfolding add
  plan_retirements [] now grace d = d
  plan_retirements (n ∷ ns) now grace d =
      let started = parse (label_or_empty (lookup drain_started_label n.labels)) in
      plan_retirements ns now grace (
        if is_some (lookup n.id d.planned) || not (is_draining n.status)
        then d
        else add_option (due_retirement started n now grace) d)

  -- The draft before the cap.
  unfoldable pub draft : Input → Thresholds → Draft
  unfolding plan_blocks plan_rotations plan_retirements index
  draft input th =
      let d₁ =
        plan_blocks input.recs.node_blocks (index input.nodes empty) input th
          (record { planned = empty; out = [] }) in
      plan_retirements input.nodes input.now th.drain_grace
        (plan_rotations input.nodes input.now d₁)

  -- `Plan`
  unfoldable pub plan : Input → Thresholds → List Action
  unfolding draft cap_side_effects
  plan input th = cap_side_effects (draft input th).out th.max_actions_per_cycle
