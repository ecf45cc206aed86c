-- ===== src/ControlPlane/Service/Signals.antt =====
-- usecase/signals.go: from telemetry's aggregates to the status of nodes. The shares are compared by
-- multiplying out: below 2^50 observations the quotients of Go's float64 compare with 0.5 and 0.3 as the
-- fractions do. The nodes of `worst` are gone through in the order of the association list.
pub mod Fields
pub mod Ingest
use casper_vpn.Base.{
  String, ℕ, Bool, true, false, not, Option, none, some, List, [], ◌∷◌, ◌+◌, ◌-◌, ◌*◌, ◌&&◌, ◌||◌,
  ltb, leb, nat_eq, is_zero, if◌then◌else◌, concat,
}
use casper_vpn.Map.{Map, lookup, insert, entries, empty}
use casper_vpn.Orchestrator.Policy.{NodeStatus}
use casper_vpn.ControlPlane.Contracts.{Node, same_node_status, Error, not_found, Result, ok, err}
use casper_vpn.ControlPlane.Action.{Action, ◌>>=◌, ◌>>◌, done, fail, try}
use casper_vpn.ControlPlane.Store.State.{
  State, SignalType, SignalAggregate, Verdict, NodeStatusChange,
}
use casper_vpn.ControlPlane.Store.Nodes.{get_node, add_aggregate}
use casper_vpn.ControlPlane.Service.Environment.{Environment, World, in_store}
use casper_vpn.ControlPlane.Service.Nodes.{set_status_if_changed}

-- `blockClassSignals`
abbrev pub block_class : SignalType → Bool
block_class SignalType.ok = false
block_class SignalType.throttle = false
block_class (SignalType.other s) = false
block_class _ = true

abbrev pub counts_ok : SignalType → Bool
counts_ok SignalType.ok = true
counts_ok _ = false

unfoldable pub sum_of : (SignalType → Bool) → List (SignalType × ℕ) → ℕ
sum_of p [] = 0
sum_of p ((t, c) ∷ rest) = (if p t then c else 0) + sum_of p rest

-- `classify`: failures below 0 count as 0.
unfoldable pub classify : SignalAggregate → ℕ × Verdict
unfolding sum_of
classify a =
    let blocks = sum_of block_class a.by_signal in
    let failures = a.total - sum_of counts_ok a.by_signal in
    if leb a.total (2 * blocks)
    then (blocks, Verdict.blocked)
    else if leb (3 * a.total) (10 * failures)
    then (blocks, Verdict.degraded)
    else (blocks, Verdict.healthy)

abbrev pub rank : Verdict → ℕ
rank Verdict.blocked = 2
rank Verdict.degraded = 1
rank _ = 0

-- `string(verdict)`
abbrev verdict_name : Verdict → String
verdict_name Verdict.blocked = "blocked"
verdict_name Verdict.degraded = "degraded"
verdict_name Verdict.healthy = "healthy"
verdict_name Verdict.unset = ""

abbrev verdict_or_unset : Option Verdict → Verdict
verdict_or_unset none = Verdict.unset
verdict_or_unset (some v) = v

unfoldable pub raise : String → Verdict → Map Verdict → Map Verdict
raise id v worst =
    if ltb (rank (verdict_or_unset (lookup id worst))) (rank v) then insert id v worst else worst

-- The statuses that field signals move.
abbrev pub is_field : NodeStatus → Bool
is_field NodeStatus.active = true
is_field NodeStatus.degraded = true
is_field NodeStatus.blocked = true
is_field _ = false

-- Where a verdict takes a node of this status, if anywhere.
unfoldable pub target_of : NodeStatus → Verdict → Option NodeStatus
target_of cur Verdict.blocked = some NodeStatus.blocked
target_of cur Verdict.degraded =
    if same_node_status cur NodeStatus.blocked then none else some NodeStatus.degraded
target_of cur _ = if same_node_status cur NodeStatus.blocked then none else some NodeStatus.active

module _ (env : Environment) where
  -- The first loop of `Ingest`: it stores the aggregates and returns the worst verdicts.
  unfoldable pub store_aggregates :
      List SignalAggregate → Map Verdict → Action (World env) (Map Verdict)
  unfolding classify raise add_aggregate
  store_aggregates [] worst = done worst
  store_aggregates (a ∷ rest) worst =
      if is_zero a.total
      then store_aggregates rest worst
      else in_store env (add_aggregate a)
        >> store_aggregates rest (raise a.node_id (classify a).1 worst)

  abbrev pub changed_to :
      String → NodeStatus → NodeStatus × Bool → Action (World env) (Option NodeStatusChange)
  changed_to id to (from, true) = done (some (record { node_id = id; from = from; to = to }))
  changed_to id to (from, false) = done none

  abbrev pub move_to :
      Option NodeStatus
      → NodeStatus
      → String
      → Verdict
      → String
      → Action (World env) (Option NodeStatusChange)
  move_to none cur id v actor = done none
  move_to (some to) cur id v actor =
      if same_node_status to cur
      then done none
      else set_status_if_changed env id to (concat "field-signal:" (verdict_name v)) actor
        >>= changed_to id to

  -- `applyVerdict`, once the node is known.
  abbrev pub apply_to_node :
      String → Verdict → String → Node → Action (World env) (Option NodeStatusChange)
  unfolding target_of
  apply_to_node id v actor n =
      if not (is_field n.status)
      then done none
      else move_to (target_of n.status v) n.status id v actor

  unfoldable pub apply_verdict :
      String → Verdict → String → Action (World env) (Option NodeStatusChange)
  unfolding target_of set_status_if_changed get_node
  apply_verdict id v actor = in_store env (get_node id) >>= apply_to_node id v actor

  abbrev pub with_change : Option NodeStatusChange → List NodeStatusChange → List NodeStatusChange
  with_change none changes = changes
  with_change (some c) changes = c ∷ changes

  -- A node that is gone is skipped; any other error ends the loop.
  abbrev pub go_on :
      Action (World env) (List NodeStatusChange)
      → Result (Option NodeStatusChange)
      → Action (World env) (List NodeStatusChange)
  go_on later (ok c) = later >>= λ cs. done (with_change c cs)
  go_on later (err not_found) = later
  go_on later (err e) = fail e

  unfoldable pub apply_verdicts :
      List (String × Verdict) → String → Action (World env) (List NodeStatusChange)
  unfolding apply_verdict
  apply_verdicts [] actor = done []
  apply_verdicts ((id, v) ∷ rest) actor =
      try (apply_verdict id v actor) >>= go_on (apply_verdicts rest actor)

  unfoldable pub ingest : List SignalAggregate → String → Action (World env) (List NodeStatusChange)
  unfolding store_aggregates apply_verdicts entries
  ingest aggregates actor = do
    worst ← store_aggregates aggregates empty
    apply_verdicts (entries worst) actor
