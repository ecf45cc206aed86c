-- ===== src/ControlPlane/Service/Signals/Ingest.antt =====
-- `Ingest` moves the nodes as field signals may.
use casper_vpn.Base.{
  String, Bool, true, false, Option, none, some, List, [], ◌∷◌, ◌≡◌, refl, subst, ◌<◌, inl, inr,
  ltb, is_zero, arith, Bool-cases, Option-cases, All, All-map_into,
}
use casper_vpn.Map.{Map, lookup, entries, empty, lookup-insert_cases, All-entries}
use casper_vpn.Orchestrator.Policy.{NodeStatus}
use casper_vpn.ControlPlane.Contracts.{Node, same_node_status, Error, Result, ok, err}
use casper_vpn.ControlPlane.Action.{Action, ◌>>=◌, ◌>>◌, Yields, >>=-Yields}
use casper_vpn.ControlPlane.Store.State.{SignalAggregate, NodeStatusChange, Verdict}
use casper_vpn.ControlPlane.Store.Nodes.{get_node, add_aggregate}
use casper_vpn.ControlPlane.Service.Environment.{Environment, World, in_store}
use casper_vpn.ControlPlane.Service.Moves.{
  Touches, then-Touches, and_then-Touches, in_store-Touches, done-Touches, fail-Touches,
  try-Touches, choice-Touches, then_at, then-Yields,
}
use casper_vpn.ControlPlane.Service.Nodes.{after_change, set_status_if_changed}
use casper_vpn.ControlPlane.Service.Nodes.Records.{enqueue-Touches, record_rotation-Touches}
use casper_vpn.ControlPlane.Service.Signals.{
  classify, rank, raise, verdict_or_unset, is_field, target_of, store_aggregates, changed_to,
  move_to, apply_verdict, go_on, apply_verdicts, ingest,
}
use casper_vpn.ControlPlane.Service.Signals.Fields.{
  Worsens, Became, Worsened, worsened, same_nodes-Worsened, set_status-Worsened, target-Worsens,
}

module _ (env : Environment) (id : String) where
  after_change-Touches :
      (prev : NodeStatus) (k : String) (to : NodeStatus) (reason actor : String)
      → Touches (worsened id) (after_change env prev k to reason actor)
  after_change-Touches prev k to reason actor =
      and_then-Touches _ _
        (record_rotation-Touches env (worsened id) (same_nodes-Worsened id) _ _ _ _ _ _)
        (and_then-Touches _ _ (enqueue-Touches env (worsened id) (same_nodes-Worsened id) k)
          (done-Touches _))

  changed_to-Touches :
      (k : String) (to : NodeStatus) (r : NodeStatus × Bool)
      → Touches (worsened id) (changed_to env k to r)
  changed_to-Touches k to (from, true) = done-Touches _
  changed_to-Touches k to (from, false) = done-Touches _

  set_status_if_changed-Worsened :
      (k : String) (to : NodeStatus) (reason actor : String) (n : Node) (w : World env)
      → lookup k w.store.nodes ≡ some n
      → Worsens n.status to
      → Worsened id w.store
          ((set_status_if_changed env k to reason actor >>= changed_to env k to) w).1.store
  unfolding set_status_if_changed
  set_status_if_changed-Worsened k to reason actor n w e moves =
      then_at _ _ w
        (then_at _ _ w (set_status-Worsened id k to n w.store e moves) (λ prev.
          choice-Touches (same_node_status prev to) _ _ (done-Touches _)
            (after_change-Touches prev k to reason actor)))
        (λ r. changed_to-Touches k to r)

  move_to-Worsened :
      (k : String) (n : Node) (v : Verdict) (actor : String) (w : World env) (o : Option NodeStatus)
      → lookup k w.store.nodes ≡ some n
      → is_field n.status ≡ true
      → 0 < rank v
      → target_of n.status v ≡ o
      → Worsened id w.store (move_to env o n.status k v actor w).1.store
  move_to-Worsened k n v actor w none e f r h = same_nodes-Worsened id w.store w.store refl
  move_to-Worsened k n v actor w (some to) e f r h =
      elim (Bool-cases (same_node_status to n.status)) [
        | inl q ↦ rw q (same_nodes-Worsened id w.store w.store refl)
        | inr q ↦ rw q (
            set_status_if_changed-Worsened k to _ actor n w e
              (target-Worsens n.status to v f r h q))
      ]

  apply_verdict-Touches :
      (k : String) (v : Verdict) (actor : String)
      → 0 < rank v
      → Touches (worsened id) (apply_verdict env k v actor)
  unfolding apply_verdict ◌>>=◌ get_node
  apply_verdict-Touches k v actor r = record {
    holds = λ w. elim (Option-cases (lookup k w.store.nodes)) [
      | inl e ↦ rw e (same_nodes-Worsened id w.store w.store refl)
      | inr (n, e) ↦ elim (Bool-cases (is_field n.status)) [
        | inr f ↦ rw (e, f) (same_nodes-Worsened id w.store w.store refl)
        | inl f ↦ rw (e, f) (move_to-Worsened k n v actor w (target_of n.status v) e f r refl)
      ]
    ];
  }

  go_on-Touches :
      (later : Action (World env) (List NodeStatusChange))
      → Touches (worsened id) later
      → (r : Result (Option NodeStatusChange)) → Touches (worsened id) (go_on env later r)
  go_on-Touches later h (ok c) = then-Touches _ _ h (λ cs. done-Touches _)
  go_on-Touches later h (err Error.not_found) = h
  go_on-Touches later h (err _) = fail-Touches _

  apply_verdicts-Touches :
      (es : List (String × Verdict)) (actor : String)
      → All (λ e. 0 < rank e.1) es
      → Touches (worsened id) (apply_verdicts env es actor)
  unfolding apply_verdicts
  apply_verdicts-Touches [] actor a = done-Touches _
  apply_verdicts-Touches ((k, v) ∷ rest) actor a =
      then-Touches _ _ (try-Touches _ (apply_verdict-Touches k v actor a.0))
        (go_on-Touches _ (apply_verdicts-Touches rest actor a.1))

  -- The verdicts that the first loop keeps have a positive rank.
  Positive : Map Verdict → Type 0
  Positive m = (k : String) (v : Verdict) → lookup k m ≡ some v → 0 < rank v

  raise-Positive :
      (k : String) (v : Verdict) (m : Map Verdict) → Positive m → Positive (raise k v m)
  unfolding raise Positive
  raise-Positive k v m h = elim (Bool-cases (ltb (rank (verdict_or_unset (lookup k m))) (rank v))) [
    | inr e ↦ rw e h
    | inl e ↦ rw e (λ j x g. elim (lookup-insert_cases k v m j x g) [
      | inl p ↦ subst (λ y. 0 < rank y) p.1 (ground arith)
      | inr p ↦ h j x p.1
    ])
  ]

  none-Positive : Positive empty
  unfolding Positive lookup
  none-Positive k v h = cc

  store_aggregates-Yields :
      (signals : List SignalAggregate) (m : Map Verdict)
      → Positive m
      → Yields Positive (store_aggregates env signals m)
  unfolding store_aggregates Yields ◌>>◌
  store_aggregates-Yields [] m h = λ s t a e. subst Positive (cc e) h
  store_aggregates-Yields (x ∷ rest) m h = elim (Bool-cases (is_zero x.total)) [
    | inl e ↦ rw e (store_aggregates-Yields rest m h)
    | inr e ↦ rw e (
        >>=-Yields Positive (in_store env (add_aggregate x)) _
          (λ u. store_aggregates-Yields rest _ (raise-Positive x.node_id (classify x).1 m h)))
  ]

  store_aggregates-Touches :
      (signals : List SignalAggregate) (m : Map Verdict)
      → Touches (worsened id) (store_aggregates env signals m)
  unfolding store_aggregates add_aggregate
  store_aggregates-Touches [] m = done-Touches _
  store_aggregates-Touches (x ∷ rest) m =
      choice-Touches (is_zero x.total) _ _ (store_aggregates-Touches rest m) (
        and_then-Touches _ _ (in_store-Touches _ (λ s. same_nodes-Worsened id s _ refl))
          (store_aggregates-Touches rest _))

  entries-Positive : (m : Map Verdict) → Positive m → All (λ e. 0 < rank e.1) (entries m)
  unfolding Positive
  entries-Positive m h = All-map_into (λ e p. h e.0 e.1 p) (entries m) (All-entries m)

  -- Whatever telemetry reports, and wherever the handler fails: each node of the registry after
  -- `Ingest` was there before it and has changed in nothing but its status, and its status is
  -- unchanged, or went from active or degraded to degraded or blocked. So no operator's state is
  -- overwritten, no block is lifted, and no node is brought into service.
  pub ingest_worsens :
      (signals : List SignalAggregate) (actor : String) (w : World env) (new : Node)
      → lookup id (ingest env signals actor w).1.store.nodes ≡ some new
      → (old : Node) × (lookup id w.store.nodes ≡ some old) × Became old new
  unfolding ingest Worsened Positive
  ingest_worsens signals actor w =
      (then-Yields Positive (store_aggregates env signals empty) _
          (store_aggregates-Touches signals empty)
          (store_aggregates-Yields signals empty none-Positive)
          (λ worst h.
            apply_verdicts-Touches (entries worst) actor (entries-Positive worst h))).holds
        w
