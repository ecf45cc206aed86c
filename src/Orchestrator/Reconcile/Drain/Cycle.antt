-- ===== src/Orchestrator/Reconcile/Drain/Cycle.antt =====
-- Each step of a cycle lets old nodes drain only when their replacement serves.
use casper_vpn.Base.{
  String, ℕ, suc, Time, Bool, true, false, not, Option, none, some, List, [], ◌∷◌, ◌≡◌, refl, ◌&&◌,
  inl, inr, Bool-cases,
}
use casper_vpn.Map.{Map, lookup, insert, empty}
use casper_vpn.Orchestrator.Policy.{NodeStatus, NodeBlock, Recommendations, ActionType}
use casper_vpn.Orchestrator.Policy
use casper_vpn.Orchestrator.Ports.{Ports, World, Verdict, Request, outcome}
use casper_vpn.ControlPlane.Contracts.{same_node_status, is_entry, Node, Error, Result, ok, err}
use casper_vpn.ControlPlane.Action.{Action, next, ◌>>=◌, ◌>>◌, Moves, reject_if}
use casper_vpn.Orchestrator.Reconcile.{
  Options, or_default, by_id, sync_fleet_access, tell, note, suspect, is_probed, confirm,
  confirm_suspects, old_pair, draining_since, drain, rotate_entry, replace_pair, mark_retired,
  retire_node, execute, node_or_blank, is_noop, run_plan, recs_or_none, input_of, act, cycle,
  is_active,
}
use casper_vpn.Orchestrator.Reconcile.Drain.{
  Replaced, verified, written, OnlyReplaced, Kept, chain, after_that, done-Kept, fail-Kept,
  reject_if-Kept, now-Kept, try-Kept, ignore-Kept, choice-Kept, Fits, ask-Kept, order-Kept,
  update-Kept, get-Kept,
}
use casper_vpn.ControlPlane.Service.Environment.{draw-cases}

module _ (ports : Ports) where
  -- After a replacement the old nodes may drain.
  drain-Kept :
      (t : Time) (ns : List Node) (w : World ports)
      → Replaced w.log
      → OnlyReplaced w.log
      → OnlyReplaced (drain ports t ns w).1.log
  unfolding drain OnlyReplaced ◌>>◌ ◌>>=◌
  drain-Kept t [] w r h = h
  drain-Kept t (n ∷ ns) w r h =
      wrote (drain-Kept t ns) (ports.update_node (draining_since ports t n) w.outside)
    where
      wrote :
          ((v : World ports)
            → Replaced v.log
            → OnlyReplaced v.log
            → OnlyReplaced (drain ports t ns v).1.log)
          → (o : Bool × Ports.Outside ports)
          → OnlyReplaced
              (next
                (λ _. drain ports t ns)
                (outcome ports (Request.updated (draining_since ports t n)) o w.log)).1.log
      wrote rest (false, o) = (λ d. r, h)
      wrote rest (true, o) =
          rest
            (record { outside = o; log = Request.updated (draining_since ports t n) true ∷ w.log })
            (written (draining_since ports t n) true w.log r) (λ d. r, h)

  replace-Kept :
      (opts : Options) (n : Node) (fleet : Map Node) (t : Time)
      → Moves (Kept ports) (replace_pair ports opts n fleet t)
  unfolding Kept replace_pair ◌>>=◌ ◌>>◌ OnlyReplaced
  replace-Kept opts n fleet t = record { holds = replaced }
    where
      region : String
      region = or_default n.region opts.default_region

      cloud : String
      cloud = or_default n.cloud opts.default_cloud

      replaced :
          (w : World ports)
          → OnlyReplaced w.log
          → OnlyReplaced (replace_pair ports opts n fleet t w).1.log
      replaced w h = elim (draw-cases (ports.node_up region cloud w.outside)) [
        | inl (o, d) ↦ rw d h
        | inr (pair, o, d) ↦ elim (draw-cases (ports.get_node pair.entry_id o)) [
          | inl (o', e) ↦ rw (d, e) h
          | inr (entry, o', e) ↦ elim (Bool-cases (is_active entry)) [
            | inr a ↦ rw (d, e, a) h
            | inl a ↦ elim (draw-cases (ports.get_node pair.exit_id o')) [
              | inl (x, f) ↦ rw (d, e, a, f) h
              | inr (exit, x, f) ↦ elim (Bool-cases (is_active exit)) [
                | inr b ↦ rw (d, e, a, f, b) h
                | inl b ↦
                    rw (d, e, a, f, b)
                      (drain-Kept t (old_pair n fleet) _
                        (verified region cloud pair entry exit w.log a b) h)
              ]
            ]
          ]
        ]
      ]

  -- A node that was read as active is no draining one.
  active_is_calm :
      (st : NodeStatus)
      → same_node_status st NodeStatus.active ≡ true
      → Policy.is_draining st ≡ false
  active_is_calm NodeStatus.draining h = cc
  active_is_calm _ h = refl

  guarded-Kept :
      {B : Type 0} (b : Bool) (e : Error) (k : Action (World ports) B)
      → (b ≡ false → Moves (Kept ports) k)
      → Moves (Kept ports) (reject_if b e >> k)
  unfolding Kept ◌>>◌ ◌>>=◌
  guarded-Kept true e k h = record { holds = λ w x. x }
  guarded-Kept false e k h = record { holds = λ w. (h refl).holds w }

  not-false : (b : Bool) → not b ≡ false → b ≡ true
  not-false true h = refl
  not-false false h = cc

  rotate-Kept :
      (opts : Options) (id : String) (n : Node) (t : Time)
      → Moves (Kept ports) (rotate_entry ports opts id n t)
  unfolding rotate_entry Fits OnlyReplaced
  rotate-Kept opts id n t =
      after_that ports _ _
        (order-Kept ports (Request.rotated n) (ports.node_rotate n) (λ b log h. h))
        (chain ports _ _ (get-Kept ports id) (λ fresh. guarded-Kept _ _ _ (λ moved.
          guarded-Kept _ _ _ (λ serves.
            update-Kept ports _
              (active_is_calm fresh.status (not-false (is_active fresh) serves))))))

  mark_retired-Kept : (r : Result Node) → Moves (Kept ports) (mark_retired ports r)
  mark_retired-Kept (err e) = done-Kept ports tt
  mark_retired-Kept (ok n) =
      choice-Kept ports (same_node_status n.status NodeStatus.retired) _ _ (done-Kept ports tt)
        (update-Kept ports (record n { status = NodeStatus.retired }) refl)

  retire-Kept : (id : String) (n : Node) → Moves (Kept ports) (retire_node ports id n)
  unfolding retire_node Fits OnlyReplaced
  retire-Kept id n =
      after_that ports _ _ (order-Kept ports (Request.downed n) (ports.node_down n) (λ b log h. h))
        (chain ports _ _ (try-Kept ports _ (get-Kept ports id)) (λ r. mark_retired-Kept r))

  execute-Kept :
      (opts : Options) (type : ActionType) (id : String) (n : Node) (fleet : Map Node) (t : Time)
      → Moves (Kept ports) (execute ports opts type id n fleet t)
  unfolding execute
  execute-Kept opts ActionType.mark_degraded id n fleet t =
      update-Kept ports (record n { status = NodeStatus.degraded }) refl
  execute-Kept opts ActionType.rotate id n fleet t = rotate-Kept opts id n t
  execute-Kept opts ActionType.replace id n fleet t = replace-Kept opts n fleet t
  execute-Kept opts ActionType.retire id n fleet t = retire-Kept id n
  execute-Kept opts ActionType.noop id n fleet t = fail-Kept ports Error.failure

  run_plan-Kept :
      (opts : Options) (actions : List Policy.Action) (fleet : Map Node) (t : Time) (executed : ℕ)
      → Moves (Kept ports) (run_plan ports opts actions fleet t executed)
  unfolding run_plan
  run_plan-Kept opts [] fleet t executed = done-Kept ports executed
  run_plan-Kept opts (a ∷ rest) fleet t executed =
      choice-Kept ports (is_noop ports a.type) _ _ (run_plan-Kept opts rest fleet t executed) (
        after_that ports _ _
          (execute-Kept opts a.type a.node_id (node_or_blank (lookup a.node_id fleet)) fleet t)
          (run_plan-Kept opts rest fleet t _))

  sync-Kept :
      (ns : List Node) (t : Time) (count : ℕ)
      → Moves (Kept ports) (sync_fleet_access ports ns t count)
  unfolding sync_fleet_access Fits OnlyReplaced
  sync-Kept [] t count = done-Kept ports count
  sync-Kept (n ∷ ns) t count =
      choice-Kept ports (not (is_entry n.role && is_active n)) _ _ (sync-Kept ns t count) (
        after_that ports _ _
          (chain ports _ _
            (ask-Kept ports (λ r. Request.read_access) (ports.access_users n.id) (λ o log h. h))
            (λ snapshot.
              after_that ports _ _ (reject_if-Kept ports _ _) (
                order-Kept ports (Request.synced n) (ports.sync_access n snapshot) (λ b log h. h))))
          (sync-Kept ns t (suc count)))

  tell-Kept : (dry : Bool) (v : Verdict) → Moves (Kept ports) (tell ports dry v)
  unfolding Fits OnlyReplaced
  tell-Kept true v = done-Kept ports tt
  tell-Kept false v =
      ignore-Kept ports _
        (order-Kept ports (λ b. Request.reported v) (ports.report_health v) (λ b log h. h))

  note-Kept :
      (dry : Bool) (id : String) (out : Map Verdict) (r : Result Verdict)
      → Moves (Kept ports) (note ports dry id out r)
  note-Kept dry id out (ok v) =
      after_that ports _ _ (tell-Kept dry v) (done-Kept ports (insert id v out))
  note-Kept dry id out (err e) = done-Kept ports out

  suspect-Kept :
      (dry : Bool) (b : NodeBlock) (o : Option Node) (out : Map Verdict)
      → Moves (Kept ports) (suspect ports dry b o out)
  unfolding Fits OnlyReplaced
  suspect-Kept dry b none out = done-Kept ports out
  suspect-Kept dry b (some n) out =
      choice-Kept ports (is_probed ports (lookup b.node_id out)) _ _ (done-Kept ports out) (
        chain ports _ _
          (try-Kept ports _ (ask-Kept ports (λ r. Request.probed) (ports.probe n) (λ o log h. h)))
          (note-Kept dry b.node_id out))

  confirm-Kept :
      (dry : Bool) (bs : List NodeBlock) (fleet : Map Node) (out : Map Verdict)
      → Moves (Kept ports) (confirm ports dry bs fleet out)
  unfolding confirm
  confirm-Kept dry [] fleet out = done-Kept ports out
  confirm-Kept dry (b ∷ bs) fleet out =
      chain ports _ _ (suspect-Kept dry b (lookup b.node_id fleet) out) (confirm-Kept dry bs fleet)

  act-Kept :
      (opts : Options) (actions : List Policy.Action) (nodes : List Node) (t : Time) (synced : ℕ)
      → Moves (Kept ports) (act ports opts actions nodes t synced)
  unfolding act
  act-Kept opts actions nodes t synced =
      choice-Kept ports opts.dry_run _ _
        (done-Kept ports
          (record { plan = actions; executed = 0; access_synced = synced; dry_run = true }))
        (chain ports _ _ (run_plan-Kept opts actions (by_id nodes empty) t 0) (λ n.
          done-Kept ports
            (record { plan = actions; executed = n; access_synced = synced; dry_run = false })))

  -- Whatever a cycle observes and wherever it fails, each write of a node as draining in its log comes
  -- after a replacement: the latest requests before it, but for other writes of nodes, provisioned a
  -- pair and then read both its entry and its exit as active. It is assumed that this holds of the
  -- log before the cycle.
  pub drain_after_replacement :
      (opts : Options) (w : World ports)
      → OnlyReplaced w.log
      → OnlyReplaced (cycle ports opts w).1.log
  unfolding cycle confirm_suspects Kept Fits OnlyReplaced
  drain_after_replacement opts w =
      (chain ports _ _ (now-Kept ports) (λ t.
          chain ports _ _ (ask-Kept ports (λ r. Request.listed) ports.list_nodes (λ o log h. h))
            (λ nodes.
              chain ports _ _
                (choice-Kept ports (not opts.dry_run && opts.access_sync_enabled) _ _
                  (sync-Kept nodes t 0) (done-Kept ports 0))
                (λ synced.
                  chain ports _ _
                    (try-Kept ports _ (
                      ask-Kept ports (λ r. Request.read_recommendations) ports.recommendations
                        (λ o log h. h)))
                    (λ recs.
                      chain ports _ _
                        (choice-Kept ports (not opts.probe_enabled) _ _ (done-Kept ports empty) (
                          confirm-Kept opts.dry_run (recs_or_none ports recs).node_blocks
                            (by_id nodes empty) empty))
                        (λ probes.
                          act-Kept opts
                            (Policy.plan ports.parse
                              (input_of ports t (recs_or_none ports recs) nodes probes)
                              opts.thresholds)
                            nodes t synced)))))).holds
        w
