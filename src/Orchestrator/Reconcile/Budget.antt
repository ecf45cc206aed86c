-- ===== src/Orchestrator/Reconcile/Budget.antt =====
-- How often a cycle touches the infrastructure.
use casper_vpn.Base.{
  String, ℕ, suc, Time, Bool, true, false, not, Option, none, some, List, [], ◌∷◌, refl, ◌+◌, ◌≤◌,
  ◌&&◌, ◌==◌, after, inl, inr, if◌then◌else◌, arith, Bool-cases, count_if, max,
}
use casper_vpn.Map.{Map, lookup, insert, empty}
use casper_vpn.Orchestrator.Policy.{
  NodeStatus, NodeBlock, Recommendations, ActionType, side_effecting,
}
use casper_vpn.Orchestrator.Policy
use casper_vpn.Orchestrator.Policy.Budget.{touches, plan-bounded}
use casper_vpn.Orchestrator.Ports.{Ports, World, Verdict, Request}
use casper_vpn.ControlPlane.Contracts.{Node, is_entry, same_node_status, failure, Result, ok, err}
use casper_vpn.ControlPlane.Action.{◌>>◌, Moves}
use casper_vpn.Orchestrator.Reconcile.{
  Options, interval_of, or_default, is_active, by_id, node_or_blank, old_pair, get_node,
  update_node, sync_node, sync_fleet_access, tell, note, is_probed, suspect, confirm,
  confirm_suspects, draining_since, drain, rotate_entry, replace_pair, mark_retired, retire_node,
  execute, is_noop, run_plan, recs_or_none, input_of, act, cycle,
}
use casper_vpn.Orchestrator.Reconcile.Requests.{
  provisions_in, chain, more-Adds, quiet_then, same-Adds, done-Adds, reject-Adds, try-Adds,
  ignore-Adds, choice-Adds, ask-Adds_one, ask-Adds, order-Adds_one, order-Adds, Adds,
}

module _ (ports : Ports) where
  get-Adds : (id : String) → Moves (Adds ports 0) (get_node ports id)
  get-Adds id = ask-Adds ports (Request.got id) (ports.get_node id) (λ o. refl)

  update-Adds : (n : Node) → Moves (Adds ports 0) (update_node ports n)
  update-Adds n = order-Adds ports (Request.updated n) (ports.update_node n) (λ b. refl)

  drain-Adds : (t : Time) (ns : List Node) → Moves (Adds ports 0) (drain ports t ns)
  unfolding drain ◌>>◌
  drain-Adds t [] = done-Adds ports 0 tt
  drain-Adds t (n ∷ ns) =
      quiet_then ports 0 _ _ (update-Adds (draining_since ports t n)) (λ u. drain-Adds t ns)

  rotate-Adds :
      (opts : Options) (id : String) (n : Node) (t : Time)
      → Moves (Adds ports 1) (rotate_entry ports opts id n t)
  unfolding rotate_entry ◌>>◌
  rotate-Adds opts id n t =
      chain ports 1 0 _ _ (order-Adds_one ports (Request.rotated n) (ports.node_rotate n)) (λ u.
        quiet_then ports 0 _ _ (get-Adds id) (λ fresh.
          quiet_then ports 0 _ _ (reject-Adds ports (fresh.entry_ip == n.entry_ip) failure) (λ u.
            quiet_then ports 0 _ _ (reject-Adds ports (not (is_active fresh)) failure)
              (λ u. update-Adds (record fresh { rotate_after = some (t + interval_of opts) })))))

  replace-Adds :
      (opts : Options) (n : Node) (fleet : Map Node) (t : Time)
      → Moves (Adds ports 1) (replace_pair ports opts n fleet t)
  unfolding replace_pair ◌>>◌
  replace-Adds opts n fleet t =
      chain ports 1 0 _ _
        (let region = or_default n.region opts.default_region in
          let cloud = or_default n.cloud opts.default_cloud in
          ask-Adds_one ports (Request.upped region cloud) (ports.node_up region cloud))
        (λ pair. quiet_then ports 0 _ _ (get-Adds pair.entry_id) (λ entry.
          quiet_then ports 0 _ _ (reject-Adds ports (not (is_active entry)) failure) (λ u.
            quiet_then ports 0 _ _ (get-Adds pair.exit_id) (λ exit.
              quiet_then ports 0 _ _ (reject-Adds ports (not (is_active exit)) failure)
                (λ u. drain-Adds t (old_pair n fleet))))))

  mark_retired-Adds : (r : Result Node) → Moves (Adds ports 0) (mark_retired ports r)
  mark_retired-Adds (err e) = done-Adds ports 0 tt
  mark_retired-Adds (ok n) =
      choice-Adds ports 0 (same_node_status n.status NodeStatus.retired) _ _ (done-Adds ports 0 tt)
        (update-Adds (record n { status = NodeStatus.retired }))

  retire-Adds : (id : String) (n : Node) → Moves (Adds ports 1) (retire_node ports id n)
  unfolding retire_node ◌>>◌
  retire-Adds id n =
      chain ports 1 0 _ _ (order-Adds_one ports (Request.downed n) (ports.node_down n))
        (λ u. quiet_then ports 0 _ _ (try-Adds ports 0 _ (get-Adds id)) mark_retired-Adds)

  one_if_touching : ActionType → ℕ
  one_if_touching a = if side_effecting a then 1 else 0

  execute-Adds :
      (opts : Options) (a : ActionType) (id : String) (n : Node) (fleet : Map Node) (t : Time)
      → Moves (Adds ports (one_if_touching a)) (execute ports opts a id n fleet t)
  unfolding execute one_if_touching side_effecting
  execute-Adds opts ActionType.mark_degraded id n fleet t =
      update-Adds (record n { status = NodeStatus.degraded })
  execute-Adds opts ActionType.rotate id n fleet t = rotate-Adds opts id n t
  execute-Adds opts ActionType.replace id n fleet t = replace-Adds opts n fleet t
  execute-Adds opts ActionType.retire id n fleet t = retire-Adds id n
  execute-Adds opts ActionType.noop id n fleet t = same-Adds ports 0 _ (λ w. refl)

  run_plan-Adds :
      (opts : Options) (actions : List Policy.Action) (fleet : Map Node) (t : Time) (executed : ℕ)
      → Moves (Adds ports (count_if touches actions)) (run_plan ports opts actions fleet t executed)
  unfolding run_plan ◌>>◌ one_if_touching
  run_plan-Adds opts [] fleet t executed = done-Adds ports 0 executed
  run_plan-Adds opts (a ∷ rest) fleet t executed = elim (Bool-cases (is_noop ports a.type)) [
    | inl e ↦ rw e (
        more-Adds ports _ _ _ (step (side_effecting a.type) (count_if touches rest))
          (run_plan-Adds opts rest fleet t executed))
    | inr e ↦ rw e (
        more-Adds ports _ _ _ (whole (side_effecting a.type) (count_if touches rest)) (
          chain ports _ _ _ _
            (execute-Adds opts a.type a.node_id (node_or_blank (lookup a.node_id fleet)) fleet t)
            (λ u. run_plan-Adds opts rest fleet t _)))
  ]
    where
      step : (b : Bool) (n : ℕ) → n ≤ (if b then suc n else n)
      step b n = ground arith

      whole : (b : Bool) (n : ℕ) → (if b then 1 else 0) + n ≤ (if b then suc n else n)
      whole b n = ground arith

  sync_node-Adds : (n : Node) (t : Time) → Moves (Adds ports 0) (sync_node ports n t)
  unfolding ◌>>◌
  sync_node-Adds n t =
      quiet_then ports 0 _ _
        (ask-Adds ports (λ r. Request.read_access) (ports.access_users n.id) (λ o. refl))
        (λ snapshot.
          quiet_then ports 0 _ _ (reject-Adds ports (not (after snapshot.valid_until t)) failure)
            (λ u. order-Adds ports (Request.synced n) (ports.sync_access n snapshot) (λ b. refl)))

  sync-Adds :
      (ns : List Node) (t : Time) (count : ℕ)
      → Moves (Adds ports 0) (sync_fleet_access ports ns t count)
  unfolding sync_fleet_access ◌>>◌
  sync-Adds [] t count = done-Adds ports 0 count
  sync-Adds (n ∷ ns) t count =
      choice-Adds ports 0 (not (is_entry n.role && is_active n)) _ _ (sync-Adds ns t count)
        (quiet_then ports 0 _ _ (sync_node-Adds n t) (λ u. sync-Adds ns t (suc count)))

  tell-Adds : (dry : Bool) (v : Verdict) → Moves (Adds ports 0) (tell ports dry v)
  tell-Adds true v = done-Adds ports 0 tt
  tell-Adds false v =
      ignore-Adds ports 0 _
        (order-Adds ports (λ b. Request.reported v) (ports.report_health v) (λ b. refl))

  note-Adds :
      (dry : Bool) (id : String) (out : Map Verdict) (r : Result Verdict)
      → Moves (Adds ports 0) (note ports dry id out r)
  unfolding ◌>>◌
  note-Adds dry id out (ok v) =
      quiet_then ports 0 _ _ (tell-Adds dry v) (λ u. done-Adds ports 0 (insert id v out))
  note-Adds dry id out (err e) = done-Adds ports 0 out

  suspect-Adds :
      (dry : Bool) (b : NodeBlock) (o : Option Node) (out : Map Verdict)
      → Moves (Adds ports 0) (suspect ports dry b o out)
  suspect-Adds dry b none out = done-Adds ports 0 out
  suspect-Adds dry b (some n) out =
      choice-Adds ports 0 (is_probed ports (lookup b.node_id out)) _ _ (done-Adds ports 0 out) (
        quiet_then ports 0 _ _
          (try-Adds ports 0 _ (ask-Adds ports (λ r. Request.probed) (ports.probe n) (λ o. refl)))
          (note-Adds dry b.node_id out))

  confirm-Adds :
      (dry : Bool) (bs : List NodeBlock) (fleet : Map Node) (out : Map Verdict)
      → Moves (Adds ports 0) (confirm ports dry bs fleet out)
  unfolding confirm
  confirm-Adds dry [] fleet out = done-Adds ports 0 out
  confirm-Adds dry (b ∷ bs) fleet out =
      quiet_then ports 0 _ _ (suspect-Adds dry b (lookup b.node_id fleet) out)
        (confirm-Adds dry bs fleet)

  confirm_suspects-Adds :
      (opts : Options) (recs : Recommendations) (nodes : List Node)
      → Moves (Adds ports 0) (confirm_suspects ports opts recs nodes)
  unfolding confirm_suspects
  confirm_suspects-Adds opts recs nodes =
      choice-Adds ports 0 (not opts.probe_enabled) _ _ (done-Adds ports 0 empty)
        (confirm-Adds opts.dry_run recs.node_blocks (by_id nodes empty) empty)

  act-Adds :
      (opts : Options) (actions : List Policy.Action) (nodes : List Node) (t : Time)
      (synced most : ℕ)
      → count_if touches actions ≤ most
      → Moves (Adds ports most) (act ports opts actions nodes t synced)
  unfolding act
  act-Adds opts actions nodes t synced most h =
      choice-Adds ports most opts.dry_run _ _
        (done-Adds ports most
          (record { plan = actions; executed = 0; access_synced = synced; dry_run = true }))
        (more-Adds ports (count_if touches actions + 0) most _ (omega (arith, h)) (
          chain ports (count_if touches actions) 0 _ _
            (run_plan-Adds opts actions (by_id nodes empty) t 0)
            (λ n.
              done-Adds ports 0 (record {
                plan = actions;
                executed = n;
                access_synced = synced;
                dry_run = false;
              }))))

  -- Whatever a cycle observes, and whether it succeeds or fails, it makes at most
  -- `MaxActionsPerCycle` requests that create, replace or destroy machines, or one if that is 0.
  pub cycle_within_budget :
      (opts : Options) (w : World ports)
      → provisions_in (cycle ports opts w).1.log
        ≤ provisions_in w.log + max 1 opts.thresholds.max_actions_per_cycle
  unfolding cycle Adds
  cycle_within_budget opts w =
      let most = max 1 opts.thresholds.max_actions_per_cycle in
      (quiet_then ports most _ _ (same-Adds ports 0 _ (λ w. refl)) (λ t.
          quiet_then ports most _ _
            (ask-Adds ports (λ r. Request.listed) ports.list_nodes (λ o. refl))
            (λ nodes.
              quiet_then ports most _ _
                (choice-Adds ports 0 (not opts.dry_run && opts.access_sync_enabled) _ _
                  (sync-Adds nodes t 0) (done-Adds ports 0 0))
                (λ synced.
                  quiet_then ports most _ _
                    (try-Adds ports 0 _ (
                      ask-Adds ports (λ r. Request.read_recommendations) ports.recommendations
                        (λ o. refl)))
                    (λ recs.
                      quiet_then ports most _ _
                        (confirm_suspects-Adds opts (recs_or_none ports recs) nodes)
                        (λ probes. act-Adds opts _ nodes t synced most (
                          plan-bounded ports.parse
                            (input_of ports t (recs_or_none ports recs) nodes probes)
                            opts.thresholds))))))).holds
        w
