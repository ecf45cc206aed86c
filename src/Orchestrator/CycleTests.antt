-- ===== src/Orchestrator/CycleTests.antt =====
-- A fleet with a blocked pair, and the theorems about the reconcile loop applied to it.
use casper_vpn.Base.{Time, Bool, true, false, none, some, [], ◌∷◌, ◌≡◌, refl, ◌≤◌, ◌+◌, max}
use casper_vpn.Map.{empty}
use casper_vpn.Orchestrator.Policy.{NodeStatus, authoritative, mark_node_blocked, HealthStatus}
use casper_vpn.Orchestrator.Ports.{Ports, World}
use casper_vpn.Orchestrator.Reconcile.{Options, cycle}
use casper_vpn.Orchestrator.Reconcile.Silence.{changes_in, dry_run_changes_nothing}
use casper_vpn.Orchestrator.Reconcile.Drain.{OnlyReplaced}
use casper_vpn.Orchestrator.Reconcile.Drain.Cycle.{drain_after_replacement}
use casper_vpn.Orchestrator.Reconcile.Requests.{provisions_in}
use casper_vpn.Orchestrator.Reconcile.Budget.{cycle_within_budget}
use casper_vpn.ControlPlane.Contracts.{NodeRole, Node}

abbrev entry : Node
entry = record {
  id = "entry";
  role = NodeRole.entry;
  status = NodeStatus.active;
  entry_node_id = none;
  provider = "";
  cloud = "c";
  region = "r";
  entry_ip = "ip";
  ephemeral_entry_ip = false;
  transports = [];
  capacity_users = 10;
  rotate_after = none;
  created_at = 1;
  expires_at = none;
  labels = empty;
}

abbrev exit : Node
exit = record entry { id = "exit"; role = NodeRole.exit; entry_node_id = some "entry" }

-- Telemetry reports the entry as blocked; every call succeeds, and a new pair serves at once.
abbrev field : Ports
field = record {
  Outside = Time;
  clock = λ t. (t, t + 1);
  recommendations = λ t. (
    some (record {
      generated_at = 990;
      node_blocks =
          record {
            action = mark_node_blocked;
            node_id = "entry";
            regions = "r" ∷ [];
            confidence = authoritative;
            reason = "dpi";
          }
          ∷ [];
    }),
    t,
  );
  report_health = λ v t. (true, t);
  list_nodes = λ t. (some (entry ∷ exit ∷ []), t);
  get_node = λ id t. (some (record entry { id = id }), t);
  update_node = λ n t. (true, t);
  access_users = λ id t. (none, t);
  node_up =
      λ region cloud t. (some (record { run_id = "run"; entry_id = "e2"; exit_id = "x2" }), t);
  node_rotate = λ n t. (true, t);
  node_down = λ n t. (true, t);
  sync_access = λ n snapshot t. (true, t);
  probe = λ n t. (
    some (record {
      node_id = n.id;
      event = record { status = HealthStatus.blocked; observed_at = t };
    }),
    t,
  );
  format = λ t. "t1000";
  parse = λ s. some 1000;
}

abbrev options : Bool → Options
options dry = record {
  dry_run = dry;
  thresholds = record {
    recommendation_max_age = 50;
    probe_max_age = 20;
    drain_grace = 300;
    max_actions_per_cycle = 1;
  };
  probe_enabled = true;
  default_region = "";
  default_cloud = "";
  rotation_interval = 0;
  access_sync_enabled = false;
}

abbrev at_1000 : World field
at_1000 = record { outside = 1000; log = [] }

dry_run_changes_nothing_example :
    changes_in (cycle field (options true) at_1000).1.log ≡ changes_in at_1000.log
dry_run_changes_nothing_example = dry_run_changes_nothing field (options true) at_1000 refl

drain_after_replacement_example : OnlyReplaced (cycle field (options false) at_1000).1.log
unfolding OnlyReplaced
drain_after_replacement_example = drain_after_replacement field (options false) at_1000 tt

cycle_within_budget_example :
    provisions_in (cycle field (options false) at_1000).1.log ≤ provisions_in at_1000.log + max 1 1
cycle_within_budget_example = cycle_within_budget field (options false) at_1000
