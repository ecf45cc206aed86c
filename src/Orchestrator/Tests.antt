-- ===== src/Orchestrator/Tests.antt =====
-- A fleet of three nodes, and the theorems about the policy applied to it.
use casper_vpn.Base.{String, Time, false, Option, none, some, [], ◌∷◌, if◌then◌else◌, ◌==◌, All}
use casper_vpn.Map.{insert, empty}
use casper_vpn.Orchestrator.Policy.{
  NodeStatus, Node, corroborated, mark_node_blocked, HealthStatus, Thresholds, drain_started_label,
  Input, draft, plan,
}
use casper_vpn.Orchestrator.Policy.Safety.{Justified, plan-Justified}
use casper_vpn.Orchestrator.Policy.Budget.{IsCapped, plan-IsCapped}

abbrev node : String → NodeStatus → Node
node id status = record {
  id = id;
  status = status;
  ephemeral_entry_ip = false;
  rotate_after = some 700;
  labels = insert drain_started_label "t100" empty;
}

abbrev times : String → Option Time
times s = if s == "t100" then some 100 else none

abbrev limits : Thresholds
limits = record {
  recommendation_max_age = 50;
  probe_max_age = 20;
  drain_grace = 300;
  max_actions_per_cycle = 1;
}

-- The node "a" is blocked, "b" has to be rotated and "c" has drained.
abbrev fleet : Input
fleet = record {
  now = 1000;
  recs = record {
    generated_at = 990;
    node_blocks =
        record {
          action = mark_node_blocked;
          node_id = "a";
          regions = "r1" ∷ [];
          confidence = corroborated;
          reason = "dpi";
        }
        ∷ [];
  };
  nodes =
      node "a" NodeStatus.active ∷ node "b" NodeStatus.degraded ∷ node "c" NodeStatus.draining ∷ [];
  probes = insert "a" (record { status = HealthStatus.blocked; observed_at = 995 }) empty;
}

plan-Justified_example : All (Justified times fleet limits) (plan times fleet limits)
plan-Justified_example = plan-Justified times fleet limits

plan-IsCapped_example : IsCapped (plan times fleet limits) (draft times fleet limits).out 1
plan-IsCapped_example = plan-IsCapped times fleet limits
