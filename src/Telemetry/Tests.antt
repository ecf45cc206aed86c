-- ===== src/Telemetry/Tests.antt =====
-- A flood of one id, probes of one node, and the theorems about them applied to these.
use casper_vpn.Base.{
  String, none, All, Memᴰ, ◌≢◌, Time, true, false, List, [], ◌∷◌, ◌≡◌, refl, arith,
}
use casper_vpn.Map.{lookup, insert, entries, empty}
use casper_vpn.Orchestrator.Policy.{
  NodeStatus, Node, HealthStatus, replace, blocked_in, authoritative, Action, Thresholds, Input,
  plan,
}
use casper_vpn.Telemetry.Recommend.{Probe, recommend}
use casper_vpn.Telemetry.Recommend.Probed.{Reported, IsProbed, recommend-IsProbed}
use casper_vpn.Telemetry.Recommend.Fleet.{replace_needs_probe}
use casper_vpn.Telemetry.Series.{new_memory_store}
use casper_vpn.Telemetry.Series.Ordered.{Call, run, IsTidy, run-IsTidy}
use casper_vpn.Telemetry.Dedup.{new_deduper, fresh, feed, replay_refused}

abbrev flood : List (String × Time)
flood = ("s1", 12) ∷ ("s2", 13) ∷ ("s1", 14) ∷ []

first_accepted : (fresh "s1" 10 (new_deduper 60)).0 ≡ true
unfolding fresh lookup
first_accepted = refl

replay_refused_example : (fresh "s1" 40 (feed flood (fresh "s1" 10 (new_deduper 60)).1)).0 ≡ false
replay_refused_example =
    replay_refused "s1" 10 40 flood (new_deduper 60) (omega arith) first_accepted
      (omega arith, (omega arith, (omega arith, tt))) (omega arith)

abbrev probe : Probe
probe = record {
  node_id = "a";
  status = HealthStatus.blocked;
  observed_at = 980;
  blocked_from_regions = "r1" ∷ [];
  probe_source = "p1";
}

abbrev stale_probe : Probe
stale_probe = record probe { observed_at = 10 }

abbrev probes : List Probe
probes = stale_probe ∷ probe ∷ []

recommend-IsProbed_example : All (IsProbed probes 990 100) (recommend probes 990 100).node_blocks
recommend-IsProbed_example = recommend-IsProbed probes 990 100

abbrev server : Node
server = record {
  id = "a";
  status = NodeStatus.active;
  ephemeral_entry_ip = false;
  rotate_after = none;
  labels = empty;
}

abbrev advised : Input
advised = record {
  now = 1000;
  recs = recommend probes 990 100;
  nodes = server ∷ [];
  probes = empty;
}

abbrev limits : Thresholds
limits = record {
  recommendation_max_age = 50;
  probe_max_age = 20;
  drain_grace = 300;
  max_actions_per_cycle = 1;
}

abbrev replacement : Action
replacement = record {
  type = replace;
  node_id = "a";
  regions = "r1" ∷ [];
  reason = blocked_in authoritative "probe p1 reports blocked";
}

replacement_planned : Memᴰ replacement (plan (λ s. none) advised limits)
unfolding plan recommend lookup entries insert
replacement_planned = Memᴰ.head refl

replace_needs_probe_example :
    (region : String) × ((region ≢ "") × Reported probes 990 100 "a" region)
replace_needs_probe_example =
    replace_needs_probe (λ s. none) probes 990 100 advised limits replacement refl
      replacement_planned refl

abbrev intake : List Call
intake = Call.writes_health probes ∷ Call.prunes 500 ∷ Call.writes_health (stale_probe ∷ []) ∷ []

run-IsTidy_example : IsTidy 2 (run intake (new_memory_store 2))
run-IsTidy_example = run-IsTidy 2 intake
