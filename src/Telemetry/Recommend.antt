-- ===== src/Telemetry/Recommend.antt =====
-- services/telemetry/internal/aggregate/recommend.go: the recommendations to block nodes, made from
-- our own probes alone. `ObservedAt.Before(from)` is compared as a sum. The records are those of the
-- contract, which the code's own structs equal field by field; the window in seconds and the region
-- priorities, which are always empty, are left out.
pub mod Probed
pub mod Fleet
use Prim.Native.String.{◌++◌, compare}
use Prim.Native.Nat.{Ordering}
use casper_vpn.Base.{
  String, Time, Duration, Bool, true, false, not, Option, none, some, List, [], ◌∷◌, map, ◌+◌, ◌&&◌,
  ◌||◌, ◌==◌, after, before, is_some, if◌then◌else◌, sort_by, any_of,
}
use casper_vpn.Map.{Map, lookup, insert, entries, empty}
use casper_vpn.Orchestrator.Policy.{
  HealthStatus, healthy, unreachable, shows_block, Confidence, authoritative, corroborated,
  mark_node_blocked, NodeBlock, Recommendations,
}

-- The fields of `contracts.HealthEvent` that are read here.
pub record Probe : Type 0 where
  pub node_id : String
  pub status : HealthStatus
  pub observed_at : Time
  pub blocked_from_regions : List String
  pub probe_source : String

abbrev status_text : HealthStatus → String
status_text healthy = "healthy"
status_text HealthStatus.degraded = "degraded"
status_text HealthStatus.blocked = "blocked"
status_text unreachable = "unreachable"
status_text (HealthStatus.other s) = s

abbrev pub is_authoritative : Confidence → Bool
is_authoritative authoritative = true
is_authoritative _ = false

-- The two maps that the loop fills.
pub record Verdicts : Type 0 where
  pub regions : Map (Map Confidence)
  pub reasons : Map String

abbrev pub or_empty : Option (Map Confidence) → Map Confidence
or_empty none = empty
or_empty (some m) = m

-- `!ok || c == ConfidenceAuthoritative && cur != ConfidenceAuthoritative`
abbrev pub outranks : Confidence → Option Confidence → Bool
outranks c none = true
outranks c (some cur) = is_authoritative c && not (is_authoritative cur)

abbrev pub with_region : String → Confidence → Map Confidence → Map Confidence
with_region region c inner =
    if outranks c (lookup region inner) then insert region c inner else inner

unfoldable pub add_verdict : String → String → Confidence → String → Verdicts → Verdicts
add_verdict node region c reason v = if region == "" then v else record {
  regions = insert node (with_region region c (or_empty (lookup node v.regions))) v.regions;
  reasons = if is_some (lookup node v.reasons) then v.reasons else insert node reason v.reasons;
}

unfoldable pub add_regions : String → List String → String → Verdicts → Verdicts
unfolding add_verdict
add_regions node [] reason v = v
add_regions node (r ∷ rs) reason v =
    add_regions node rs reason (add_verdict node r authoritative reason v)

-- The probe is inside the window and found the node blocked or unreachable.
abbrev pub counts : Probe → Time → Duration → Bool
counts e now window =
    not (before (e.observed_at + window) now || after e.observed_at now) && shows_block e.status

unfoldable pub collect : List Probe → Time → Duration → Verdicts → Verdicts
unfolding add_regions
collect [] now window v = v
collect (e ∷ es) now window v = collect es now window (
    if counts e now window
    then add_regions e.node_id e.blocked_from_regions
        ("probe " ++ e.probe_source ++ " reports " ++ status_text e.status) v
    else v)

abbrev pub text_before : String → String → Bool
text_before a b = elim (compare a b) [ Ordering.lt ↦ true | _ ↦ false ]

abbrev text_or_empty : Option String → String
text_or_empty none = ""
text_or_empty (some s) = s

-- One iteration of the last loop.
unfoldable pub block_of : Map String → String × Map Confidence → NodeBlock
unfolding sort_by
block_of reasons (node, inner) = record {
  action = mark_node_blocked;
  node_id = node;
  regions = sort_by text_before (map (λ (e : String × Confidence). e.0) (entries inner));
  confidence =
      if any_of (λ (e : String × Confidence). is_authoritative e.1) (entries inner)
      then authoritative
      else corroborated;
  reason = text_or_empty (lookup node reasons);
}

abbrev pub node_before : String × Map Confidence → String × Map Confidence → Bool
node_before a b = text_before a.0 b.0

unfoldable pub node_blocks : List Probe → Time → Duration → List NodeBlock
unfolding collect block_of sort_by
node_blocks health now window =
    let v = collect health now window (record { regions = empty; reasons = empty }) in
    map (block_of v.reasons) (sort_by node_before (entries v.regions))

-- `Recommend`; the field signals are ignored.
unfoldable pub recommend : List Probe → Time → Duration → Recommendations
unfolding node_blocks
recommend health now window = record {
  generated_at = now;
  node_blocks = node_blocks health now window;
}
