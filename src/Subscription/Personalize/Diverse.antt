-- ===== src/Subscription/Personalize/Diverse.antt =====
-- What personalisation serves, and that it never leaves a monoculture without need.
use casper_vpn.Base.{
  ◌≢◌, ◌⊎◌, some, String, ℕ, true, false, List, ◌≡◌, ◌≤◌, ◌<◌, ◌&&◌, length, All, arith, Memᴰ, ltb,
  leb,
}
use casper_vpn.Map.{lookup}
use casper_vpn.Orchestrator.Policy.{NodeStatus}
use casper_vpn.ControlPlane.Contracts.{Node, Transport, SubscriptionBundle}
use casper_vpn.Subscription.Personalize.{Params, Filtered, drop_blocked, distinct_transport_types}

-- A node of the bundle that is active or degraded, is not flagged as blocked, and has an enabled
-- transport.
pub record Offered (b : SubscriptionBundle) (n : Node) : Type 0 where
  pub member : Memᴰ n b.nodes
  pub status : (n.status ≡ NodeStatus.active) ⊎ (n.status ≡ NodeStatus.degraded)
  pub unflagged : lookup "blocked" n.labels ≢ some "true"
  pub transport : (t : Transport) × Memᴰ t n.transports × (t.enabled ≡ true)

-- What a plan other than the unlimited one may get.
pub Basic : List Node → Type 0
Basic ns = (length ns ≤ 5) × All (λ n. lookup "tier" n.labels ≢ some "premium") ns

-- What a result promises of the request that it answers.
pub record Serves (b : SubscriptionBundle) (plan : String) (p : Params) (r : Filtered)
    : Type 0 where
  pub offered : All (Offered b) r.bundle.nodes
  pub tiered : plan ≢ "unlimited" → r.relaxed ≡ false → Basic r.bundle.nodes
  pub diverse : 2 ≤ length (distinct_transport_types (drop_blocked b.nodes)) → 2 ≤ length r.types

relaxed_needed : (kept all : ℕ) → (ltb kept 2 && leb 2 all) ≡ true → (kept < 2) × (2 ≤ all)
relaxed_needed kept all e = (ground arith, ground arith)
