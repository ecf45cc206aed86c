-- ===== src/Telemetry/Recommend/Fleet.antt =====
-- Telemetry's recommendations as the orchestrator's input: no node is replaced without a probe.
use casper_vpn.Base.{
  String, Time, Duration, Option, List, [], ◌∷◌, ◌≡◌, ◌≢◌, refl, All, All-Memᴰ, Memᴰ, subst,
}
use casper_vpn.Orchestrator.Policy.{replace, Action, Thresholds, Input, Recommendations, plan}
use casper_vpn.Orchestrator.Policy.Safety.{Justification, Justified, Blocked, plan-Justified}
use casper_vpn.Telemetry.Recommend.{Probe, recommend}
use casper_vpn.Telemetry.Recommend.Probed.{Reported, IsProbed, recommend-IsProbed}

-- A list that is not empty has a first element, of which holds what holds of all.
first_of : {P : String → Type 0} (xs : List String) → xs ≢ [] → All P xs → (x : String) × P x
first_of [] h all = absurd (h refl)
first_of (x ∷ xs) h all = (x, all.0)

module _ (parse : String → Option Time) (health : List Probe) (at : Time) (window : Duration) where
  -- The orchestrator plans on what telemetry recommended at the time `at`. Then each node that the
  -- plan replaces was found blocked from some region, or unreachable, by a probe of that very node,
  -- observed in the window that ends at `at`.
  pub replace_needs_probe :
      (input : Input) (th : Thresholds) (a : Action)
      → input.recs ≡ recommend health at window
      → Memᴰ a (plan parse input th)
      → a.type ≡ replace
      → (region : String) × ((region ≢ "") × Reported health at window a.node_id region)
  replace_needs_probe input th a recs m kind =
      let why : Justification parse input th a.type a.node_id =
        All-Memᴰ (Justified parse input th) (plan parse input th) (plan-Justified parse input th)
          m in
      let block : Blocked input th a.node_id =
        subst (λ t. Justification parse input th t a.node_id) kind why in
      let listed : Memᴰ block.block (recommend health at window).node_blocks =
        subst (λ (r : Recommendations). Memᴰ block.block r.node_blocks) recs block.listed in
      let probed =
        All-Memᴰ (IsProbed health at window) (recommend health at window).node_blocks
          (recommend-IsProbed health at window) listed in
      first_of block.block.regions probed.somewhere (
        subst (λ id. All (λ r. (r ≢ "") × Reported health at window id r) block.block.regions)
          block.names probed.reported)
