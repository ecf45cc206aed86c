-- ===== src/ControlPlane/Tests/Services.antt =====
-- The theorems about the services, applied to a small control plane.
use casper_vpn.Base.{
  String, Bool, true, false, some, [], ◌∷◌, ◌≡◌, ◌≢◌, refl, ◌⊎◌, inl, inr, ◌==◌, concat, decimal,
}
use casper_vpn.Map.{lookup, insert, remove, empty, entries}
use casper_vpn.Orchestrator.Policy.{NodeStatus}
use casper_vpn.ControlPlane.Contracts.{Node, User, ok}
use casper_vpn.ControlPlane.Store.State.{SignalType, SignalAggregate}
use casper_vpn.ControlPlane.Store.Nodes.{active_nodes}
use casper_vpn.ControlPlane.Store.Users.{includes}
use casper_vpn.ControlPlane.Store.Subscriptions.{resolve_token_hash}
use casper_vpn.ControlPlane.Store.AllowList.{eligible_reality_users}
use casper_vpn.ControlPlane.Service.Environment.{World}
use casper_vpn.ControlPlane.Service.Nodes.Quiet.{Serves, IsKeyed}
use casper_vpn.ControlPlane.Service.Nodes.Activation.{Call, apply, Promotes, only_by_activation}
use casper_vpn.ControlPlane.Service.Signals.{ingest}
use casper_vpn.ControlPlane.Service.Signals.Fields.{Became}
use casper_vpn.ControlPlane.Service.Signals.Ingest.{ingest_worsens}
use casper_vpn.ControlPlane.Service.Users.{rotate}
use casper_vpn.ControlPlane.Service.Subscriptions.{rotate_token, ensure}
use casper_vpn.ControlPlane.Service.Subscriptions.Rotation.{rotation_ends_links, secrets_end_links}
use casper_vpn.ControlPlane.Service.Subscriptions.Ensure.{ensure_again}
use casper_vpn.ControlPlane.Service.Bundles.{build, process}
use casper_vpn.ControlPlane.Service.Bundles.Rebuild.{process_spares}
use casper_vpn.ControlPlane.Service.Bundles.Renewed.{Renewed, build-Renewed}
use casper_vpn.ControlPlane.Store.State.{SubscriptionSet}
use casper_vpn.ControlPlane.Store.Subscriptions.{find_binding, get_subscription, update_token_hash}
use casper_vpn.ControlPlane.Service.Subscriptions.{get}
use casper_vpn.ControlPlane.Store.AllowList.{
  activate, exit_gate, entry_gate, exit_is_active, requires_access, reality_list,
  reality_users_revision,
}
use casper_vpn.ControlPlane.Contracts.{
  valid_node, valid_transport, distinct_enabled_transport_types, enabled_types,
}
use casper_vpn.ControlPlane.Store.Users.{get_user}
use casper_vpn.ControlPlane.Action.{◌>>=◌, ◌>>◌}
use casper_vpn.Base.{sym, ap, ◌∙◌, Bool-cases, eq_iff}
use text.Mathlib.TextPositions.{slice-append_left}
use Prim.Native.String.{slice}
use casper_vpn.Map.{size}
use casper_vpn.ControlPlane.Store.Users.{
  rotate_secrets, revoke_links, get_set, upsert, mark_dirty_by_node, user_ids_by_node,
}
use casper_vpn.ControlPlane.Store.Nodes.{
  create_node, add_user_secret_rotation, add_node_rotation, add_aggregate, get_node, set_status,
  list_active,
}
use casper_vpn.ControlPlane.Service.Nodes.{
  register, activate_node, record_rotation, set_status_if_changed,
}
use casper_vpn.ControlPlane.Service.Signals.{
  store_aggregates, classify, sum_of, raise, apply_verdicts, apply_verdict, target_of,
}
use casper_vpn.ControlPlane.Service.Bundles.{set_for, rebuild_all}
use casper_vpn.ControlPlane.Tests.{
  plant, entry_node, exit_node, anna, annas, start, with_both, both, of_boris, rotated,
}

rotation_ends_links_example : of_boris.subscription_id ≢ "sub-1"
unfolding rotate_token get_subscription update_token_hash ◌>>=◌ ◌>>◌ decimal resolve_token_hash
    find_binding entries lookup insert remove
rotation_ends_links_example =
    rotation_ends_links plant "sub-1" "other" both rotated
      (record {
        subscription = record annas { updated_at = 11; token = "token-10" };
        plain_token = "token-10";
      })
      of_boris refl refl (λ e. cc) refl

ensure_again_example : ensure plant "anna" "basic" start ≡ (ok annas, start)
unfolding ensure get get_subscription get_user ◌>>=◌ ◌>>◌ lookup insert remove
ensure_again_example = ensure_again plant "anna" "basic" annas start start refl

build-Renewed_example :
    let (r, w') = build plant "anna" start in
    (set : SubscriptionSet) × (r ≡ ok set)
    × Renewed "anna" anna start.store set
    × (w'.store.sets ≡ insert "anna" set start.store.sets)
    × (w'.store.nodes ≡ start.store.nodes)
    × (w'.store.users ≡ start.store.users)
unfolding lookup insert remove
build-Renewed_example = build-Renewed plant "anna" anna start refl

different : (b : Bool) → b ≡ false → b ≡ true → ⊥
different b e f = cc

other-unmarked : (x : String) → (concat "revoked:" x == "other") ≡ false
other-unmarked x = elim (Bool-cases (concat "revoked:" x == "other")) [
  | inr e ↦ e
  | inl e ↦
      let f : ◌≡◌ {A = String} "revoked:" "other" =
        sym (slice-append_left "revoked:" x)
        ∙ ap (λ t. slice t 0 8) ((eq_iff (concat "revoked:" x) "other").0 e) in
      absurd (different ("revoked:" == "other") refl ((eq_iff "revoked:" "other").1 f))
]

abbrev after_rotation : World plant
after_rotation = (rotate plant "anna" "" both).1

abbrev anna_now : User
anna_now = record anna {
  reality_short_id = "short-10";
  uuid = "id-11";
  private_key = "key-12";
  hysteria2_password = "token-13";
}

secrets_end_links_example : of_boris.user_id ≢ "anna"
unfolding rotate get_user rotate_secrets revoke_links add_user_secret_rotation ◌>>=◌ ◌>>◌ decimal
    resolve_token_hash find_binding entries lookup insert remove
secrets_end_links_example =
    secrets_end_links plant "anna" "" "other" both after_rotation anna_now of_boris refl (λ e. cc)
      other-unmarked refl

start-IsKeyed : IsKeyed start.store
unfolding IsKeyed lookup
start-IsKeyed k n h = cc

abbrev entry_comes : Call
entry_comes = Call.registers entry_node "op"

abbrev exit_comes : Call
exit_comes = Call.registers exit_node "op"

abbrev exit_serves : Call
exit_serves = Call.activates "exit-1" "" "" "exit_data_plane_verified" "op"

abbrev entry_serves : Call
entry_serves = Call.activates "entry-1" "list" "" "" "op"

abbrev prepared : World plant
prepared = apply plant exit_serves (apply plant exit_comes (apply plant entry_comes start))

prepared-IsKeyed : IsKeyed prepared.store
prepared-IsKeyed =
    let one = (only_by_activation plant "entry-1" entry_comes start start-IsKeyed).0 in
    let two = (only_by_activation plant "entry-1" exit_comes _ one).0 in
    (only_by_activation plant "entry-1" exit_serves _ two).0

only_by_activation_example :
    IsKeyed (apply plant entry_serves prepared).store
    × (Serves "entry-1" (apply plant entry_serves prepared).store
        → Serves "entry-1" prepared.store ⊎ Promotes plant "entry-1" prepared entry_serves)
only_by_activation_example =
    only_by_activation plant "entry-1" entry_serves prepared prepared-IsKeyed

-- The activation succeeds there.
entry_is_served : Serves "entry-1" (apply plant entry_serves prepared).store
unfolding Serves apply register activate_node record_rotation create_node add_node_rotation activate
    valid_node valid_transport exit_gate entry_gate distinct_enabled_transport_types enabled_types
    size exit_is_active requires_access eligible_reality_users reality_list reality_users_revision
    ◌>>=◌ ◌>>◌ entries lookup insert remove
entry_is_served = (record entry_node { status = NodeStatus.active }, refl, refl)

abbrev serving : World plant
serving = record {
  store = record with_both {
    nodes = insert "entry-1" (record entry_node { status = NodeStatus.active }) empty;
    sets = insert "anna" (set_for "anna" anna (entry_node ∷ []) 0 1 1) empty;
  };
  outside = 10;
}

abbrev resets : SignalAggregate
resets = record {
  node_id = "entry-1";
  region = "r";
  window_start = 1;
  window_end = 2;
  total = 4;
  by_signal = (SignalType.reset, 3) ∷ (SignalType.ok, 1) ∷ [];
}

abbrev blocked_entry : Node
blocked_entry = record entry_node { status = NodeStatus.blocked }

ingest_worsens_example :
    (old : Node) × (lookup "entry-1" serving.store.nodes ≡ some old) × Became old blocked_entry
unfolding ingest store_aggregates classify sum_of raise add_aggregate apply_verdicts apply_verdict
    target_of get_node set_status_if_changed set_status record_rotation add_node_rotation ◌>>=◌ ◌>>◌
    entries lookup insert remove
ingest_worsens_example =
    ingest_worsens plant "entry-1" (resets ∷ []) "telemetry" serving blocked_entry refl

abbrev blocked_world : World plant
blocked_world = (ingest plant (resets ∷ []) "telemetry" serving).1

process_spares_example : includes "entry-1" (set_for "anna" anna [] 1 12 13) ≡ false
unfolding process rebuild_all build list_active get_set upsert mark_dirty_by_node user_ids_by_node
    get_user active_nodes ingest store_aggregates classify sum_of raise add_aggregate apply_verdicts
    apply_verdict target_of get_node set_status_if_changed set_status record_rotation
    add_node_rotation ◌>>=◌ ◌>>◌ entries lookup insert remove
process_spares_example =
    process_spares plant "entry-1" "anna" anna blocked_world (set_for "anna" anna [] 1 12 13) refl
      refl refl
