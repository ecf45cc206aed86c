-- ===== src/ControlPlane/Tests.antt =====
-- A control plane with one entry, one exit and two users, for the tests below it.
pub mod Stores
pub mod Services
use casper_vpn.Base.{
  String, ℕ, Time, Bool, true, false, Option, none, some, List, [], ◌∷◌, ◌≡◌, ◌≢◌, refl, ◌⊎◌, inl,
  inr, ◌+◌, ◌<◌, ◌≤◌, ◌==◌, any_of, map, arith, concat, decimal, Memᴰ,
}
use casper_vpn.Map.{Map, lookup, insert, remove, empty, entries}
use casper_vpn.Orchestrator.Policy.{NodeStatus}
use casper_vpn.Billing.Model.{SubStatus, canceled}
use casper_vpn.Billing.Environment.{BillingState}
use casper_vpn.ControlPlane.Contracts.{
  NodeRole, Transport, TransportType, VlessRealityParams, Shadowsocks2022Params, Node, User,
  UserStatus, Subscription, RealityUser, NodeAccessUsers, Result, ok,
}
use casper_vpn.ControlPlane.Store.State.{
  State, new_state, Job, SignalType, SignalAggregate, SubscriptionSet, SubscriptionWithToken,
  SubscriptionTokenBinding,
}
use casper_vpn.ControlPlane.Store.Nodes.{active_nodes}
use casper_vpn.ControlPlane.Store.Users.{includes}
use casper_vpn.ControlPlane.Store.Subscriptions.{resolve_token_hash, cancel_subscription}
use casper_vpn.ControlPlane.Store.Subscriptions.BillingStates.{
  Grants, apply_all, newest_wins, cancel_sticks,
}
use casper_vpn.ControlPlane.Store.Subscriptions.Links.{IsLinked, resolve-IsLinked}
use casper_vpn.ControlPlane.Store.AllowList.{
  Digests, eligible_reality_users, eligible_access_users, lease,
}
use casper_vpn.ControlPlane.Store.AllowList.Lists.{reality_of, lists_agree, lease_in_time}
use casper_vpn.ControlPlane.Service.Environment.{Environment, World}
use casper_vpn.ControlPlane.Service.Nodes.Quiet.{Serves, IsKeyed}
use casper_vpn.ControlPlane.Service.Nodes.Activation.{Call, apply, Promotes, only_by_activation}
use casper_vpn.ControlPlane.Service.Signals.{ingest}
use casper_vpn.ControlPlane.Service.Signals.Fields.{Became}
use casper_vpn.ControlPlane.Service.Signals.Ingest.{ingest_worsens}
use casper_vpn.ControlPlane.Service.Users.{rotate}
use casper_vpn.ControlPlane.Service.Subscriptions.{rotate_token, ensure}
use casper_vpn.ControlPlane.Service.Subscriptions.Rotation.{rotation_ends_links, secrets_end_links}
use casper_vpn.ControlPlane.Service.Subscriptions.Ensure.{ensure_again}
use casper_vpn.ControlPlane.Service.Bundles.{build, process}
use casper_vpn.ControlPlane.Service.Bundles.Rebuild.{process_spares}

-- The outside counts its calls; it is the clock and the source of secrets.
abbrev pub numbered : String → ℕ → Option String × ℕ
numbered prefix n = (some (concat prefix (decimal n)), n + 1)

abbrev pub plant : Environment
plant = record {
  Outside = ℕ;
  clock = λ n. (n, n + 1);
  uuid = numbered "id-";
  token = numbered "token-";
  short_id = numbered "short-";
  private_key = numbered "key-";
  node_id = numbered "node-";
  revoke_user = λ user n. (true, n);
  revoke_subscription = λ id n. (true, n);
  register_token = λ secret user id n. (true, n);
  key_id = "k1";
  seal = λ id secret n. (some secret, n);
  unseal = λ id key text. some text;
  hash_token = λ secret. concat "hash-" secret;
  hex_length = λ hash. some 32;
  digests = record {
    less = λ a b. false;
    reality_digest = λ us. "list";
    access_digest = λ us. "list";
  };
  billing_digest = λ st. decimal st.revision;
}

abbrev pub reality : Transport
reality = record {
  tag = "t1";
  type = TransportType.vless_reality;
  version = "v1";
  port = 443;
  enabled = true;
  priority = 1;
  vless_params = some (record {
    server_names = [];
    dest = "";
    public_key = "";
    short_ids = [];
    flow = "";
    fingerprint = "";
    spider_x = "";
  });
  awg_params = none;
  hysteria2_params = none;
  ss2022_params = none;
}

abbrev pub shadowsocks : Transport
shadowsocks = record reality {
  type = TransportType.shadowsocks_2022;
  vless_params = none;
  ss2022_params = some (record { method = "m"; psk = "p" });
}

abbrev pub entry_node : Node
entry_node = record {
  id = "entry-1";
  role = NodeRole.entry;
  status = NodeStatus.provisioning;
  entry_node_id = none;
  provider = "";
  cloud = "";
  region = "r";
  entry_ip = "ip";
  ephemeral_entry_ip = true;
  transports = reality ∷ shadowsocks ∷ [];
  capacity_users = 10;
  rotate_after = none;
  created_at = 1;
  expires_at = none;
  labels = empty;
}

abbrev pub exit_node : Node
exit_node = record entry_node {
  id = "exit-1";
  role = NodeRole.exit;
  entry_node_id = some "entry-1";
  transports = [];
}

abbrev pub anna : User
anna = record {
  id = "anna";
  telegram_id = some 7;
  email = none;
  status = UserStatus.active;
  reality_short_id = "s";
  uuid = "v";
  hysteria2_password = "p";
  private_key = "k";
  subscription_id = some "sub-1";
  device_limit = 3;
  quota_bytes = 0;
  used_bytes = 0;
  created_at = 1;
  updated_at = 1;
}

abbrev pub annas : Subscription
annas = record {
  id = "sub-1";
  user_id = "anna";
  plan = "basic";
  status = SubStatus.active;
  token = "";
  traffic_limit_bytes = 0;
  speed_limit_mbps = 0;
  device_limit = 2;
  grace_until = none;
  billing_revision = 0;
  starts_at = 1;
  expires_at = some 900;
  created_at = 1;
  updated_at = 1;
}

abbrev pub with_anna : State
with_anna = record new_state {
  users = insert "anna" anna empty;
  subs = insert "sub-1" annas empty;
  hashes = insert "sub-1" "old" empty;
}

abbrev pub start : World plant
start = record { store = with_anna; outside = 10 }

abbrev pub paid : ℕ → BillingState
paid revision = record {
  plan = "unlimited";
  revision = revision;
  status = SubStatus.active;
  expires_at = 2000 + revision;
  grace_until = 3000 + revision;
}

abbrev pub billed : State
billed = record with_anna { subs = insert "sub-1" (record annas { billing_revision = 3 }) empty }

-- A second account, whose link stays.
abbrev pub boris : User
boris = record anna { id = "boris"; telegram_id = none; subscription_id = some "sub-2" }

abbrev pub boriss : Subscription
boriss = record annas { id = "sub-2"; user_id = "boris" }

abbrev pub with_both : State
with_both = record new_state {
  users = insert "boris" boris (insert "anna" anna empty);
  subs = insert "sub-2" boriss (insert "sub-1" annas empty);
  hashes = insert "sub-2" "other" (insert "sub-1" "old" empty);
}

abbrev pub both : World plant
both = record { store = with_both; outside = 10 }

abbrev pub of_boris : SubscriptionTokenBinding
of_boris = record { user_id = "boris"; subscription_id = "sub-2" }

abbrev pub rotated : World plant
rotated = record {
  store = record with_both {
    hashes = insert "sub-1" "hash-token-10" with_both.hashes;
    delivery = remove "sub-1" empty;
  };
  outside = 12;
}

abbrev pub now : Time
now = 100
