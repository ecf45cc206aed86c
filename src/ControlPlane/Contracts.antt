-- ===== src/ControlPlane/Contracts.antt =====
-- packages/contracts: the shared value types (enums.go, node.go, transport.go, user.go,
-- subscription.go, launch.go, reality_users.go) and their `Validate`, which is a Boolean here: whether
-- there is no error. A Go string type is a data type: its constants are constructors, and `other` is
-- any other text. Counters that the code never lets below 0 are natural numbers.
use casper_vpn.Base.{
  String, ℕ, Time, Bool, true, false, not, Option, none, some, List, [], ◌∷◌, ◌+◌, ◌&&◌, ◌||◌, ◌==◌,
  nat_eq, is_zero, is_some, before, if◌then◌else◌, ltb,
}
use casper_vpn.Map.{Map, insert, empty, size}
use casper_vpn.Billing.Model.{SubStatus, trialing, past_due}
use casper_vpn.Billing.Environment.{BillingState}
use casper_vpn.Orchestrator.Policy.{NodeStatus}

pub data NodeRole : Type 0 where
  entry exit combined : NodeRole
  other : String → NodeRole

pub data TransportType : Type 0 where
  vless_reality amneziawg hysteria2 shadowsocks_2022 : TransportType
  other : String → TransportType

pub data UserStatus : Type 0 where
  active suspended expired banned : UserStatus
  other : String → UserStatus

-- `Valid` of the enums.
abbrev pub valid_role : NodeRole → Bool
valid_role (NodeRole.other s) = false
valid_role _ = true

abbrev pub valid_transport_type : TransportType → Bool
valid_transport_type (TransportType.other s) = false
valid_transport_type _ = true

abbrev pub valid_node_status : NodeStatus → Bool
valid_node_status (NodeStatus.other s) = false
valid_node_status _ = true

abbrev pub valid_user_status : UserStatus → Bool
valid_user_status (UserStatus.other s) = false
valid_user_status _ = true

abbrev pub valid_sub_status : SubStatus → Bool
valid_sub_status (SubStatus.other s) = false
valid_sub_status _ = true

-- `SubscriptionPlan` stays a text, as in billing.
abbrev pub valid_plan : String → Bool
valid_plan p = p == "basic" || p == "unlimited"

-- Go's `==` on two node statuses and on two roles.
abbrev pub same_node_status : NodeStatus → NodeStatus → Bool
same_node_status NodeStatus.provisioning NodeStatus.provisioning = true
same_node_status NodeStatus.active NodeStatus.active = true
same_node_status NodeStatus.degraded NodeStatus.degraded = true
same_node_status NodeStatus.blocked NodeStatus.blocked = true
same_node_status NodeStatus.draining NodeStatus.draining = true
same_node_status NodeStatus.retired NodeStatus.retired = true
same_node_status (NodeStatus.other s) (NodeStatus.other t) = s == t
same_node_status _ _ = false

abbrev pub same_role : NodeRole → NodeRole → Bool
same_role entry entry = true
same_role exit exit = true
same_role combined combined = true
same_role (NodeRole.other s) (NodeRole.other t) = s == t
same_role _ _ = false

-- A status or role that is the empty text.
abbrev pub blank_status : NodeStatus → Bool
blank_status (NodeStatus.other s) = s == ""
blank_status _ = false

abbrev pub blank_role : NodeRole → Bool
blank_role (NodeRole.other s) = s == ""
blank_role _ = false

abbrev pub is_exit : NodeRole → Bool
is_exit exit = true
is_exit _ = false

abbrev pub is_entry : NodeRole → Bool
is_entry entry = true
is_entry _ = false

pub record VlessRealityParams : Type 0 where
  pub server_names : List String
  pub dest : String
  pub public_key : String
  pub short_ids : List String
  pub flow : String
  pub fingerprint : String
  pub spider_x : String

pub record AmneziaWgParams : Type 0 where
  pub public_key : String
  pub mtu : ℕ
  pub jc : ℕ
  pub jmin : ℕ
  pub jmax : ℕ
  pub s1 : ℕ
  pub s2 : ℕ
  pub h1 : ℕ
  pub h2 : ℕ
  pub h3 : ℕ
  pub h4 : ℕ

pub record Hysteria2Params : Type 0 where
  pub obfs : String
  pub obfs_password : String
  pub password : String
  pub sni : String
  pub up_mbps : ℕ
  pub down_mbps : ℕ
  pub insecure : Bool

pub record Shadowsocks2022Params : Type 0 where
  pub method : String
  pub psk : String

pub record Transport : Type 0 where
  pub tag : String
  pub type : TransportType
  pub version : String
  pub port : ℕ
  pub enabled : Bool
  pub priority : ℕ
  pub vless_params : Option VlessRealityParams
  pub awg_params : Option AmneziaWgParams
  pub hysteria2_params : Option Hysteria2Params
  pub ss2022_params : Option Shadowsocks2022Params

abbrev pub one_if : Bool → ℕ
one_if true = 1
one_if false = 0

abbrev pub variant_matches : TransportType → Transport → Bool
variant_matches vless_reality t = is_some t.vless_params
variant_matches amneziawg t = is_some t.awg_params
variant_matches hysteria2 t = is_some t.hysteria2_params
variant_matches shadowsocks_2022 t = is_some t.ss2022_params
variant_matches (TransportType.other s) t = false

unfoldable pub valid_transport : Transport → Bool
valid_transport t =
    valid_transport_type t.type
    && t.version == "v1"
    && nat_eq
        (one_if (is_some t.vless_params)
          + one_if (is_some t.awg_params)
          + one_if (is_some t.hysteria2_params)
          + one_if (is_some t.ss2022_params))
        1
    && variant_matches t.type t

pub record Node : Type 0 where
  pub id : String
  pub role : NodeRole
  pub status : NodeStatus
  pub entry_node_id : Option String
  pub provider : String
  pub cloud : String
  pub region : String
  pub entry_ip : String
  pub ephemeral_entry_ip : Bool
  pub transports : List Transport
  pub capacity_users : ℕ
  pub rotate_after : Option Time
  pub created_at : Time
  pub expires_at : Option Time
  pub labels : Map String

abbrev pub all_of {ℓ} : {A : Type ℓ} → (A → Bool) → List A → Bool
all_of p [] = true
all_of p (x ∷ xs) = p x && all_of p xs

-- `p == nil || *p == ""`, and `p != nil && *p == s`.
abbrev pub unset : Option String → Bool
unset none = true
unset (some s) = s == ""

abbrev pub points_to : Option String → String → Bool
points_to none s = false
points_to (some t) s = t == s

unfoldable pub valid_node : Node → Bool
unfolding valid_transport
valid_node n =
    not (n.id == "")
    && valid_role n.role
    && valid_node_status n.status
    && not (is_exit n.role && unset n.entry_node_id)
    && all_of valid_transport n.transports

-- `DistinctEnabledTransportTypes`: the map has a type's own text as its key.
abbrev pub transport_name : TransportType → String
transport_name vless_reality = "vless-reality"
transport_name amneziawg = "amneziawg"
transport_name hysteria2 = "hysteria2"
transport_name shadowsocks_2022 = "shadowsocks-2022"
transport_name (TransportType.other s) = s

unfoldable pub enabled_types : List Transport → Map (Unit {0}) → Map (Unit {0})
enabled_types [] seen = seen
enabled_types (t ∷ ts) seen =
    enabled_types ts (if t.enabled then insert (transport_name t.type) tt seen else seen)

unfoldable pub distinct_enabled_transport_types : List Transport → ℕ
unfolding enabled_types size
distinct_enabled_transport_types ts = size (enabled_types ts empty)

-- `NodeActivationEvidence`; only one value is known.
abbrev pub exit_data_plane_verified : String
exit_data_plane_verified = "exit_data_plane_verified"

pub record User : Type 0 where
  pub id : String
  pub telegram_id : Option ℕ
  pub email : Option String
  pub status : UserStatus
  pub reality_short_id : String
  pub uuid : String
  pub hysteria2_password : String
  pub private_key : String
  pub subscription_id : Option String
  pub device_limit : ℕ
  pub quota_bytes : ℕ
  pub used_bytes : ℕ
  pub created_at : Time
  pub updated_at : Time

unfoldable pub valid_user : User → Bool
valid_user u =
    not (u.id == "")
    && valid_user_status u.status
    && not (u.reality_short_id == "")
    && not (u.uuid == "")

abbrev pub user_active : UserStatus → Bool
user_active active = true
user_active _ = false

pub record Subscription : Type 0 where
  pub id : String
  pub user_id : String
  pub plan : String
  pub status : SubStatus
  pub token : String
  pub traffic_limit_bytes : ℕ
  pub speed_limit_mbps : ℕ
  pub device_limit : ℕ
  pub grace_until : Option Time
  pub billing_revision : ℕ
  pub starts_at : Time
  pub expires_at : Option Time
  pub created_at : Time
  pub updated_at : Time

unfoldable pub valid_subscription : Subscription → Bool
valid_subscription s =
    not (s.id == "")
    && not (s.user_id == "")
    && valid_plan s.plan
    && valid_sub_status s.status
    && not (s.token == "")

-- `AccessUntil`
abbrev grace_or : Option Time → Option Time → Option Time
grace_or none expires = expires
grace_or (some t) expires = some t

unfoldable pub access_until : Subscription → Option Time
access_until s = grace_or s.grace_until s.expires_at

pub record SubscriptionPatch : Type 0 where
  pub status : Option SubStatus
  pub expires_at : Option Time

abbrev valid_patch_status : Option SubStatus → Bool
valid_patch_status none = true
valid_patch_status (some s) = valid_sub_status s

unfoldable pub valid_patch : SubscriptionPatch → Bool
valid_patch p = valid_patch_status p.status

unfoldable pub patch_is_zero : SubscriptionPatch → Bool
patch_is_zero p = not (is_some p.status) && not (is_some p.expires_at)

-- `BillingState.Validate`
unfoldable pub valid_billing_state : BillingState → Bool
valid_billing_state s =
    not (not (s.plan == "") && not (valid_plan s.plan))
    && ltb 0 s.revision
    && valid_sub_status s.status
    && not (is_zero s.expires_at)
    && not (before s.grace_until s.expires_at)

-- `servable`, of the use cases and of the repositories.
abbrev pub servable : SubStatus → Bool
servable SubStatus.active = true
servable trialing = true
servable past_due = true
servable _ = false

pub record RealityUser : Type 0 where
  pub uuid : String
  pub short_id : String

pub record AccessUser : Type 0 where
  pub uuid : String
  pub short_id : String
  pub hysteria2_password : String

pub record NodeRealityUsers : Type 0 where
  pub revision : String
  pub users : List RealityUser

pub record NodeAccessUsers : Type 0 where
  pub revision : String
  pub valid_until : Time
  pub users : List AccessUser

pub record SubscriptionBundle : Type 0 where
  pub user : User
  pub nodes : List Node
  pub generated_at : Time

-- domain/errors.go; `failure` is any other error.
pub data Error : Type 0 where
  not_found conflict validation failure : Error

pub data Result {ℓ} (A : Type ℓ) : Type ℓ where
  ok : A → Result A
  err : Error → Result A

-- `v, ok := m[k]; if !ok { return ErrNotFound }`
abbrev pub or_not_found {ℓ} : {A : Type ℓ} → Option A → Result A
or_not_found none = err not_found
or_not_found (some a) = ok a
