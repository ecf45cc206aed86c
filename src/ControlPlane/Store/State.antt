-- ===== src/ControlPlane/Store/State.antt =====
-- domain/models.go and domain/launch.go, the maps of adapters/memory as one state, and
-- domain/plan.go and domain/billing.go, which the stores call. The subscriptions are wired to the
-- users (`WithUsers`), as the program does. The queue's channel is the list of its jobs.
use casper_vpn.Base.{
  String, ℕ, Time, Bool, Option, List, [], ◌∷◌, ◌++◌, ◌*◌, ◌/◌, ◌==◌, if◌then◌else◌,
}
use casper_vpn.Map.{Map, empty}
use casper_vpn.Orchestrator.Policy.{NodeStatus}
use casper_vpn.Billing.Environment.{BillingState}
use casper_vpn.ControlPlane.Contracts.{NodeRole, Node, User, Subscription, SubscriptionBundle}

pub record NodeFilter : Type 0 where
  pub status : NodeStatus
  pub role : NodeRole
  pub region : String
  pub limit : ℕ
  pub cursor : String

pub record RotationRecord : Type 0 where
  pub id : String
  pub node_id : String
  pub from_status : Option NodeStatus
  pub to_status : NodeStatus
  pub reason : String
  pub entry_ip : String
  pub actor : String
  pub created_at : Time

pub record UserSecretRotation : Type 0 where
  pub id : String
  pub user_id : String
  pub old_reality_short_id : String
  pub old_vless_uuid : String
  pub reason : String
  pub created_at : Time

pub record SubscriptionSet : Type 0 where
  pub user_id : String
  pub revision : ℕ
  pub node_ids : List String
  pub bundle : SubscriptionBundle
  pub dirty : Bool
  pub generated_at : Time

-- `contracts.SignalType`
pub data SignalType : Type 0 where
  ok reset timeout dpi_block active_probe throttle dns_poison handshake_fail : SignalType
  other : String → SignalType

-- The averages of loss and delay, which no decision reads, are left out. `by_signal` holds each key
-- of the Go map once.
pub record SignalAggregate : Type 0 where
  pub node_id : String
  pub region : String
  pub window_start : Time
  pub window_end : Time
  pub total : ℕ
  pub by_signal : List (SignalType × ℕ)

-- `Verdict`; the empty one is that of a node without an aggregate.
pub data Verdict : Type 0 where
  healthy degraded blocked unset : Verdict

pub record NodeStatusChange : Type 0 where
  pub node_id : String
  pub from : NodeStatus
  pub to : NodeStatus

pub record SubscriptionWithToken : Type 0 where
  pub subscription : Subscription
  pub plain_token : String

pub record DeliveryToken : Type 0 where
  pub hash : String
  pub ciphertext : String
  pub key_id : String

pub record SubscriptionTokenBinding : Type 0 where
  pub user_id : String
  pub subscription_id : String

-- adapters/rebuild/queue.go: `job`
pub data Job : Type 0 where
  node_job user_job : String → Job

pub record State : Type 0 where
  pub nodes : Map Node
  pub users : Map User
  pub subs : Map Subscription
  pub billing_hashes : Map String
  pub delivery : Map DeliveryToken
  pub hashes : Map String
  pub node_recs : List RotationRecord
  pub user_recs : List UserSecretRotation
  pub sets : Map SubscriptionSet
  pub aggregates : List SignalAggregate
  pub jobs : List Job

abbrev pub new_state : State
new_state = record {
  nodes = empty;
  users = empty;
  subs = empty;
  billing_hashes = empty;
  delivery = empty;
  hashes = empty;
  node_recs = [];
  user_recs = [];
  sets = empty;
  aggregates = [];
  jobs = [];
}

abbrev pub enqueue_node : String → State → State
enqueue_node id s = record s { jobs = s.jobs ++ Job.node_job id ∷ [] }

abbrev pub enqueue_user : String → State → State
enqueue_user id s = record s { jobs = s.jobs ++ Job.user_job id ∷ [] }

-- `ApplyPlanLimits`
unfoldable pub apply_plan_limits : String → Subscription → Subscription
apply_plan_limits plan sub =
    if plan == "basic"
    then record sub {
      plan = plan;
      traffic_limit_bytes = 100 * 1024 * 1024 * 1024;
      speed_limit_mbps = 50;
      device_limit = 2;
    }
    else if plan == "unlimited"
    then record sub { plan = plan; traffic_limit_bytes = 0; speed_limit_mbps = 0; device_limit = 5 }
    else record sub { plan = plan }

-- `Truncate(time.Microsecond)`
abbrev pub truncate : Time → Time
truncate t = t / 1000 * 1000

-- `BillingFingerprint`; `digest` stands for the SHA-256 of the JSON.
unfoldable pub billing_fingerprint : (BillingState → String) → BillingState → String → String
billing_fingerprint digest state current = digest (record state {
  plan = if state.plan == "" then current else state.plan;
  expires_at = truncate state.expires_at;
  grace_until = truncate state.grace_until;
})
