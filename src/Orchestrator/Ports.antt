-- ===== src/Orchestrator/Ports.antt =====
-- services/orchestrator/internal/ports: what the reconcile loop reaches. All of it is one state, which
-- each call may change; the log keeps the calls and their answers, the latest first, for the theorems.
-- The tickers and time limits of the adapters are not modelled.
use casper_vpn.Base.{String, Time, Bool, true, false, Option, none, some, List, ◌∷◌}
use casper_vpn.Orchestrator.Policy.{HealthEvent, Recommendations}
use casper_vpn.ControlPlane.Contracts.{Node, NodeAccessUsers, failure, Result, ok, err}
use casper_vpn.ControlPlane.Action.{Action}

-- `contracts.HealthEvent`, with the node that it is about.
pub record Verdict : Type 0 where
  pub node_id : String
  pub event : HealthEvent

pub record ProvisionedPair : Type 0 where
  pub run_id : String
  pub entry_id : String
  pub exit_id : String

-- An answer `none` or `false` is an error.
pub record Ports : Type 1 where
  pub Outside : Type 0
  pub clock : Outside → Time × Outside
  pub recommendations : Outside → Option Recommendations × Outside
  pub report_health : Verdict → Outside → Bool × Outside
  pub list_nodes : Outside → Option (List Node) × Outside
  pub get_node : String → Outside → Option Node × Outside
  pub update_node : Node → Outside → Bool × Outside
  pub access_users : String → Outside → Option NodeAccessUsers × Outside
  pub node_up : String → String → Outside → Option ProvisionedPair × Outside
  pub node_rotate : Node → Outside → Bool × Outside
  pub node_down : Node → Outside → Bool × Outside
  pub sync_access : Node → NodeAccessUsers → Outside → Bool × Outside
  pub probe : Node → Outside → Option Verdict × Outside
  -- `Format(time.RFC3339)` and `time.Parse(time.RFC3339, ·)`
  pub format : Time → String
  pub parse : String → Option Time

pub data Request : Type 0 where
  listed read_recommendations probed read_access : Request
  got : String → Option Node → Request
  reported : Verdict → Request
  updated : Node → Bool → Request
  upped : String → String → Option ProvisionedPair → Request
  rotated : Node → Bool → Request
  downed : Node → Bool → Request
  synced : Node → Bool → Request

-- The requests that change something outside the orchestrator.
abbrev pub changes : Request → Bool
changes (reported v) = true
changes (updated n b) = true
changes (upped r c p) = true
changes (rotated n b) = true
changes (downed n b) = true
changes (synced n b) = true
changes _ = false

pub record World (p : Ports) : Type 0 where
  pub outside : Ports.Outside p
  pub log : List Request

module _ (ports : Ports) where
  open ports use {Outside}

  -- A call that answers `none` on an error.
  abbrev pub answer :
      {A : Type 0}
      → (Option A → Request)
      → Option A × Outside
      → List Request
      → Result A × World ports
  answer request (none, o) log = (err failure, record { outside = o; log = request none ∷ log })
  answer request (some a, o) log = (ok a, record { outside = o; log = request (some a) ∷ log })

  abbrev pub ask :
      {A : Type 0} → (Option A → Request) → (Outside → Option A × Outside) → Action (World ports) A
  ask request call w = answer request (call w.outside) w.log

  abbrev pub outcome :
      (Bool → Request) → Bool × Outside → List Request → Result (Unit {0}) × World ports
  outcome request (false, o) log = (err failure, record { outside = o; log = request false ∷ log })
  outcome request (true, o) log = (ok tt, record { outside = o; log = request true ∷ log })

  abbrev pub order : (Bool → Request) → (Outside → Bool × Outside) → Action (World ports) (Unit {0})
  order request call w = outcome request (call w.outside) w.log

  abbrev pub now : Action (World ports) Time
  now w = (ok (ports.clock w.outside).0, record w { outside = (ports.clock w.outside).1 })
