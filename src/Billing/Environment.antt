-- ===== src/Billing/Environment.antt =====
-- What billing reaches outside its own process: the control plane (controlplane/client.go), the
-- payment gateways, the clock, the request's context and the source of random ids. All of it is one
-- state that every call may change, so a call may take time, fail, or fail after it took effect.
use casper_vpn.Base.{String, ℕ, Time, Bool, Option, List}
use casper_vpn.Billing.Model.{SubStatus, Invoice, Event}
use casper_vpn.Billing.Store.State.{Store}

-- `contracts.BillingState`
pub record BillingState : Type 0 where
  pub plan : String
  pub revision : ℕ
  pub status : SubStatus
  pub expires_at : Time
  pub grace_until : Time

-- What `OnChainGateway.CheckInvoice` answers.
pub data Check : Type 0 where
  unavailable : Check
  paid : Event → Check
  negative : Check
  undecided : Check

pub record Environment : Type 1 where
  pub State : Type 0
  -- `now()`
  pub clock : State → Time
  -- `ctx.Err() != nil`
  pub canceled : State → Bool
  -- `idgen.New()`
  pub new_id : State → String × State
  -- `EnsureSubscription(user, plan)`: the id of the subscription, or an error.
  pub ensure_subscription : String → String → State → Option String × State
  -- `SetBillingState(subID, state)`: whether it returned without an error.
  pub set_billing_state : String → BillingState → State → Bool × State
  -- `CheckInvoice` of the gateway with this name.
  pub check_invoice : String → Invoice → State → Check × State
  -- `Poll` of the gateway with this name; `none` is an error.
  pub poll : String → List Invoice → State → Option (List Event) × State

-- Billing's store and the state of everything else.
pub record World (e : Environment) : Type 0 where
  pub store : Store
  pub outside : Environment.State e
