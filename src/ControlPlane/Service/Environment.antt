-- ===== src/ControlPlane/Service/Environment.antt =====
-- What the services reach outside their process: the clock, the secrets' random source
-- (internal/secret), the subscription service (`SubscriptionRevoker`), and the functions of
-- cryptography. All that can change is one state, which every call may move. The cipher is configured;
-- a service without a revoker is one whose calls leave the state alone.
use casper_vpn.Base.{String, ℕ, Time, Bool, Option, none, some, ◌≡◌, refl, ◌⊎◌, inl, inr}
use casper_vpn.Billing.Environment.{BillingState}
use casper_vpn.ControlPlane.Contracts.{failure, Result, ok, err}
use casper_vpn.ControlPlane.Action.{Action}
use casper_vpn.ControlPlane.Store.State.{State}
use casper_vpn.ControlPlane.Store.AllowList.{Digests}

pub record Environment : Type 1 where
  pub Outside : Type 0
  -- `now()`
  pub clock : Outside → Time × Outside
  -- `secret.UUIDv4`, `Token`, `RealityShortID`, `PrivateKey` and `NodeID`; `none` is an error.
  pub uuid : Outside → Option String × Outside
  pub token : Outside → Option String × Outside
  pub short_id : Outside → Option String × Outside
  pub private_key : Outside → Option String × Outside
  pub node_id : Outside → Option String × Outside
  -- The calls of the revoker: whether they returned without an error.
  pub revoke_user : String → Outside → Bool × Outside
  pub revoke_subscription : String → Outside → Bool × Outside
  pub register_token : String → String → String → Outside → Bool × Outside
  -- `TokenCipher`: its key's id, `Seal`, which draws a nonce, and `Open`.
  pub key_id : String
  pub seal : String → String → Outside → Option String × Outside
  pub unseal : String → String → String → Option String
  -- `secret.HashToken`, and the number of bytes that `hex.DecodeString` gives.
  pub hash_token : String → String
  pub hex_length : String → Option ℕ
  pub digests : Digests
  pub billing_digest : BillingState → String

pub record World (e : Environment) : Type 0 where
  pub store : State
  pub outside : Environment.Outside e

module _ (env : Environment) where
  open env use {Outside, clock}

  abbrev pub at : {A : Type 0} → World env → Result A × State → Result A × World env
  at w (r, s) = (r, record w { store = s })

  -- A method of a store.
  abbrev pub in_store : {A : Type 0} → Action State A → Action (World env) A
  in_store m w = at w (m w.store)

  abbrev pub taking_time : Time × Outside → World env → Result Time × World env
  taking_time (t, o) w = (ok t, record w { outside = o })

  abbrev pub now : Action (World env) Time
  now w = taking_time (clock w.outside) w

  abbrev pub drawn : {A : Type 0} → Option A × Outside → World env → Result A × World env
  drawn (none, o) w = (err failure, record w { outside = o })
  drawn (some a, o) w = (ok a, record w { outside = o })

  -- A call that may fail.
  abbrev pub draw : {A : Type 0} → (Outside → Option A × Outside) → Action (World env) A
  draw f w = drawn (f w.outside) w

  -- A call whose error is only logged.
  abbrev pub notify : (Outside → Bool × Outside) → Action (World env) (Unit {0})
  notify f w = (ok tt, record w { outside = (f w.outside).1 })

  -- A job for the rebuild queue.
  abbrev pub change : (State → State) → Action (World env) (Unit {0})
  change f w = (ok tt, record w { store = f w.store })

-- The two outcomes of a draw.
pub draw-cases {ℓ} :
    {A : Type 0} {O : Type ℓ} (p : Option A × O)
    → ((o : O) × (p ≡ (none, o))) ⊎ ((a : A) × (o : O) × (p ≡ (some a, o)))
draw-cases (none, o) = inl (o, refl)
draw-cases (some a, o) = inr (a, o, refl)
