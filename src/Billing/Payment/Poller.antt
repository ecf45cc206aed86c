-- ===== src/Billing/Payment/Poller.antt =====
-- services/billing/internal/payment/poller.go: one poll cycle, and the policies' defaults and checks.
use casper_vpn.Base.{
  String, ℕ, Time, Duration, Bool, not, Option, none, some, List, [], ◌∷◌, ◌+◌, ◌-◌, ◌*◌, ◌&&◌,
  ◌||◌, ◌==◌, leb, after, before, is_zero, nat_eq, keep_if, if◌then◌else◌,
}
use casper_vpn.Billing.Model.{Invoice, Event}
use casper_vpn.Billing.Store.State.{Store}
use casper_vpn.Billing.Store.Invoices.{open_invoices}
use casper_vpn.Billing.Store.Settlements.{
  expire_overdue, acquire_poll_lease, release_poll_lease, record_negative_check,
  clear_negative_check,
}
use casper_vpn.Billing.Environment.{
  Environment, World, Check, unavailable, paid, negative, undecided,
}
use casper_vpn.Billing.Money.{Rat}
use casper_vpn.Billing.Activator.{Catalog}
use casper_vpn.Billing.Payment.Processor.{process}
use casper_vpn.Billing.Payment.Recovery.{reconcile}

abbrev pub second : Duration
second = 1000000000

-- `OnChain`, whose fields are 0 where they are not set.
pub record OnChain : Type 0 where
  pub grace : Duration
  pub poll_lease : Duration
  pub chain_timeout : Duration
  pub owner : String

abbrev or_else : Duration → Duration → Duration
or_else d fallback = if is_zero d then fallback else d

unfoldable pub on_chain_defaults : OnChain → OnChain
on_chain_defaults o = record o {
  poll_lease = or_else o.poll_lease (30 * second);
  chain_timeout = or_else o.chain_timeout (10 * second);
  owner = if o.owner == "" then "poller" else o.owner;
}

-- `Validate`: whether there is no error.
unfoldable pub on_chain_valid : OnChain → Bool
on_chain_valid o = not (is_zero o.grace) && not (leb o.poll_lease o.chain_timeout)

pub record RecoveryPolicy : Type 0 where
  pub stale_threshold : Duration
  pub lease_for : Duration
  pub batch : ℕ

unfoldable pub recovery_defaults : RecoveryPolicy → RecoveryPolicy
recovery_defaults r = record {
  stale_threshold = or_else r.stale_threshold (120 * second);
  lease_for = or_else r.lease_for (60 * second);
  batch = if nat_eq r.batch 0 then 100 else r.batch;
}

-- A registered gateway: its name, and whether it is an `OnChainGateway`.
pub record Gateway : Type 0 where
  pub name : String
  pub on_chain : Bool

unfoldable pub within_deadline : Time → List Invoice → List Invoice
within_deadline now invoices =
    keep_if (λ inv. is_zero inv.expires_at || not (after now inv.expires_at)) invoices

module _ (env : Environment) (set_string : String → Option Rat) (catalog : Catalog)
    (window : Duration) (policy : OnChain) where
  open env use {State, clock, new_id, check_invoice, poll}

  abbrev with_store : World env → (Store → Store) → World env
  with_store w f = record w { store = f w.store }

  -- The `switch` of `checkLeased`.
  abbrev pub handle_check : Check → Invoice → World env → World env
  handle_check unavailable inv w = w
  handle_check (paid ev) inv w =
      (process env set_string catalog window ev (with_store w (clear_negative_check inv.id))).1
  handle_check negative inv w =
      if not (before (clock w.outside) (inv.expires_at + policy.grace))
      then with_store w (record_negative_check inv.id (clock w.outside))
      else w
  handle_check undecided inv w = w

  abbrev check_answered : Check × State → Invoice → World env → World env
  check_answered (c, o) inv w = handle_check c inv (record w { outside = o })

  -- The lease is given back after the hand-over, by `defer`.
  unfoldable pub check_leased : String → Invoice → String → World env → World env
  check_leased gateway inv token w =
      with_store (check_answered (check_invoice gateway inv w.outside) inv w)
        (release_poll_lease inv.id token)

  abbrev check_acquired : Option String × Store → String → Invoice → World env → World env
  check_acquired (none, s) gateway inv w = record w { store = s }
  check_acquired (some token, s) gateway inv w =
      check_leased gateway inv token (record w { store = s })

  abbrev with_token : String × State → String → Invoice → World env → World env
  with_token (token, o) gateway inv w =
      check_acquired
        (acquire_poll_lease inv.id policy.owner policy.poll_lease token (clock o) w.store) gateway
        inv (record w { outside = o })

  unfoldable pub poll_invoice : String → Invoice → World env → World env
  unfolding check_leased
  poll_invoice gateway inv w =
      if inv.provider == gateway then with_token (new_id w.outside) gateway inv w else w

  unfoldable pub poll_on_chain : String → List Invoice → World env → World env
  unfolding poll_invoice
  poll_on_chain gateway [] w = w
  poll_on_chain gateway (inv ∷ rest) w = poll_on_chain gateway rest (poll_invoice gateway inv w)

  unfoldable pub process_all : List Event → World env → World env
  process_all [] w = w
  process_all (ev ∷ rest) w = process_all rest (process env set_string catalog window ev w).1

  abbrev polled : Option (List Event) × State → World env → World env
  polled (none, o) w = record w { outside = o }
  polled (some events, o) w = process_all events (record w { outside = o })

  unfoldable pub poll_gateway : Gateway → List Invoice → World env → World env
  unfolding poll_on_chain process_all
  poll_gateway g invoices w =
      if g.on_chain
      then poll_on_chain g.name invoices w
      else polled (poll g.name (within_deadline (clock w.outside) invoices) w.outside) w

  unfoldable pub poll_gateways : List Gateway → List Invoice → World env → World env
  unfolding poll_gateway
  poll_gateways [] invoices w = w
  poll_gateways (g ∷ rest) invoices w = poll_gateways rest invoices (poll_gateway g invoices w)

  abbrev pub on_chain_names : List Gateway → List String
  on_chain_names [] = []
  on_chain_names (g ∷ rest) =
      if g.on_chain then g.name ∷ on_chain_names rest else on_chain_names rest

  -- `RunOnce`. The report of the recovery goes to the log and changes nothing.
  unfoldable pub run_once : RecoveryPolicy → List Gateway → World env → World env
  unfolding poll_gateways reconcile
  run_once r gateways w =
      let (_, w₁) =
        reconcile env catalog (clock w.outside - r.stale_threshold) r.lease_for r.batch w in
      let w₂ = poll_gateways gateways (open_invoices w₁.store) w₁ in
      with_store w₂ (expire_overdue (clock w₂.outside) (on_chain_names gateways) policy.grace)
