-- ===== src/Orchestrator/Reconcile/Drain.antt =====
-- Old nodes drain only when their replacement serves: what this means for the log, and the rules that
-- the handlers follow.
pub mod Cycle
use casper_vpn.Base.{
  String, ℕ, suc, Time, Bool, true, false, not, Option, none, some, List, [], ◌∷◌, ◌≡◌, refl, ap,
  sym, subst, ◌∙◌, ◌+◌, ◌≤◌, ◌&&◌, ◌==◌, inl, inr, if◌then◌else◌, arith, Bool-cases, Option-cases,
  count_if, max,
}
use casper_vpn.Map.{Map, lookup, empty}
use casper_vpn.Orchestrator.Policy.{NodeStatus, NodeBlock, Recommendations, ActionType}
use casper_vpn.Orchestrator.Policy
use casper_vpn.Orchestrator.Ports.{
  Ports, World, Verdict, ProvisionedPair, Request, changes, answer, ask, outcome, order, now,
}
use casper_vpn.ControlPlane.Contracts.{Node, Error, Result, ok, err}
use casper_vpn.ControlPlane.Action.{
  Action, next, ◌>>=◌, ◌>>◌, Moves, >>=-Moves, >>=-moves_at, Yields, >>=-Yields, done, fail,
  reject_if, try, ignore,
}
use casper_vpn.Orchestrator.Reconcile.{
  Options, Report, by_id, get_node, update_node, sync_node, sync_fleet_access, tell, note, suspect,
  is_probed, confirm, confirm_suspects, old_pair, draining_since, drain, rotate_entry, replace_pair,
  mark_retired, retire_node, execute, node_or_blank, is_noop, is_mark, run_plan, recs_or_none,
  input_of, act, cycle, is_active,
}

-- The latest requests: a pair was provisioned, both of its nodes were then read as active, and since
-- then only nodes were written.
pub data Replaced : List Request → Type 0 where
  verified :
      (region cloud : String) (pair : ProvisionedPair) (entry exit : Node) (log : List Request)
      → is_active entry ≡ true
      → is_active exit ≡ true
      → Replaced (
          Request.got pair.exit_id (some exit)
          ∷ Request.got pair.entry_id (some entry)
          ∷ Request.upped region cloud (some pair)
          ∷ log)
  written :
      (n : Node) (b : Bool) (log : List Request)
      → Replaced log
      → Replaced (Request.updated n b ∷ log)

-- Each request that sends a draining node comes after such a replacement.
unfoldable pub OnlyReplaced : List Request → Type 0
OnlyReplaced [] = Unit {0}
OnlyReplaced (Request.updated n b ∷ log) =
    (Policy.is_draining n.status ≡ true → Replaced log) × OnlyReplaced log
OnlyReplaced (r ∷ log) = OnlyReplaced log

module _ (ports : Ports) where
  unfoldable pub Kept : World ports → World ports → Type 0
  unfolding OnlyReplaced
  Kept w w' = OnlyReplaced w.log → OnlyReplaced w'.log

  pub chain :
      {A B : Type 0} (m : Action (World ports) A) (f : A → Action (World ports) B)
      → Moves Kept m
      → ((a : A) → Moves Kept (f a))
      → Moves Kept (m >>= f)
  unfolding Kept
  chain m f h k = >>=-Moves Kept (λ a b c p q x. q (p x)) m f h k

  pub after_that :
      {B : Type 0} (m : Action (World ports) (Unit {0})) (k : Action (World ports) B)
      → Moves Kept m
      → Moves Kept k
      → Moves Kept (m >> k)
  unfolding ◌>>◌
  after_that m k h l = chain m (λ _. k) h (λ _. l)

  pub done-Kept : {A : Type 0} (a : A) → Moves Kept (done a)
  unfolding Kept
  done-Kept a = record { holds = λ w h. h }

  pub fail-Kept : {A : Type 0} (e : Error) → Moves Kept (fail {S = World ports} {A = A} e)
  unfolding Kept
  fail-Kept e = record { holds = λ w h. h }

  pub reject_if-Kept : (b : Bool) (e : Error) → Moves Kept (reject_if {S = World ports} b e)
  unfolding Kept
  reject_if-Kept true e = record { holds = λ w h. h }
  reject_if-Kept false e = record { holds = λ w h. h }

  pub now-Kept : Moves Kept (now ports)
  unfolding Kept
  now-Kept = record { holds = λ w h. h }

  pub try-Kept : {A : Type 0} (m : Action (World ports) A) → Moves Kept m → Moves Kept (try m)
  try-Kept m h = record { holds = h.holds }

  pub ignore-Kept : {A : Type 0} (m : Action (World ports) A) → Moves Kept m → Moves Kept (ignore m)
  ignore-Kept m h = record { holds = h.holds }

  pub choice-Kept :
      {A : Type 0} (b : Bool) (m k : Action (World ports) A)
      → Moves Kept m
      → Moves Kept k
      → Moves Kept (if b then m else k)
  choice-Kept true m k h l = h
  choice-Kept false m k h l = l

  -- A request that fits after the log as it is.
  unfoldable pub Fits : Request → List Request → Type 0
  unfolding OnlyReplaced
  Fits r log = OnlyReplaced log → OnlyReplaced (r ∷ log)

  pub ask_at :
      {A : Type 0} (request : Option A → Request)
      (call : Ports.Outside ports → Option A × Ports.Outside ports) (w : World ports)
      → ((o : Option A) → Fits (request o) w.log)
      → Kept w (ask ports request call w).1
  unfolding Kept Fits
  ask_at request call w fits = answered (call w.outside)
    where
      answered :
          (o : Option _ × Ports.Outside ports)
          → OnlyReplaced w.log
          → OnlyReplaced (answer ports request o w.log).1.log
      answered (none, o) = fits none
      answered (some a, o) = fits (some a)

  pub order_at :
      (request : Bool → Request) (call : Ports.Outside ports → Bool × Ports.Outside ports)
      (w : World ports)
      → ((b : Bool) → Fits (request b) w.log)
      → Kept w (order ports request call w).1
  unfolding Kept Fits
  order_at request call w fits = settled (call w.outside)
    where
      settled :
          (o : Bool × Ports.Outside ports)
          → OnlyReplaced w.log
          → OnlyReplaced (outcome ports request o w.log).1.log
      settled (true, o) = fits true
      settled (false, o) = fits false

  pub ask-Kept :
      {A : Type 0} (request : Option A → Request)
      (call : Ports.Outside ports → Option A × Ports.Outside ports)
      → ((o : Option A) (log : List Request) → Fits (request o) log)
      → Moves Kept (ask ports request call)
  ask-Kept request call fits = record { holds = λ w. ask_at request call w (λ o. fits o w.log) }

  pub order-Kept :
      (request : Bool → Request) (call : Ports.Outside ports → Bool × Ports.Outside ports)
      → ((b : Bool) (log : List Request) → Fits (request b) log)
      → Moves Kept (order ports request call)
  order-Kept request call fits = record { holds = λ w. order_at request call w (λ b. fits b w.log) }

  -- A node that is not draining is written.
  pub update-Kept :
      (n : Node) → Policy.is_draining n.status ≡ false → Moves Kept (update_node ports n)
  unfolding Fits OnlyReplaced
  update-Kept n calm =
      order-Kept (Request.updated n) (ports.update_node n)
        (λ b log h. (λ d. absurd (cc (d, calm)), h))

  pub get-Kept : (id : String) → Moves Kept (get_node ports id)
  unfolding Fits OnlyReplaced
  get-Kept id = ask-Kept (Request.got id) (ports.get_node id) (λ o log h. h)
