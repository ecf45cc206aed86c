-- ===== src/Orchestrator/Reconcile/Requests.antt =====
-- How many requests to the infrastructure the steps of a handler add to the log.
use casper_vpn.Base.{
  ℕ, Bool, true, false, Option, none, some, List, ◌∷◌, ◌≡◌, refl, ◌+◌, ◌≤◌, inl, inr, if◌then◌else◌,
  arith, Bool-cases, count_if,
}
use casper_vpn.Orchestrator.Ports.{Ports, World, Request, answer, ask, outcome, order}
use casper_vpn.ControlPlane.Contracts.{Error, Result, ok, err}
use casper_vpn.ControlPlane.Action.{Action, next, ◌>>=◌, Moves, done, reject_if, try, ignore}

-- The requests that create, replace or destroy machines.
abbrev pub provisions : Request → Bool
provisions (Request.upped r c p) = true
provisions (Request.rotated n b) = true
provisions (Request.downed n b) = true
provisions _ = false

-- How many of them the log has.
pub provisions_in : List Request → ℕ
provisions_in log = count_if provisions log

module _ (ports : Ports) where
  -- At most so many requests to the infrastructure are added.
  unfoldable pub Adds : ℕ → World ports → World ports → Type 0
  Adds k w w' = provisions_in w'.log ≤ provisions_in w.log + k

  pub chain :
      {A B : Type 0} (j k : ℕ) (m : Action (World ports) A) (f : A → Action (World ports) B)
      → Moves (Adds j) m
      → ((a : A) → Moves (Adds k) (f a))
      → Moves (Adds (j + k)) (m >>= f)
  unfolding Adds ◌>>=◌
  chain {A} {B} j k m f h g = record { holds = λ w. after w (m w) (h.holds w) }
    where
      after :
          (w : World ports) (o : Result A × World ports)
          → provisions_in o.1.log ≤ provisions_in w.log + j
          → provisions_in (next f o).1.log ≤ provisions_in w.log + (j + k)
      after w (ok a, t) e = omega (arith, e, (g a).holds t)
      after w (err x, t) e = omega (arith, e)

  pub more-Adds :
      {A : Type 0} (j k : ℕ) (m : Action (World ports) A)
      → j ≤ k
      → Moves (Adds j) m
      → Moves (Adds k) m
  unfolding Adds
  more-Adds j k m h g = record { holds = λ w. omega (arith, h, g.holds w) }

  -- Steps that add nothing are put before or between others.
  pub quiet_then :
      {A B : Type 0} (k : ℕ) (m : Action (World ports) A) (f : A → Action (World ports) B)
      → Moves (Adds 0) m
      → ((a : A) → Moves (Adds k) (f a))
      → Moves (Adds k) (m >>= f)
  quiet_then k m f h g = more-Adds (0 + k) k (m >>= f) (omega arith) (chain 0 k m f h g)

  pub same-Adds :
      {A : Type 0} (k : ℕ) (m : Action (World ports) A)
      → ((w : World ports) → (m w).1.log ≡ w.log)
      → Moves (Adds k) m
  unfolding Adds
  same-Adds k m h = record { holds = λ w. rw (h w) (omega arith) }

  pub done-Adds : {A : Type 0} (k : ℕ) (a : A) → Moves (Adds k) (done a)
  done-Adds k a = same-Adds k _ (λ w. refl)

  pub reject-Adds : (b : Bool) (e : Error) → Moves (Adds 0) (reject_if b e)
  reject-Adds true e = same-Adds 0 _ (λ w. refl)
  reject-Adds false e = same-Adds 0 _ (λ w. refl)

  pub try-Adds :
      {A : Type 0} (k : ℕ) (m : Action (World ports) A) → Moves (Adds k) m → Moves (Adds k) (try m)
  unfolding Adds
  try-Adds k m h = record { holds = h.holds }

  pub ignore-Adds :
      {A : Type 0} (k : ℕ) (m : Action (World ports) A)
      → Moves (Adds k) m
      → Moves (Adds k) (ignore m)
  unfolding Adds
  ignore-Adds k m h = record { holds = h.holds }

  pub choice-Adds :
      {A : Type 0} (k : ℕ) (b : Bool) (m n : Action (World ports) A)
      → Moves (Adds k) m
      → Moves (Adds k) n
      → Moves (Adds k) (if b then m else n)
  choice-Adds k true m n h l = h
  choice-Adds k false m n h l = l

  -- One request more counts for one at most, and for none if it is of another kind.
  pub logged_le :
      (r : Request) (log : List Request) → provisions_in (r ∷ log) ≤ provisions_in log + 1
  unfolding provisions_in
  logged_le r log = elim (Bool-cases (provisions r)) [
    | inl e ↦ rw e (omega arith)
    | inr e ↦ rw e (omega arith)
  ]

  pub logged_quiet :
      (r : Request) (log : List Request)
      → provisions r ≡ false
      → provisions_in (r ∷ log) ≤ provisions_in log + 0
  unfolding provisions_in
  logged_quiet r log e = rw e (omega arith)

  pub ask-Adds_one :
      {A : Type 0} (request : Option A → Request)
      (call : Ports.Outside ports → Option A × Ports.Outside ports)
      → Moves (Adds 1) (ask ports request call)
  unfolding Adds
  ask-Adds_one {A} request call = record { holds = λ w. answered w (call w.outside) }
    where
      answered :
          (w : World ports) (o : Option A × Ports.Outside ports)
          → provisions_in (answer ports request o w.log).1.log ≤ provisions_in w.log + 1
      answered w (none, o) = logged_le (request none) w.log
      answered w (some a, o) = logged_le (request (some a)) w.log

  pub ask-Adds :
      {A : Type 0} (request : Option A → Request)
      (call : Ports.Outside ports → Option A × Ports.Outside ports)
      → ((o : Option A) → provisions (request o) ≡ false)
      → Moves (Adds 0) (ask ports request call)
  unfolding Adds
  ask-Adds {A} request call quiet = record { holds = λ w. answered w (call w.outside) }
    where
      answered :
          (w : World ports) (o : Option A × Ports.Outside ports)
          → provisions_in (answer ports request o w.log).1.log ≤ provisions_in w.log + 0
      answered w (none, o) = logged_quiet (request none) w.log (quiet none)
      answered w (some a, o) = logged_quiet (request (some a)) w.log (quiet (some a))

  pub order-Adds_one :
      (request : Bool → Request) (call : Ports.Outside ports → Bool × Ports.Outside ports)
      → Moves (Adds 1) (order ports request call)
  unfolding Adds
  order-Adds_one request call = record { holds = λ w. answered w (call w.outside) }
    where
      answered :
          (w : World ports) (o : Bool × Ports.Outside ports)
          → provisions_in (outcome ports request o w.log).1.log ≤ provisions_in w.log + 1
      answered w (false, o) = logged_le (request false) w.log
      answered w (true, o) = logged_le (request true) w.log

  pub order-Adds :
      (request : Bool → Request) (call : Ports.Outside ports → Bool × Ports.Outside ports)
      → ((b : Bool) → provisions (request b) ≡ false)
      → Moves (Adds 0) (order ports request call)
  unfolding Adds
  order-Adds request call quiet = record { holds = λ w. answered w (call w.outside) }
    where
      answered :
          (w : World ports) (o : Bool × Ports.Outside ports)
          → provisions_in (outcome ports request o w.log).1.log ≤ provisions_in w.log + 0
      answered w (false, o) = logged_quiet (request false) w.log (quiet false)
      answered w (true, o) = logged_quiet (request true) w.log (quiet true)
