-- ===== src/Billing/Payment/Processor/Safety.antt =====
-- No credit without an honest payment, and no second credit for an invoice.
use casper_vpn.Base.{
  String, Duration, List, true, Option, none, some, ◌≡◌, ◌≢◌, refl, sym, ap, ◌∙◌, inl, inr, ◌⊎◌,
  arith, Bool-cases, ℕ, false, not, ltb, is_zero, ◌-◌, ◌+◌, ◌≤◌, ◌&&◌, is_some, eq_iff, All,
}
use casper_vpn.Map.{lookup, lookup-insert_self}
use casper_vpn.Billing.Model.{Status, settled, Invoice, Event, Result, ok, err}
use casper_vpn.Billing.Store.State.{Store}
use casper_vpn.Billing.Store.Invoices.{set_invoice_status, record_event, seen_event, event_key}
use casper_vpn.Billing.Store.Credits.{lease_key}
use casper_vpn.Billing.Store.Calls.{Call, apply, run}
use casper_vpn.Billing.Store.Reach.{Reaches_invariant, run_invariant}
use casper_vpn.Billing.Store.Keyed.{IsKeyed, apply-IsKeyed}
use casper_vpn.Billing.Store.Claims.{
  IsClaimed, KeepsClaim, apply-IsClaimed, run-IsClaimed, claim-claims,
}
use casper_vpn.Billing.Environment.{Environment, World}
use casper_vpn.Billing.Money.{Rat, gte}
use casper_vpn.Billing.Activator.{Catalog, credit_invoice}
use casper_vpn.Billing.Activator.Keeps.{credit_invoice_keeps}
use casper_vpn.Billing.Payment.Processor.{fraud, is_stale, settle, process, note_settled, by_status}
use casper_vpn.Billing.Payment.Processor.Outcome.{
  IsIdle, IsClean, Outcome, idle, credited, claimed, process-Outcome, process_clean,
}
use casper_vpn.Billing.Payment.Processor.Calls.{process-Reaches}

-- The id is not the key of an outbox lease: it does not begin with "delivery:".
abbrev pub IsPlain : String → Type 0
IsPlain id = (k : String) → lease_key k ≢ id

taken : {A : Type 0} (o : Option A) → is_some o ≡ true → o ≡ none → ⊥
taken o h e = cc (rw e at h)

nothing : {A : Type 0} (o : Option A) → is_some o ≡ false → o ≡ none
nothing none h = refl
nothing (some a) h = cc

-- The replay check lets through what is not older than the window.
in_window :
    (window at now : ℕ)
    → (ltb 0 window && not (is_zero at) && ltb window (now - at)) ≡ false
    → (window ≡ 0) ⊎ (at ≡ 0) ⊎ (now ≤ at + window)
in_window window at now h = elim (Bool-cases (ltb 0 window)) [
  | inr e ↦ inl (ground arith)
  | inl e ↦ elim (Bool-cases (is_zero at)) [
    | inl f ↦ inr (inl (ground arith))
    | inr f ↦ inr (inr (ground arith))
  ]
]

module _ (env : Environment) (set_string : String → Option Rat) (catalog : Catalog) where
  -- What the anti-fraud checks leave: the gateway that owns the invoice, its currency and the full
  -- amount, where the event states them.
  pub honest_payment :
      (ev : Event) (inv : Invoice)
      → fraud set_string ev inv ≡ none
      → (ev.provider ≡ inv.provider)
        × ((ev.currency ≡ "") ⊎ (ev.currency ≡ inv.currency))
        × ((ev.amount ≡ "") ⊎ (gte set_string ev.amount inv.amount ≡ some true))
  unfolding fraud
  honest_payment ev inv h = ground (
    arith,
    eq_iff ev.provider inv.provider,
    eq_iff ev.currency "",
    eq_iff ev.currency inv.currency,
    eq_iff ev.amount "",
  )

  -- An event that deserves a credit for an invoice.
  pub record Deserves (window : Duration) (ev : Event) (w : World env) (inv : Invoice)
      : Type 0 where
    pub timely : (window ≡ 0) ⊎ (ev.timestamp ≡ 0) ⊎ (env.clock w.outside ≤ ev.timestamp + window)
    pub unseen : lookup (event_key ev.provider ev.external_id) w.store.events ≡ none
    pub paid : ev.status ≡ settled
    pub known : lookup ev.invoice_id w.store.invoices ≡ some inv
    pub unclaimed : lookup inv.id w.store.settled ≡ none
    pub provider : ev.provider ≡ inv.provider
    pub currency : (ev.currency ≡ "") ⊎ (ev.currency ≡ inv.currency)
    pub amount : (ev.amount ≡ "") ⊎ (gte set_string ev.amount inv.amount ≡ some true)

  -- `Process` stages a credit only for an event that is not older than the replay window, where there
  -- is a window and the event has a time, that was not processed before, says that its invoice is
  -- settled, comes from the invoice's gateway, states no currency or the invoice's, and no amount or one
  -- that covers the invoice's; and only if nobody had claimed the invoice.
  pub credit_needs_payment :
      (window : Duration) (ev : Event) (w : World env)
      → (process env set_string catalog window ev w).1.store.invoice_deliveries
        ≢ w.store.invoice_deliveries
      → (inv : Invoice) × Deserves window ev w inv
  unfolding is_stale seen_event
  credit_needs_payment window ev w changed = go (process-Outcome env set_string catalog window ev w)
    where
      go :
          Outcome env set_string catalog window ev w (process env set_string catalog window ev w)
          → (inv : Invoice) × Deserves window ev w inv
      go (idle i) = absurd (changed i.credit.invoice_deliveries)
      go (credited inv clean e) =
          let (provider, currency, amount) = honest_payment ev inv clean.honest in
          (
            inv,
            record {
              timely = in_window window ev.timestamp (env.clock w.outside) clean.timely;
              unseen = nothing _ clean.unseen;
              paid = clean.paid;
              known = clean.known;
              unclaimed = clean.unclaimed;
              provider = provider;
              currency = currency;
              amount = amount;
            },
          )

  credit-IsClaimed :
      (id : String) (inv : Invoice) (w : World env)
      → IsPlain id
      → IsClaimed id w.store
      → IsClaimed id (credit_invoice env catalog inv w).1.store
  unfolding apply
  credit-IsClaimed id inv w plain h =
      credit_invoice_keeps env (IsClaimed id)
        (λ k now s p. apply-IsClaimed (Call.complete_billing_delivery k now) id s (plain k) p)
        (λ i sub user now dur grace s p.
          apply-IsClaimed (Call.stage_invoice_credit i sub user now dur grace) id s tt p)
        catalog inv w h

  noted-IsClaimed :
      (id : String) (ev : Event) (r : Result (Unit {0}) × World env)
      → IsClaimed id r.1.store
      → IsClaimed id (note_settled env set_string catalog ev r).1.store
  unfolding record_event
  noted-IsClaimed id ev (err e, w) h = h
  noted-IsClaimed id ev (ok x, w) h = h

  -- An event that is credited, or that fails on the way, leaves its invoice claimed.
  pub clean-IsClaimed :
      (window : Duration) (ev : Event) (w : World env) (inv : Invoice)
      → IsPlain inv.id
      → IsClean env set_string catalog window ev w inv
      → IsClaimed inv.id (process env set_string catalog window ev w).1.store
  clean-IsClaimed window ev w inv plain clean =
      let w' = claimed env set_string catalog inv w in
      rw (process_clean env set_string catalog window ev w inv clean) (
        noted-IsClaimed inv.id ev (credit_invoice env catalog inv w') (
          credit-IsClaimed inv.id inv w' plain (claim-claims inv.id (env.clock w.outside) w.store)))

  -- An event for an invoice that is claimed credits nothing and calls nobody.
  pub claimed-IsIdle :
      (window : Duration) (ev : Event) (w : World env)
      → IsKeyed w.store.invoices
      → IsClaimed ev.invoice_id w.store
      → IsIdle env set_string catalog w (process env set_string catalog window ev w).1
  claimed-IsIdle window ev w keyed h = go (process-Outcome env set_string catalog window ev w)
    where
      go :
          Outcome env set_string catalog window ev w (process env set_string catalog window ev w)
          → IsIdle env set_string catalog w (process env set_string catalog window ev w).1
      go (idle i) = i
      go (credited inv clean e) = absurd (
          taken (lookup ev.invoice_id w.store.settled) h
            (rw (keyed ev.invoice_id inv clean.known) at clean.unclaimed))

  -- Two deliveries that settle one invoice credit it once. Let a clean event for the invoice `inv` be
  -- processed, with whatever outcome, the control plane's failures included. Then after any calls of
  -- the store that do not give up the invoice's claim, and with the rest of the world in any state,
  -- processing any event for the same invoice leaves the claims and the credit ledger as they are and
  -- calls nobody outside. The invoices are stored under their ids, and the invoice's id does not begin
  -- with "delivery:".
  pub second_settlement-IsIdle :
      (window : Duration) (ev ev' : Event) (w w' : World env) (inv : Invoice) (cs : List Call)
      → IsKeyed w.store.invoices
      → IsPlain inv.id
      → IsClean env set_string catalog window ev w inv
      → All (KeepsClaim inv.id) cs
      → w'.store ≡ run cs (process env set_string catalog window ev w).1.store
      → ev'.invoice_id ≡ ev.invoice_id
      → IsIdle env set_string catalog w' (process env set_string catalog window ev' w').1
  second_settlement-IsIdle window ev ev' w w' inv cs keyed plain clean keep at same =
      let s = (process env set_string catalog window ev w).1.store in
      let id : inv.id ≡ ev'.invoice_id = keyed ev.invoice_id inv clean.known ∙ sym same in
      let keyed' : IsKeyed s.invoices =
        Reaches_invariant (λ t. IsKeyed t.invoices) apply-IsKeyed w.store s
          (process-Reaches env set_string catalog window ev w) keyed in
      claimed-IsIdle window ev' w'
        (rw at (run_invariant (λ t. IsKeyed t.invoices) apply-IsKeyed cs s keyed'))
        (rw (← id, at)
          (run-IsClaimed cs inv.id s keep (clean-IsClaimed window ev w inv plain clean)))

  -- An event that was processed to its end is a delivery replay.
  pub seen_frozen :
      (window : Duration) (ev : Event) (w : World env)
      → seen_event ev.provider ev.external_id w.store ≡ true
      → (process env set_string catalog window ev w).1 ≡ w
  unfolding process
  seen_frozen window ev w h = elim (Bool-cases (is_stale window (env.clock w.outside) ev)) [
    | inl t ↦ rw t refl
    | inr t ↦ rw (t, h) refl
  ]

  recorded : (p e : String) (s : Store) → seen_event p e (record_event p e s) ≡ true
  unfolding record_event seen_event
  recorded p e s = rw (lookup-insert_self (event_key p e) tt s.events) refl

  noted_seen :
      (ev : Event) (r : Result (Unit {0}) × World env)
      → (note_settled env set_string catalog ev r).0 ≡ ok tt
      → seen_event ev.provider ev.external_id (note_settled env set_string catalog ev r).1.store
        ≡ true
  noted_seen ev (err e, w) h = cc
  noted_seen ev (ok x, w) h = recorded ev.provider ev.external_id w.store

  status_seen :
      (st : Status) (ev : Event) (w : World env)
      → (by_status env set_string catalog st ev w).0 ≡ ok tt
      → ((by_status env set_string catalog st ev w).1 ≡ w)
        ⊎ (seen_event ev.provider ev.external_id (by_status env set_string catalog st ev w).1.store
            ≡ true)
  status_seen Status.settled ev w h = inr (noted_seen ev (settle env set_string catalog ev w) h)
  status_seen Status.expired ev w h = inr (
      recorded ev.provider ev.external_id
        (set_invoice_status ev.invoice_id Status.expired w.store).1)
  status_seen Status.invalid ev w h = inr (
      recorded ev.provider ev.external_id
        (set_invoice_status ev.invoice_id Status.invalid w.store).1)
  status_seen _ ev w h = inl refl

  ends_seen :
      (window : Duration) (ev : Event) (w : World env)
      → (process env set_string catalog window ev w).0 ≡ ok tt
      → ((process env set_string catalog window ev w).1 ≡ w)
        ⊎ (seen_event ev.provider ev.external_id
              (process env set_string catalog window ev w).1.store
            ≡ true)
  unfolding process
  ends_seen window ev w h = elim (Bool-cases (is_stale window (env.clock w.outside) ev)) [
    | inl t ↦ rw t (inl refl)
    | inr t ↦ elim (Bool-cases (seen_event ev.provider ev.external_id w.store)) [
      | inl u ↦ rw (t, u) (inl refl)
      | inr u ↦ rw (t, u) (status_seen ev.status ev w (rw (t, u) at h))
    ]
  ]

  -- Processing an event again, when the first time ended without an error, changes nothing, neither
  -- in the store nor outside.
  pub process_again :
      (window : Duration) (ev : Event) (w : World env)
      → (process env set_string catalog window ev w).0 ≡ ok tt
      → let w' = (process env set_string catalog window ev w).1 in
        (process env set_string catalog window ev w').1 ≡ w'
  process_again window ev w h = elim (ends_seen window ev w h) [
    | inl same ↦ ap (λ v. (process env set_string catalog window ev v).1) same
    | inr seen ↦ seen_frozen window ev (process env set_string catalog window ev w).1 seen
  ]
