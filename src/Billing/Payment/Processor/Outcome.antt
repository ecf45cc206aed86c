-- ===== src/Billing/Payment/Processor/Outcome.antt =====
-- The two ways in which `Process` can end: without a credit, or by the credit of a claimed invoice.
use casper_vpn.Base.{
  String, Duration, false, Option, none, some, ◌≡◌, refl, sym, ap, ◌∙◌, inl, inr, arith, Bool-cases,
  Option-cases, subst,
}
use casper_vpn.Map.{lookup}
use casper_vpn.Billing.Model.{Status, settled, expired, invalid, Invoice, Event, Error, Result}
use casper_vpn.Billing.Store.State.{Store}
use casper_vpn.Billing.Store.Invoices.{set_invoice_status, record_event, seen_event, get_invoice}
use casper_vpn.Billing.Store.Settlements.{claim_settlement}
use casper_vpn.Billing.Environment.{Environment, World}
use casper_vpn.Billing.Money.{Rat}
use casper_vpn.Billing.Activator.{Catalog, credit_invoice}
use casper_vpn.Billing.Payment.Processor.{
  fraud, is_stale, settle, process, note_settled, refuse, by_status,
}

-- Two stores with the same claims and the same credit ledger.
pub record SameCredit (s t : Store) : Type 0 where
  pub settled : t.settled ≡ s.settled
  pub schedules : t.schedules ≡ s.schedules
  pub deliveries : t.deliveries ≡ s.deliveries
  pub invoice_deliveries : t.invoice_deliveries ≡ s.invoice_deliveries

pub SameCredit-refl : (s : Store) → SameCredit s s
SameCredit-refl s = record {
  settled = refl;
  schedules = refl;
  deliveries = refl;
  invoice_deliveries = refl;
}

pub SameCredit-trans : (s t u : Store) → SameCredit s t → SameCredit t u → SameCredit s u
SameCredit-trans s t u a b = record {
  settled = b.settled ∙ a.settled;
  schedules = b.schedules ∙ a.schedules;
  deliveries = b.deliveries ∙ a.deliveries;
  invoice_deliveries = b.invoice_deliveries ∙ a.invoice_deliveries;
}

pub set_invoice_status-SameCredit :
    (id : String) (st : Status) (s : Store) → SameCredit s (set_invoice_status id st s).1
unfolding set_invoice_status
set_invoice_status-SameCredit id st s = ground arith

record_event-SameCredit : (p e : String) (s : Store) → SameCredit s (record_event p e s)
unfolding record_event
record_event-SameCredit p e s = ground arith

module _ (env : Environment) (set_string : String → Option Rat) (catalog : Catalog) where
  -- Nothing is credited and nobody outside is called.
  pub record IsIdle (w w' : World env) : Type 0 where
    pub outside : w'.outside ≡ w.outside
    pub credit : SameCredit w.store w'.store

  -- The event passes every check and takes the claim of its invoice.
  pub record IsClean (window : Duration) (ev : Event) (w : World env) (inv : Invoice) : Type 0 where
    pub timely : is_stale window (env.clock w.outside) ev ≡ false
    pub unseen : seen_event ev.provider ev.external_id w.store ≡ false
    pub paid : ev.status ≡ settled
    pub known : lookup ev.invoice_id w.store.invoices ≡ some inv
    pub honest : fraud set_string ev inv ≡ none
    pub unclaimed : lookup inv.id w.store.settled ≡ none

  abbrev pub claimed : Invoice → World env → World env
  claimed inv w = record w { store = (claim_settlement inv.id (env.clock w.outside) w.store).1 }

  pub data Outcome (window : Duration) (ev : Event) (w : World env)
      (r : Result (Unit {0}) × World env) : Type 0 where
    idle : IsIdle w r.1 → Outcome window ev w r
    credited :
        (inv : Invoice)
        → IsClean window ev w inv
        → r
          ≡ note_settled env set_string catalog ev (credit_invoice env catalog inv (claimed inv w))
        → Outcome window ev w r

  IsIdle-status :
      (id : String) (st : Status) (p e : String) (w : World env)
      → IsIdle w (record w { store = record_event p e (set_invoice_status id st w.store).1 })
  IsIdle-status id st p e w = record {
    outside = refl;
    credit =
        SameCredit-trans w.store (set_invoice_status id st w.store).1
          (record_event p e (set_invoice_status id st w.store).1)
          (set_invoice_status-SameCredit id st w.store)
          (record_event-SameCredit p e (set_invoice_status id st w.store).1);
  }

  IsIdle-refl : (w : World env) → IsIdle w w
  IsIdle-refl w = record { outside = refl; credit = SameCredit-refl w.store }

  refuse-SameCredit : (x : Error) (id : String) (s : Store) → SameCredit s (refuse x id s)
  refuse-SameCredit Error.underpaid id s = set_invoice_status-SameCredit id invalid s
  refuse-SameCredit _ id s = SameCredit-refl s

  settled-Outcome :
      (window : Duration) (ev : Event) (w : World env)
      → is_stale window (env.clock w.outside) ev ≡ false
      → seen_event ev.provider ev.external_id w.store ≡ false
      → ev.status ≡ settled
      → Outcome window ev w
          (note_settled env set_string catalog ev (settle env set_string catalog ev w))
  unfolding settle get_invoice claim_settlement
  settled-Outcome window ev w t u p = elim (Option-cases (lookup ev.invoice_id w.store.invoices)) [
    | inl e ↦ rw e (idle (IsIdle-refl w))
    | inr (inv, e) ↦ elim (Option-cases (fraud set_string ev inv)) [
      | inr (x, f) ↦
          rw (e, f) (idle (record { outside = refl; credit = refuse-SameCredit x inv.id w.store }))
      | inl f ↦ elim (Option-cases (lookup inv.id w.store.settled)) [
        | inr (row, g) ↦
            rw (e, f, g)
              (idle (record {
                outside = refl;
                credit = record_event-SameCredit ev.provider ev.external_id w.store;
              }))
        | inl g ↦
            credited inv
              (record { timely = t; unseen = u; paid = p; known = e; honest = f; unclaimed = g })
              (rw (e, f, g) refl)
      ]
    ]
  ]

  pub process-Outcome :
      (window : Duration) (ev : Event) (w : World env)
      → Outcome window ev w (process env set_string catalog window ev w)
  unfolding process
  process-Outcome window ev w = elim (Bool-cases (is_stale window (env.clock w.outside) ev)) [
    | inl t ↦ rw t (idle (IsIdle-refl w))
    | inr t ↦ elim (Bool-cases (seen_event ev.provider ev.external_id w.store)) [
      | inl u ↦ rw (t, u) (idle (IsIdle-refl w))
      | inr u ↦ rw (t, u) (by_status_cases ev.status refl t u)
    ]
  ]
    where
      by_status_cases :
          (st : Status)
          → ev.status ≡ st
          → is_stale window (env.clock w.outside) ev ≡ false
          → seen_event ev.provider ev.external_id w.store ≡ false
          → Outcome window ev w (by_status env set_string catalog st ev w)
      by_status_cases settled p t u = settled-Outcome window ev w t u p
      by_status_cases expired p t u =
          idle (IsIdle-status ev.invoice_id expired ev.provider ev.external_id w)
      by_status_cases invalid p t u =
          idle (IsIdle-status ev.invoice_id invalid ev.provider ev.external_id w)
      by_status_cases _ p t u = idle (IsIdle-refl w)

  settle_clean :
      (window : Duration) (ev : Event) (w : World env) (inv : Invoice)
      → IsClean window ev w inv
      → settle env set_string catalog ev w ≡ credit_invoice env catalog inv (claimed inv w)
  unfolding settle get_invoice claim_settlement
  settle_clean window ev w inv c = rw (c.known, c.honest, c.unclaimed) refl

  -- What `Process` does with a clean event.
  pub process_clean :
      (window : Duration) (ev : Event) (w : World env) (inv : Invoice)
      → IsClean window ev w inv
      → process env set_string catalog window ev w
        ≡ note_settled env set_string catalog ev (credit_invoice env catalog inv (claimed inv w))
  unfolding process
  process_clean window ev w inv c =
      rw (c.timely, c.unseen)
        (subst
          (λ st.
            by_status env set_string catalog st ev w
            ≡ note_settled env set_string catalog ev
                (credit_invoice env catalog inv (claimed inv w)))
          (sym c.paid)
          (ap (note_settled env set_string catalog ev) (settle_clean window ev w inv c)))
