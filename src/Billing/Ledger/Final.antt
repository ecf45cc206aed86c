-- ===== src/Billing/Ledger/Final.antt =====
-- A credit is staged once: its target never changes, and staging it again changes nothing.
use casper_vpn.Base.{
  String, Time, Duration, some, List, [], ◌∷◌, ◌≡◌, ◌≢◌, refl, sym, ap, ◌∙◌, inl, inr, ◌==◌,
  Option-cases, Bool-cases,
}
use casper_vpn.Map.{lookup, lookup-insert_self}
use casper_vpn.Billing.Model.{BillingDelivery, Error, Result, ok, err, not_found, conflict}
use casper_vpn.Billing.Store.State.{Store, new_store}
use casper_vpn.Billing.Store.Credits.{transition_of, stage_invoice_credit, credit_of}
use casper_vpn.Billing.Store.Calls.{Call, apply, run}
use casper_vpn.Billing.Ledger.{Ledger, view, Move, stay, credit, transition, stamp, write}
use casper_vpn.Billing.Ledger.Keys.{invoice_delivery_id-injective, invoice-ne-schedule}
use casper_vpn.Billing.Ledger.Refinement.{apply-Move, stage-Move}
use casper_vpn.Billing.Ledger.Safety.{IsSound, update_ne, clash}
use casper_vpn.Billing.Ledger.Runs.{target, restamp, Move-IsSound, run-IsSound}

-- The invoice `i` has been credited with the target `t`.
abbrev pub IsCredited : Ledger → String → BillingDelivery → Type 0
IsCredited l i t =
    (k : String) × (l.staged i ≡ some k)
    × ((e : BillingDelivery) × (l.delivery k ≡ some e) × (target e ≡ t))

pub Move-IsCredited :
    (l m : Ledger) (i : String) (t : BillingDelivery)
    → IsSound l
    → IsCredited l i t
    → Move l m
    → IsCredited m i t
Move-IsCredited l m i t s h (stay e) = rw e h
Move-IsCredited l m i t s (k, at_i, (d, at_k, same)) (credit c dur is e) =
    let new : c.invoice_id ≢ i = λ p. clash (l.staged i) (rw (← p) is.fresh) at_i in
    let apart : c.id ≢ k = λ p.
      new
        (invoice_delivery_id-injective c.invoice_id i (sym is.named ∙ p ∙ (s.linked i k at_i).0)) in
    rw e (
      k,
      update_ne l.staged c.invoice_id c.id i new ∙ at_i,
      (d, update_ne l.delivery c.id c k apart ∙ at_k, same),
    )
Move-IsCredited l m i t s (k, at_i, (d, at_k, same)) (transition sched sub st now found e) =
    let c = transition_of sched sub st now in
    let apart : c.id ≢ k =
      λ p. invoice-ne-schedule i sub c.revision (sym (s.linked i k at_i).0 ∙ sym p) in
    rw e (k, at_i, (d, update_ne l.delivery c.id c k apart ∙ at_k, same))
Move-IsCredited l m i t s (k, at_i, (d, at_k, same)) (stamp j c now found e) =
    let (g, at_k', same') = restamp l j c now found k d at_k in
    rw e (k, at_i, (g, at_k', same' ∙ same))
Move-IsCredited l m i t s h (write k v up e) = rw e h

run-IsCredited :
    (cs : List Call) (s : Store) (i : String) (t : BillingDelivery)
    → IsSound (view s)
    → IsCredited (view s) i t
    → IsCredited (view (run cs s)) i t
unfolding run
run-IsCredited [] s i t sound h = h
run-IsCredited (c ∷ cs) s i t sound h =
    let move = apply-Move c s in
    run-IsCredited cs (apply c s) i t (Move-IsSound (view s) (view (apply c s)) sound move)
      (Move-IsCredited (view s) (view (apply c s)) i t sound h move)

-- Staging an invoice that is staged answers with its delivery and writes nothing.
stage_again :
    (i sub user : String) (now : Time) (dur grace : Duration) (s : Store) {k : String}
    {e : BillingDelivery}
    → lookup i s.invoice_deliveries ≡ some k
    → lookup k s.deliveries ≡ some e
    → stage_invoice_credit i sub user now dur grace s ≡ (ok e, s)
unfolding stage_invoice_credit
stage_again i sub user now dur grace s p q = rw (p, q) refl

-- A staging either finds the invoice staged, or fails, or writes a new credit under its id.
data Staging (i : String) (s : Store) (r : Result BillingDelivery × Store) : Type 0 where
  found : (k : String) → lookup i s.invoice_deliveries ≡ some k → Staging i s r
  failed : (x : Error) → r.0 ≡ err x → Staging i s r
  fresh :
      (c : BillingDelivery)
      → r.0 ≡ ok c
      → lookup i r.1.invoice_deliveries ≡ some c.id
      → lookup c.id r.1.deliveries ≡ some c
      → Staging i s r

stage-Staging :
    (i sub user : String) (now : Time) (dur grace : Duration) (s : Store)
    → Staging i s (stage_invoice_credit i sub user now dur grace s)
unfolding stage_invoice_credit
stage-Staging i sub user now dur grace s = elim (Option-cases (lookup i s.invoice_deliveries)) [
  | inr (k, e) ↦ found k e
  | inl e ↦ elim (Option-cases (lookup i s.invoices)) [
    | inl f ↦ failed not_found (rw (e, f) refl)
    | inr (inv, f) ↦ elim (Bool-cases (inv.anon_user_id == user)) [
      | inr g ↦ failed conflict (rw (e, f, g) refl)
      | inl g ↦
          let c = credit_of inv i sub user now dur grace (lookup sub s.schedules) in
          fresh c (rw (e, f, g) refl)
            (rw (e, f, g) (lookup-insert_self i c.id s.invoice_deliveries))
            (rw (e, f, g) (lookup-insert_self c.id c s.deliveries))
    ]
  ]
]

ok_path : {A : Type 0} {a b : A} (r : Result A) → r ≡ ok a → r ≡ ok b → a ≡ b
ok_path r p q = cc

not_ok : {A : Type 0} {a : A} {x : Error} (r : Result A) → r ≡ err x → r ≡ ok a → ⊥
not_ok r p q = cc

-- A staging that succeeds leaves the invoice credited with what it returns.
stage-IsCredited :
    (i sub user : String) (now : Time) (dur grace : Duration) (s : Store) (d : BillingDelivery)
    → IsSound (view s)
    → (stage_invoice_credit i sub user now dur grace s).0 ≡ ok d
    → IsCredited (view (stage_invoice_credit i sub user now dur grace s).1) i (target d)
stage-IsCredited i sub user now dur grace s d sound h =
    go (stage-Staging i sub user now dur grace s)
  where
    go :
        Staging i s (stage_invoice_credit i sub user now dur grace s)
        → IsCredited (view (stage_invoice_credit i sub user now dur grace s).1) i (target d)
    go (found k e) =
        let (named, (g, at_k, of_i)) = sound.linked i k e in
        let again = stage_again i sub user now dur grace s e at_k in
        rw again (k, e, (g, at_k, ap target (ok_path (ok g) refl (rw again at h))))
    go (failed x e) = absurd (not_ok (stage_invoice_credit i sub user now dur grace s).0 e h)
    go (fresh c e at_i at_c) = (
      c.id,
      at_i,
      (c, at_c, ap target (ok_path (stage_invoice_credit i sub user now dur grace s).0 e h)),
    )

-- After any calls `before`, let staging the invoice `i` succeed with the delivery `d`. Then after any
-- further calls `after`, staging `i` again, with whatever arguments, succeeds, writes nothing at all
-- and returns a delivery with the target of `d`: the same id, subscription, revision, plan, status and
-- dates, whether or not it has been delivered meanwhile.
pub credit_once :
    (before after : List Call) (i sub user : String) (now : Time) (dur grace : Duration)
    (d : BillingDelivery) (sub' user' : String) (now' : Time) (dur' grace' : Duration)
    → (stage_invoice_credit i sub user now dur grace (run before new_store)).0 ≡ ok d
    → let s = (stage_invoice_credit i sub user now dur grace (run before new_store)).1 in
      (e : BillingDelivery) × (stage_invoice_credit i sub' user' now' dur' grace' (run after s)
        ≡ (ok e, run after s))
      × (target e ≡ target d)
credit_once before after i sub user now dur grace d sub' user' now' dur' grace' h =
    let s = run before new_store in
    let t = (stage_invoice_credit i sub user now dur grace s).1 in
    let sound = run-IsSound before in
    let (k, at_i, (e, at_k, same)) =
      run-IsCredited after t i (target d)
        (Move-IsSound (view s) (view t) sound (stage-Move i sub user now dur grace s))
        (stage-IsCredited i sub user now dur grace s d sound h) in
    (e, stage_again i sub' user' now' dur' grace' (run after t) at_i at_k, same)
