-- ===== src/Billing/Ledger/Runs.antt =====
-- Every move keeps the ledger sound, so every run of the store does; and a credit, once staged, keeps
-- its target for good.
use casper_vpn.Base.{
  String, Time, some, List, [], ◌∷◌, ◌≡◌, refl, sym, ap, ◌∙◌, inl, inr, ◌==◌, ◌≤◌, arith, eq_iff,
  subst, Bool-cases, some_path,
}
use casper_vpn.Map.{lookup}
use casper_vpn.Billing.Model.{Schedule, BillingDelivery}
use casper_vpn.Billing.Store.State.{Store, new_store}
use casper_vpn.Billing.Store.Calls.{Call, apply, run}
use casper_vpn.Billing.Ledger.{
  Ledger, view, update, revision_of, Move, stay, credit, transition, stamp, write,
}
use casper_vpn.Billing.Ledger.Refinement.{apply-Move}
use casper_vpn.Billing.Ledger.Safety.{
  IsSound, update-cases, rises, credited-IsSound, moved_on-IsSound,
}

-- What a delivery asks for; the rest of it is the time at which it was done.
abbrev pub target : BillingDelivery → BillingDelivery
target d = record d { delivered_at = 0 }

module _ (l : Ledger) (k : String) (d : BillingDelivery) (now : Time)
    (found : l.delivery k ≡ some d) where
  abbrev stamped : BillingDelivery
  stamped = record d { delivered_at = now }

  -- A stamped outbox holds the same targets.
  unstamp :
      (j : String) (e : BillingDelivery)
      → update l.delivery k stamped j ≡ some e
      → (g : BillingDelivery) × (l.delivery j ≡ some g) × (target e ≡ target g)
  unstamp j e h = elim (update-cases l.delivery k stamped j e h) [
    | inl (p, q) ↦ (d, rw (← p) found, ap target (sym q))
    | inr (p, q) ↦ (e, q, refl)
  ]

  pub restamp :
      (j : String) (g : BillingDelivery)
      → l.delivery j ≡ some g
      → (e : BillingDelivery) × (update l.delivery k stamped j ≡ some e) × (target e ≡ target g)
  restamp j g h = elim (Bool-cases (k == j)) [
    | inl e ↦
        let same : d ≡ g = some_path (l.delivery k) found (rw ((eq_iff k j).0 e) h) in
        (stamped, rw e refl, ap target same)
    | inr e ↦ (g, rw e h, refl)
  ]

  stamp-IsSound : IsSound l → IsSound (record l { delivery = update l.delivery k stamped })
  stamp-IsSound s = record {
    keyed = λ j e h.
        let (g, at_j, same) = unstamp j e h in
        ap (λ (x : BillingDelivery). x.id) same ∙ s.keyed j g at_j;
    counted = λ j e h.
        let (g, at_j, same) = unstamp j e h in
        subst
          (λ (x : BillingDelivery).
            (1 ≤ x.revision) × (x.revision ≤ revision_of (l.schedule x.sub_id)))
          (sym same) (s.counted j g at_j);
    distinct = λ i j e f h h' sub rev.
        let (g, at_i, same) = unstamp i e h in
        let (g', at_j, same') = unstamp j f h' in
        s.distinct i j g g' at_i at_j
          (sym (ap (λ (x : BillingDelivery). x.sub_id) same)
            ∙ sub
            ∙ ap (λ (x : BillingDelivery). x.sub_id) same')
          (sym (ap (λ (x : BillingDelivery). x.revision) same)
            ∙ rev
            ∙ ap (λ (x : BillingDelivery). x.revision) same');
    linked = λ i j h.
        let (named, (g, at_j, of_i)) = s.linked i j h in
        let (e, at_j', same) = restamp j g at_j in
        (named, (e, at_j', ap (λ (x : BillingDelivery). x.invoice_id) same ∙ of_i));
    registered = λ j e h ne.
        let (g, at_j, same) = unstamp j e h in
        let of_i : e.invoice_id ≡ g.invoice_id = ap (λ (x : BillingDelivery). x.invoice_id) same in
        rw of_i (s.registered j g at_j (rw of_i at ne));
  }

write-IsSound :
    (l : Ledger) (k : String) (v : Schedule)
    → revision_of (l.schedule k) ≤ v.revision
    → IsSound l
    → IsSound (record l { schedule = update l.schedule k v })
write-IsSound l k v up s = record {
  keyed = s.keyed;
  counted = λ j e h.
      ((s.counted j e h).0, omega (arith, (s.counted j e h).1, rises l.schedule k v e.sub_id up));
  distinct = s.distinct;
  linked = s.linked;
  registered = s.registered;
}

pub Move-IsSound : (l m : Ledger) → IsSound l → Move l m → IsSound m
Move-IsSound l m s (stay e) = rw e s
Move-IsSound l m s (credit d dur c e) = rw e (credited-IsSound l s d c)
Move-IsSound l m s (transition sched sub st now h e) =
    rw e (moved_on-IsSound l s sched sub st now h)
Move-IsSound l m s (stamp k d now h e) = rw e (stamp-IsSound l k d now h s)
Move-IsSound l m s (write k v up e) = rw e (write-IsSound l k v up s)

empty-IsSound : IsSound (view new_store)
unfolding lookup
empty-IsSound = record {
  keyed = λ k d h. cc;
  counted = λ k d h. cc;
  distinct = λ j k d e h h' p q. cc;
  linked = λ i k h. cc;
  registered = λ k d h ne. cc;
}

pub run-IsSound_from : (cs : List Call) (s : Store) → IsSound (view s) → IsSound (view (run cs s))
unfolding run
run-IsSound_from [] s h = h
run-IsSound_from (c ∷ cs) s h =
    run-IsSound_from cs (apply c s) (Move-IsSound (view s) (view (apply c s)) h (apply-Move c s))

-- Whatever calls are made of an empty store, in any order: each delivery is stored under its id with
-- a positive revision that is not above its subscription's schedule, no two deliveries of a
-- subscription share a revision, and the deliveries that name an invoice are exactly the ones staged
-- for it, one for each invoice, under the invoice's own delivery id.
pub run-IsSound : (cs : List Call) → IsSound (view (run cs new_store))
run-IsSound cs = run-IsSound_from cs new_store empty-IsSound
