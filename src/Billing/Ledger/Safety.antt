-- ===== src/Billing/Ledger/Safety.antt =====
-- What holds of the credit ledger after any calls: the outbox is keyed by delivery ids, its revisions
-- are numbered without repetition, and an invoice is credited by one delivery alone.
use casper_vpn.Base.{
  String, ℕ, Time, Bool, true, false, Option, none, some, ◌≡◌, ◌≢◌, refl, sym, ap, ◌∙◌, inl, inr,
  ◌⊎◌, ◌==◌, ◌+◌, ◌≤◌, arith, Bool-cases, eq_iff, eq_refl,
}
use casper_vpn.Billing.Model.{Schedule, BillingDelivery, SubStatus}
use casper_vpn.Billing.Store.Credits.{
  invoice_delivery_id, next_revision, transition_of, schedule_of,
}
use casper_vpn.Billing.Ledger.{Ledger, update, revision_of, credited, moved_on, IsCredit}
use casper_vpn.Billing.Ledger.Keys.{invoice_delivery_id-injective, invoice-ne-schedule}

pub record IsSound (l : Ledger) : Type 0 where
  -- A delivery is stored under its id.
  pub keyed : (k : String) (d : BillingDelivery) → l.delivery k ≡ some d → d.id ≡ k
  -- Its revision is positive and not above the schedule's.
  pub counted :
      (k : String) (d : BillingDelivery)
      → l.delivery k ≡ some d
      → (1 ≤ d.revision) × (d.revision ≤ revision_of (l.schedule d.sub_id))
  -- No two deliveries of a subscription share a revision.
  pub distinct :
      (j k : String) (d e : BillingDelivery)
      → l.delivery j ≡ some d
      → l.delivery k ≡ some e
      → d.sub_id ≡ e.sub_id
      → d.revision ≡ e.revision
      → j ≡ k
  -- A staged invoice has its delivery in the outbox, under the invoice's own id.
  pub linked :
      (i k : String)
      → l.staged i ≡ some k
      → (k ≡ invoice_delivery_id i)
        × ((d : BillingDelivery) × (l.delivery k ≡ some d) × (d.invoice_id ≡ i))
  -- A delivery that names an invoice is the one staged for it.
  pub registered :
      (k : String) (d : BillingDelivery)
      → l.delivery k ≡ some d
      → d.invoice_id ≢ ""
      → l.staged d.invoice_id ≡ some k

pub update-cases :
    {V : Type 0} (f : String → Option V) (k : String) (v : V) (j : String) (w : V)
    → update f k v j ≡ some w
    → ((k ≡ j) × (v ≡ w)) ⊎ (((k == j) ≡ false) × (f j ≡ some w))
update-cases f k v j w h = elim (Bool-cases (k == j)) [
  | inl e ↦ inl ((eq_iff k j).0 e, ground arith)
  | inr e ↦ inr (e, ground arith)
]

pub update_self :
    {V : Type 0} (f : String → Option V) (k : String) (v : V) → update f k v k ≡ some v
update_self f k v = rw (eq_refl k) refl

pub update_ne :
    {V : Type 0} (f : String → Option V) (k : String) (v : V) (j : String)
    → k ≢ j
    → update f k v j ≡ f j
update_ne f k v j h = elim (Bool-cases (k == j)) [
  | inl e ↦ absurd (h ((eq_iff k j).0 e))
  | inr e ↦ rw e refl
]

differ : (b : Bool) → b ≡ false → b ≡ true → ⊥
differ b e f = cc

pub clash : {A : Type 0} {a : A} (o : Option A) → o ≡ none → o ≡ some a → ⊥
clash o e f = cc

next_revision_lem : (o : Option Schedule) → next_revision o ≡ revision_of o + 1
next_revision_lem none = refl
next_revision_lem (some s) = refl

-- The revision that a subscription has reached never falls when a schedule is overwritten upwards.
pub rises :
    (f : String → Option Schedule) (k : String) (v : Schedule) (j : String)
    → revision_of (f k) ≤ v.revision
    → revision_of (f j) ≤ revision_of (update f k v j)
rises f k v j h = elim (Bool-cases (k == j)) [
  | inl e ↦ rw (e, ← (eq_iff k j).0 e) h
  | inr e ↦ rw e (omega arith)
]

-- A new delivery, numbered one above its schedule, joins a sound outbox.
module _ (l : Ledger) (s : IsSound l) (d : BillingDelivery) (v : Schedule)
    (numbered : d.revision ≡ revision_of (l.schedule d.sub_id) + 1)
    (kept : v.revision ≡ d.revision) where
  post-keyed : (k : String) (e : BillingDelivery) → update l.delivery d.id d k ≡ some e → e.id ≡ k
  post-keyed k e h = elim (update-cases l.delivery d.id d k e h) [
    | inl (p, q) ↦ ap (λ (x : BillingDelivery). x.id) (sym q) ∙ p
    | inr (p, q) ↦ s.keyed k e q
  ]

  post-counted :
      (k : String) (e : BillingDelivery)
      → update l.delivery d.id d k ≡ some e
      → (1 ≤ e.revision) × (e.revision ≤ revision_of (update l.schedule d.sub_id v e.sub_id))
  post-counted k e h = elim (update-cases l.delivery d.id d k e h) [
    | inl (p, q) ↦ rw (← q) (omega arith, rw (eq_refl d.sub_id) (omega arith))
    | inr (p, q) ↦ (
      (s.counted k e q).0,
      omega (arith, (s.counted k e q).1, rises l.schedule d.sub_id v e.sub_id (omega arith)),
    )
  ]

  -- An older delivery of the same subscription has a smaller revision.
  older :
      (k : String) (e : BillingDelivery)
      → l.delivery k ≡ some e
      → d.sub_id ≡ e.sub_id
      → d.revision ≡ e.revision
      → ⊥
  older k e h same eq =
      let c : e.revision ≤ revision_of (l.schedule d.sub_id) = rw same (s.counted k e h).1 in
      omega arith

  post-distinct :
      (j k : String) (e g : BillingDelivery)
      → update l.delivery d.id d j ≡ some e
      → update l.delivery d.id d k ≡ some g
      → e.sub_id ≡ g.sub_id
      → e.revision ≡ g.revision
      → j ≡ k
  post-distinct j k e g h h' same eq = elim (update-cases l.delivery d.id d j e h) [
    | inl (p, q) ↦ elim (update-cases l.delivery d.id d k g h') [
      | inl (p', q') ↦ sym p ∙ p'
      | inr (p', q') ↦ absurd (
          older k g q' (ap (λ (x : BillingDelivery). x.sub_id) q ∙ same)
            (ap (λ (x : BillingDelivery). x.revision) q ∙ eq))
    ]
    | inr (p, q) ↦ elim (update-cases l.delivery d.id d k g h') [
      | inl (p', q') ↦ absurd (
          older j e q (ap (λ (x : BillingDelivery). x.sub_id) q' ∙ sym same)
            (ap (λ (x : BillingDelivery). x.revision) q' ∙ sym eq))
      | inr (p', q') ↦ s.distinct j k e g q q' same eq
    ]
  ]

module _ (l : Ledger) (s : IsSound l) (d : BillingDelivery) {dur : ℕ} (c : IsCredit l d dur) where
  numbered : d.revision ≡ revision_of (l.schedule d.sub_id) + 1
  numbered = c.next ∙ next_revision_lem (l.schedule d.sub_id)

  credit-linked :
      (i k : String)
      → update l.staged d.invoice_id d.id i ≡ some k
      → (k ≡ invoice_delivery_id i)
        × ((e : BillingDelivery) × (update l.delivery d.id d k ≡ some e) × (e.invoice_id ≡ i))
  credit-linked i k h = elim (update-cases l.staged d.invoice_id d.id i k h) [
    | inl (p, q) ↦ (
      sym q ∙ c.named ∙ ap invoice_delivery_id p,
      (d, rw (← q) (update_self l.delivery d.id d), p),
    )
    | inr (p, q) ↦
        let (named, (e, found, of_i)) = s.linked i k q in
        let ne : d.id ≢ k = λ same. differ (d.invoice_id == i) p (
          (eq_iff d.invoice_id i).1
            (invoice_delivery_id-injective d.invoice_id i (sym c.named ∙ same ∙ named))) in
        (named, (e, update_ne l.delivery d.id d k ne ∙ found, of_i))
  ]

  credit-registered :
      (k : String) (e : BillingDelivery)
      → update l.delivery d.id d k ≡ some e
      → e.invoice_id ≢ ""
      → update l.staged d.invoice_id d.id e.invoice_id ≡ some k
  credit-registered k e h ne = elim (update-cases l.delivery d.id d k e h) [
    | inl (p, q) ↦ rw (← q) (update_self l.staged d.invoice_id d.id ∙ ap some p)
    | inr (p, q) ↦
        let old : l.staged e.invoice_id ≡ some k = s.registered k e q ne in
        let apart : d.invoice_id ≢ e.invoice_id =
          λ same. clash (l.staged e.invoice_id) (rw (← same) c.fresh) old in
        update_ne l.staged d.invoice_id d.id e.invoice_id apart ∙ old
  ]

  pub credited-IsSound : IsSound (credited l d)
  credited-IsSound = record {
    keyed = post-keyed l s d (schedule_of d) numbered refl;
    counted = post-counted l s d (schedule_of d) numbered refl;
    distinct = post-distinct l s d (schedule_of d) numbered refl;
    linked = credit-linked;
    registered = credit-registered;
  }

module _ (l : Ledger) (s : IsSound l) (sched : Schedule) (sub : String) (st : SubStatus)
    (now : Time) (found : l.schedule sub ≡ some sched) where
  abbrev staged_move : BillingDelivery
  staged_move = transition_of sched sub st now

  abbrev next_schedule : Schedule
  next_schedule = record sched { revision = sched.revision + 1; status = st }

  move_numbered : sched.revision + 1 ≡ revision_of (l.schedule sub) + 1
  move_numbered = rw found refl

  move-linked :
      (i k : String)
      → l.staged i ≡ some k
      → (k ≡ invoice_delivery_id i)
        × ((e : BillingDelivery) × (update l.delivery staged_move.id staged_move k ≡ some e)
            × (e.invoice_id ≡ i))
  move-linked i k h =
      let (named, (e, at_k, of_i)) = s.linked i k h in
      let ne : staged_move.id ≢ k =
        λ same. invoice-ne-schedule i sub (sched.revision + 1) (sym named ∙ sym same) in
      (named, (e, update_ne l.delivery staged_move.id staged_move k ne ∙ at_k, of_i))

  move-registered :
      (k : String) (e : BillingDelivery)
      → update l.delivery staged_move.id staged_move k ≡ some e
      → e.invoice_id ≢ ""
      → l.staged e.invoice_id ≡ some k
  move-registered k e h ne = elim (update-cases l.delivery staged_move.id staged_move k e h) [
    | inl (p, q) ↦ absurd (ne (ap (λ (x : BillingDelivery). x.invoice_id) (sym q)))
    | inr (p, q) ↦ s.registered k e q ne
  ]

  pub moved_on-IsSound : IsSound (moved_on l staged_move sched)
  moved_on-IsSound = record {
    keyed = post-keyed l s staged_move next_schedule move_numbered refl;
    counted = post-counted l s staged_move next_schedule move_numbered refl;
    distinct = post-distinct l s staged_move next_schedule move_numbered refl;
    linked = move-linked;
    registered = move-registered;
  }
