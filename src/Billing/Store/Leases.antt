-- ===== src/Billing/Store/Leases.antt =====
-- The poll lease of an invoice excludes every other poller while it lasts.
use casper_vpn.Base.{
  String, Time, Duration, List, [], ◌∷◌, Bool, true, false, Option, none, some, ◌≡◌, ◌≢◌, refl, inl,
  inr, ◌⊎◌, ◌+◌, ◌<◌, ◌==◌, arith, Bool-cases, eq_iff, All,
}
use casper_vpn.Map.{lookup, lookup-insert, lookup-remove, lookup-insert_self}
use casper_vpn.Billing.Store.State.{Store, PollLease}
use casper_vpn.Billing.Store.Invoices
use casper_vpn.Billing.Store.Settlements
use casper_vpn.Billing.Store.Intents
use casper_vpn.Billing.Store.Credits
use casper_vpn.Billing.Store.Calls.{Call, apply, run}

-- The poll lease of the invoice is `l`.
abbrev IsHeld : String → PollLease → Store → Type 0
IsHeld id l s = lookup id s.poll_leases ≡ some l

-- The calls that the holder itself does not make, before the lease is over: others may try to take the
-- lease, and to renew or release it with another token.
abbrev pub LeavesLease : String → PollLease → Call → Type 0
LeavesLease id l (Call.acquire_poll_lease k o d t now) = (k ≢ id) ⊎ (now < l.until)
LeavesLease id l (Call.renew_poll_lease k t d now) = (k ≢ id) ⊎ (l.token ≢ t)
LeavesLease id l (Call.release_poll_lease k t) = (k ≢ id) ⊎ (l.token ≢ t)
LeavesLease id l c = Unit {0}

same_leases :
    (id : String) (l : PollLease) (s t : Store)
    → t.poll_leases ≡ s.poll_leases
    → IsHeld id l s
    → IsHeld id l t
same_leases id l s t e h = rw e h

live-true :
    (l : PollLease) (now : Time) → now < l.until → Settlements.lease_live now (some l) ≡ true
live-true l now h = ground arith

acquire-IsHeld :
    (k id o t : String) (l : PollLease) (d : Duration) (now : Time) (s : Store)
    → (k ≢ id) ⊎ (now < l.until)
    → IsHeld id l s
    → IsHeld id l (Settlements.acquire_poll_lease k o d t now s).1
unfolding Settlements.acquire_poll_lease
acquire-IsHeld k id o t l d now s keep h =
    elim (Bool-cases (Settlements.lease_live now (lookup k s.poll_leases))) [
      | inl e ↦ rw e h
      | inr e ↦ rw e (elim (Bool-cases (k == id)) [
        | inr f ↦
            rw
              (
                lookup-insert k id (record { token = t; owner = o; until = now + d }) s.poll_leases,
                f,
              )
              h
        | inl f ↦ elim keep [
          | inl ne ↦ absurd (ne ((eq_iff k id).0 f))
          | inr live ↦ absurd (clash _ e (rw ((eq_iff k id).0 f, h) (live-true l now live)))
        ]
      ])
    ]
  where
    clash : (b : Bool) → b ≡ false → b ≡ true → ⊥
    clash b e f = cc

-- A token that is not the lease's does not own it.
owned_by-other :
    (k id t : String) (l : PollLease) (s : Store)
    → (k ≢ id) ⊎ (l.token ≢ t)
    → IsHeld id l s
    → Settlements.owned_by t (lookup k s.poll_leases) ≡ true
    → (k == id) ≡ false
owned_by-other k id t l s keep h own = elim (Bool-cases (k == id)) [
  | inr f ↦ f
  | inl f ↦ elim keep [
    | inl ne ↦ absurd (ne ((eq_iff k id).0 f))
    | inr ne ↦ absurd (ne ((eq_iff l.token t).0 (rw ((eq_iff k id).0 f, h) at own)))
  ]
]

renew_found-IsHeld :
    (k id : String) (until : Time) (o : Option PollLease) (l : PollLease) (s : Store)
    → (k == id) ≡ false
    → IsHeld id l s
    → IsHeld id l (Settlements.renew_found k until o s)
renew_found-IsHeld k id until none l s f h = h
renew_found-IsHeld k id until (some m) l s f h =
    rw (lookup-insert k id (record m { until = until }) s.poll_leases, f) h

renew-IsHeld :
    (k id t : String) (l : PollLease) (d : Duration) (now : Time) (s : Store)
    → (k ≢ id) ⊎ (l.token ≢ t)
    → IsHeld id l s
    → IsHeld id l (Settlements.renew_poll_lease k t d now s).1
unfolding Settlements.renew_poll_lease
renew-IsHeld k id t l d now s keep h =
    elim (Bool-cases (Settlements.owned_by t (lookup k s.poll_leases))) [
      | inr e ↦ rw e h
      | inl e ↦ rw e (
          renew_found-IsHeld k id (now + d) (lookup k s.poll_leases) l s
            (owned_by-other k id t l s keep h e) h)
    ]

release-IsHeld :
    (k id t : String) (l : PollLease) (s : Store)
    → (k ≢ id) ⊎ (l.token ≢ t)
    → IsHeld id l s
    → IsHeld id l (Settlements.release_poll_lease k t s)
unfolding Settlements.release_poll_lease
release-IsHeld k id t l s keep h =
    elim (Bool-cases (Settlements.owned_by t (lookup k s.poll_leases))) [
      | inr e ↦ rw e h
      | inl e ↦ rw (e, lookup-remove k id s.poll_leases, owned_by-other k id t l s keep h e) h
    ]

apply-IsHeld :
    (c : Call) (id : String) (l : PollLease) (s : Store)
    → LeavesLease id l c
    → IsHeld id l s
    → IsHeld id l (apply c s)
unfolding apply Invoices.create_invoice Invoices.set_invoice_status Invoices.record_event
    Settlements.claim_settlement Settlements.release_settlement
    Settlements.mark_settlement_activated Settlements.lease_stuck_settlements
    Settlements.expire_overdue Settlements.record_negative_check Settlements.clear_negative_check
    Intents.reserve_invoice_intent Intents.begin_invoice_create Intents.complete_invoice_create
    Intents.fail_invoice_create Credits.lease_billing_deliveries Credits.stage_invoice_credit
    Credits.stage_schedule_transition Credits.complete_billing_delivery Credits.upsert_schedule
apply-IsHeld (Call.acquire_poll_lease k o d t now) id l s keep h =
    acquire-IsHeld k id o t l d now s keep h
apply-IsHeld (Call.renew_poll_lease k t d now) id l s keep h = renew-IsHeld k id t l d now s keep h
apply-IsHeld (Call.release_poll_lease k t) id l s keep h = release-IsHeld k id t l s keep h
apply-IsHeld (Call.lease_stuck_settlements t d n now) id l s keep h = h
apply-IsHeld (Call.lease_billing_deliveries t d n now) id l s keep h = h
apply-IsHeld (Call.expire_overdue now ps d) id l s keep h = h
apply-IsHeld c id l s keep h = same_leases id l s (apply c s) (ground arith) h

run-IsHeld :
    (cs : List Call) (id : String) (l : PollLease) (s : Store)
    → All (LeavesLease id l) cs
    → IsHeld id l s
    → IsHeld id l (run cs s)
unfolding run
run-IsHeld [] id l s keep h = h
run-IsHeld (c ∷ cs) id l s keep h =
    run-IsHeld cs id l (apply c s) keep.1 (apply-IsHeld c id l s keep.0 h)

acquired-IsHeld :
    (id owner token : String) (d : Duration) (now : Time) (s : Store)
    → (Settlements.acquire_poll_lease id owner d token now s).0 ≡ some token
    → IsHeld id
        (record { token = token; owner = owner; until = now + d })
        (Settlements.acquire_poll_lease id owner d token now s).1
unfolding Settlements.acquire_poll_lease
acquired-IsHeld id owner token d now s h =
    elim (Bool-cases (Settlements.lease_live now (lookup id s.poll_leases))) [
      | inl e ↦ absurd (refused token (rw e at h))
      | inr e ↦ rw e (
          lookup-insert_self id (record { token = token; owner = owner; until = now + d })
            s.poll_leases)
    ]
  where
    refused : (t : String) → none ≡ some t → ⊥
    refused t e = cc

-- A poll lease excludes every other poller until it is over: let `AcquirePollLease` of an invoice
-- succeed with a token; then after any calls, as long as none of them renews or releases the lease
-- with that token and none that tries to take it reads a clock at or after its end, `AcquirePollLease`
-- of the invoice is refused, to whomever and with whatever token, and changes nothing.
pub poll_lease_excludes :
    (id owner token owner' token' : String) (d d' : Duration) (now later : Time) (cs : List Call)
    (s : Store)
    → (Settlements.acquire_poll_lease id owner d token now s).0 ≡ some token
    → All (LeavesLease id (record { token = token; owner = owner; until = now + d })) cs
    → later < now + d
    → let t = run cs (Settlements.acquire_poll_lease id owner d token now s).1 in
      Settlements.acquire_poll_lease id owner' d' token' later t ≡ (none, t)
unfolding Settlements.acquire_poll_lease
poll_lease_excludes id owner token owner' token' d d' now later cs s got keep soon =
    let l : PollLease = record { token = token; owner = owner; until = now + d } in
    let t = (Settlements.acquire_poll_lease id owner d token now s).1 in
    let held = run-IsHeld cs id l t keep (acquired-IsHeld id owner token d now s got) in
    rw (held, live-true l later soon) refl
