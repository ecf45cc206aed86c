-- ===== src/Billing/Store/Sweep.antt =====
-- What the expiry sweep may do to an invoice.
use casper_vpn.Base.{
  String, Time, Duration, List, Bool, true, false, Option, none, some, ◌≡◌, ◌≢◌, refl, ap, inl, inr,
  ◌⊎◌, ◌==◌, ◌&&◌, ◌+◌, ◌≤◌, ◌<◌, arith, Bool-cases, is_some, any_of, after, if◌then◌else◌,
}
use casper_vpn.Map.{lookup, lookup-update_all}
use casper_vpn.Billing.Model.{Status, pending, expired, is_pending, Invoice}
use casper_vpn.Billing.Store.State.{PollLease, Store}
use casper_vpn.Billing.Store.Settlements.{is_overdue, expire_overdue, lease_live, checked_since}

-- The invoice was not paid in time: nobody has claimed or polls it, its deadline has passed, and when
-- it is paid on a chain, the chain was looked at after the deadline and its grace, without success.
pub record Unpaid (now : Time) (onchain : List String) (grace : Duration) (s : Store) (id : String)
    (inv : Invoice) : Type 0 where
  pub open_still : inv.status ≡ pending
  pub limited : inv.expires_at ≢ 0
  pub late : inv.expires_at < now
  pub unclaimed : lookup id s.settled ≡ none
  pub not_polled : (l : PollLease) → lookup id s.poll_leases ≡ some l → l.until ≤ now
  pub looked :
      any_of (λ p. p == inv.provider) onchain ≡ true
      → (at : Time) × (lookup id s.negative_check ≡ some at)
        × (inv.expires_at + grace ≤ at)
        × (inv.expires_at + grace < now)

is_pending-pending : (st : Status) → is_pending st ≡ true → st ≡ pending
is_pending-pending Status.pending e = refl
is_pending-pending Status.settled e = cc
is_pending-pending Status.expired e = cc
is_pending-pending Status.invalid e = cc
is_pending-pending (Status.other s) e = cc

is_some-none : {A : Type 0} (o : Option A) → is_some o ≡ false → o ≡ none
is_some-none none e = refl
is_some-none (some a) e = cc

lease_live-over :
    (now : Time) (o : Option PollLease) (l : PollLease)
    → lease_live now o ≡ false
    → o ≡ some l
    → l.until ≤ now
lease_live-over now none l e h = cc
lease_live-over now (some k) l e h =
    let same : k.until ≡ l.until = ap (λ (o : Option PollLease). until_of o) h in
    rw (← same) (ground arith)
  where
    until_of : Option PollLease → Time
    until_of none = 0
    until_of (some l) = l.until

checked_since-at :
    (deadline : Time) (o : Option Time)
    → checked_since deadline o ≡ true
    → (at : Time) × (o ≡ some at) × (deadline ≤ at)
checked_since-at deadline none e = cc
checked_since-at deadline (some at) e = (at, refl, ground arith)

is_overdue-Unpaid :
    (now : Time) (onchain : List String) (grace : Duration) (s : Store) (id : String)
    (inv : Invoice)
    → is_overdue now onchain grace s id inv ≡ true
    → Unpaid now onchain grace s id inv
unfolding is_overdue
is_overdue-Unpaid now onchain grace s id inv h =
    let is_onchain = any_of (λ p. p == inv.provider) onchain in
    record {
      open_still = is_pending-pending inv.status (ground arith);
      limited = λ z. ground arith;
      late = late_of is_onchain (ground arith);
      unclaimed = is_some-none (lookup id s.settled) (ground arith);
      not_polled = λ l e. lease_live-over now (lookup id s.poll_leases) l (ground arith) e;
      looked = λ c. looked_of is_onchain c (ground arith);
    }
  where
    test : Bool → Bool
    test b =
        if b
        then after now (inv.expires_at + grace)
          && checked_since (inv.expires_at + grace) (lookup id s.negative_check)
        else after now inv.expires_at

    late_of : (b : Bool) → test b ≡ true → inv.expires_at < now
    late_of true e = ground arith
    late_of false e = ground arith

    looked_of :
        (b : Bool)
        → b ≡ true
        → test b ≡ true
        → (at : Time) × (lookup id s.negative_check ≡ some at)
          × (inv.expires_at + grace ≤ at)
          × (inv.expires_at + grace < now)
    looked_of false c e = cc
    looked_of true c e =
        let (at, known, since) =
          checked_since-at (inv.expires_at + grace) (lookup id s.negative_check) (ground arith) in
        (at, known, since, ground arith)

-- `ExpireOverdue` either leaves an invoice as it is or, when it was not paid in time, makes it
-- expired and changes nothing else of it: the invoice was pending, had a deadline that has passed,
-- was claimed by nobody and under no live poll lease; and an invoice that is paid on a chain was
-- found unpaid by a check of the chain at or after its deadline and the grace period.
pub sweep_spares :
    (now : Time) (onchain : List String) (grace : Duration) (s : Store) (id : String)
    (inv : Invoice)
    → lookup id s.invoices ≡ some inv
    → let found = lookup id (expire_overdue now onchain grace s).invoices in
      (found ≡ some inv)
      ⊎ ((found ≡ some (record inv { status = expired })) × Unpaid now onchain grace s id inv)
unfolding expire_overdue
sweep_spares now onchain grace s id inv h =
    let step =
      lookup-update_all
        (λ id inv.
          if is_overdue now onchain grace s id inv then record inv { status = expired } else inv)
        id s.invoices in
    elim (Bool-cases (is_overdue now onchain grace s id inv)) [
      | inl e ↦ inr (rw (step, h, e) refl, is_overdue-Unpaid now onchain grace s id inv e)
      | inr e ↦ inl (rw (step, h, e) refl)
    ]
