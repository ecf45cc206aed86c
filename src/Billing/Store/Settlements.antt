-- ===== src/Billing/Store/Settlements.antt =====
-- store/memory.go, the settlement claims, their recovery leases, the poll leases, the negative
-- on-chain checks and the expiry sweep.
use casper_vpn.Base.{
  String, ℕ, Time, Duration, Bool, true, false, not, Option, none, some, List, [], ◌∷◌, map, ◌+◌,
  ◌==◌, ◌||◌, ◌&&◌, is_zero, after, before, nat_eq, is_some, if◌then◌else◌, any_of, take, keep_if,
  sort_by,
}
use casper_vpn.Map.{Map, lookup, insert, remove, entries, update_all}
use casper_vpn.Billing.Model.{expired, is_pending, Invoice}
use casper_vpn.Billing.Store.State.{Settlement, PollLease, Store}

abbrev claim_as : Bool → String → Time → Store → Bool × Store
claim_as true id now s = (false, s)
claim_as false id now s =
    let row : Settlement = record { claimed_at = now; activated_at = 0; leased_until = 0 } in
    (true, record s { settled = insert id row s.settled })

unfoldable pub claim_settlement : String → Time → Store → Bool × Store
claim_settlement id now s = claim_as (is_some (lookup id s.settled)) id now s

unfoldable pub release_settlement : String → Store → Store
release_settlement id s = record s { settled = remove id s.settled }

abbrev mark_found : String → Time → Option Settlement → Store → Store
mark_found id now none s = s
mark_found id now (some row) s =
    if is_zero row.activated_at
    then record s { settled = insert id (record row { activated_at = now }) s.settled }
    else s

unfoldable pub mark_settlement_activated : String → Time → Store → Store
mark_settlement_activated id now s = mark_found id now (lookup id s.settled) s

-- `StuckSettlement` of store/repo.go.
pub record StuckSettlement : Type 0 where
  pub invoice_id : String
  pub activated : Bool

abbrev pub invoice_pending : Option Invoice → Bool
invoice_pending none = false
invoice_pending (some inv) = is_pending inv.status

-- The candidates of `LeaseStuckSettlements`: a pending invoice whose claim is not younger than
-- `older_than` and not under a live lease.
unfoldable pub is_stuck : Time → Time → Store → String × Settlement → Bool
is_stuck older_than now s (id, row) =
    invoice_pending (lookup id s.invoices)
    && not (after row.claimed_at older_than)
    && (is_zero row.leased_until || not (after row.leased_until now))

abbrev pub up_to {ℓ} : {A : Type ℓ} → ℕ → List A → List A
up_to limit xs = if nat_eq limit 0 then xs else take limit xs

abbrev pub older_claim : String × Settlement → String × Settlement → Bool
older_claim a b = before a.1.claimed_at b.1.claimed_at

abbrev pub lease_rows : Time → List (String × Settlement) → Map Settlement → Map Settlement
lease_rows until [] rows = rows
lease_rows until ((id, row) ∷ rest) rows =
    lease_rows until rest (insert id (record row { leased_until = until }) rows)

abbrev pub stuck_of : String × Settlement → StuckSettlement
stuck_of (id, row) = record { invoice_id = id; activated = not (is_zero row.activated_at) }

-- The candidates that a call leases, the oldest claim first. A limit of 0 stands for one that is not
-- positive: no limit.
unfoldable pub stuck_chosen : Time → ℕ → Time → Store → List (String × Settlement)
unfolding is_stuck sort_by
stuck_chosen older_than limit now s =
    up_to limit (sort_by older_claim (keep_if (is_stuck older_than now s) (entries s.settled)))

unfoldable pub lease_stuck_settlements :
    Time → Duration → ℕ → Time → Store → List StuckSettlement × Store
unfolding stuck_chosen
lease_stuck_settlements older_than lease_for limit now s =
    let chosen = stuck_chosen older_than limit now s in
    (map stuck_of chosen, record s { settled = lease_rows (now + lease_for) chosen s.settled })

abbrev pub lease_live : Time → Option PollLease → Bool
lease_live now none = false
lease_live now (some l) = after l.until now

abbrev pub checked_since : Time → Option Time → Bool
checked_since deadline none = false
checked_since deadline (some at) = not (before at deadline)

-- The tests of `ExpireOverdue` on one invoice, in the order of its `continue`s.
unfoldable pub is_overdue : Time → List String → Duration → Store → String → Invoice → Bool
is_overdue now onchain grace s id inv =
    is_pending inv.status
    && not (is_zero inv.expires_at)
    && not (is_some (lookup id s.settled))
    && not (lease_live now (lookup id s.poll_leases))
    && (if any_of (λ p. p == inv.provider) onchain
        then after now (inv.expires_at + grace)
          && checked_since (inv.expires_at + grace) (lookup id s.negative_check)
        else after now inv.expires_at)

unfoldable pub expire_overdue : Time → List String → Duration → Store → Store
unfolding is_overdue
expire_overdue now onchain grace s =
    let sweep : String → Invoice → Invoice = λ id inv.
      if is_overdue now onchain grace s id inv then record inv { status = expired } else inv in
    record s { invoices = update_all sweep s.invoices }

abbrev acquire_as : Bool → String → PollLease → Store → Option String × Store
acquire_as true id l s = (none, s)
acquire_as false id l s = (some l.token, record s { poll_leases = insert id l s.poll_leases })

-- `none` is `acquired == false`; `token` is what `idgen.New` returns.
unfoldable pub acquire_poll_lease :
    String → String → Duration → String → Time → Store → Option String × Store
acquire_poll_lease id owner lease_for token now s =
    acquire_as (lease_live now (lookup id s.poll_leases)) id
      (record { token = token; owner = owner; until = now + lease_for }) s

abbrev pub owned_by : String → Option PollLease → Bool
owned_by token none = false
owned_by token (some l) = l.token == token

abbrev pub renew_found : String → Time → Option PollLease → Store → Store
renew_found id until none s = s
renew_found id until (some l) s = record s {
  poll_leases = insert id (record l { until = until }) s.poll_leases;
}

unfoldable pub renew_poll_lease : String → String → Duration → Time → Store → Bool × Store
renew_poll_lease id token lease_for now s =
    let l = lookup id s.poll_leases in
    if owned_by token l then (true, renew_found id (now + lease_for) l s) else (false, s)

unfoldable pub release_poll_lease : String → String → Store → Store
release_poll_lease id token s =
    if owned_by token (lookup id s.poll_leases)
    then record s { poll_leases = remove id s.poll_leases }
    else s

unfoldable pub record_negative_check : String → Time → Store → Store
record_negative_check id at s =
    if invoice_pending (lookup id s.invoices)
    then record s { negative_check = insert id at s.negative_check }
    else s

unfoldable pub clear_negative_check : String → Store → Store
clear_negative_check id s =
    if invoice_pending (lookup id s.invoices)
    then record s { negative_check = remove id s.negative_check }
    else s
