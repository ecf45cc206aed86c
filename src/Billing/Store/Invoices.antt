-- ===== src/Billing/Store/Invoices.antt =====
-- store/memory.go, the methods on invoices and payment events, and `boundedRecentLimit` of
-- store/repo.go.
use Prim.Native.String.{◌++◌, compare}
use Prim.Native.Nat.{Ordering}
use casper_vpn.Base.{
  String, ℕ, suc, Bool, true, false, Option, none, some, List, [], ◌∷◌, map, ◌==◌, ◌||◌, ltb,
  nat_eq, after, is_some, if◌then◌else◌, take, keep_if, sort_by,
}
use casper_vpn.Map.{lookup, insert, entries}
use casper_vpn.Billing.Model.{
  Status, pending, settled, expired, invalid, is_pending, Invoice, InvoiceOverview, InvoiceCounts,
  Result, ok, err, not_found,
}
use casper_vpn.Billing.Store.State.{Store}

unfoldable pub create_invoice : Invoice → Store → Store
create_invoice inv s = record s { invoices = insert inv.id inv s.invoices }

abbrev pub or_not_found {ℓ} : {A : Type ℓ} → Option A → Result A
or_not_found none = err not_found
or_not_found (some a) = ok a

unfoldable pub get_invoice : String → Store → Result Invoice
get_invoice id s = or_not_found (lookup id s.invoices)

-- `a.ID > b.ID`
abbrev text_after : String → String → Bool
text_after a b = elim (compare a b) [ Ordering.gt ↦ true | _ ↦ false ]

unfoldable pub invoice_before : Invoice → Invoice → Bool
invoice_before a b =
    if nat_eq a.created_at b.created_at
    then text_after a.id b.id
    else after a.created_at b.created_at

abbrev pub overview : Invoice → InvoiceOverview
overview inv = record {
  invoice_id = inv.id;
  anon_user_id = inv.anon_user_id;
  plan = inv.plan;
  status = inv.status;
  amount = inv.amount;
  currency = inv.currency;
  created_at = inv.created_at;
  expires_at = inv.expires_at;
}

-- One round of the loop of `LatestInvoice`; `none` is `!found`.
abbrev later_invoice : String → Invoice → Option Invoice → Option Invoice
later_invoice user inv none = if inv.anon_user_id == user then some inv else none
later_invoice user inv (some best) =
    if inv.anon_user_id == user
    then (if invoice_before inv best then some inv else some best)
    else some best

unfoldable pub latest_of : String → List (String × Invoice) → Option Invoice → Option Invoice
unfolding invoice_before
latest_of user [] best = best
latest_of user ((id, inv) ∷ rest) best = latest_of user rest (later_invoice user inv best)

abbrev overview_of : Option Invoice → Result InvoiceOverview
overview_of none = err not_found
overview_of (some inv) = ok (overview inv)

unfoldable pub latest_invoice : String → Store → Result InvoiceOverview
unfolding latest_of
latest_invoice user s = overview_of (latest_of user (entries s.invoices) none)

abbrev pub max_recent_invoices : ℕ
max_recent_invoices = 50

-- A limit that is not positive is 0 here.
unfoldable pub bounded_recent_limit : ℕ → ℕ
bounded_recent_limit limit =
    if nat_eq limit 0 || ltb max_recent_invoices limit then max_recent_invoices else limit

abbrev count_status : Status → InvoiceCounts → InvoiceCounts
count_status pending c = record c { pending = suc c.pending }
count_status settled c = record c { settled = suc c.settled }
count_status expired c = record c { expired = suc c.expired }
count_status invalid c = record c { invalid = suc c.invalid }
count_status (Status.other t) c = c

unfoldable pub count_all : List (String × Invoice) → InvoiceCounts → InvoiceCounts
count_all [] c = c
count_all ((id, inv) ∷ rest) c = count_all rest (count_status inv.status c)

unfoldable pub invoice_summary : ℕ → Store → InvoiceCounts × List InvoiceOverview
unfolding count_all invoice_before bounded_recent_limit sort_by
invoice_summary limit s =
    let all = entries s.invoices in
    (
      count_all all (record { pending = 0; settled = 0; expired = 0; invalid = 0 }),
      map overview
          (take (bounded_recent_limit limit) (sort_by invoice_before (map (λ e. e.1) all))),
    )

abbrev with_status : Status → Invoice → Invoice
with_status st inv = record inv { status = st }

abbrev set_found : String → Status → Option Invoice → Store → Result (Unit {0}) × Store
set_found id st none s = (err not_found, s)
set_found id st (some inv) s =
    (ok tt, record s { invoices = insert id (with_status st inv) s.invoices })

unfoldable pub set_invoice_status : String → Status → Store → Result (Unit {0}) × Store
set_invoice_status id st s = set_found id st (lookup id s.invoices) s

unfoldable pub open_invoices : Store → List Invoice
open_invoices s = keep_if (λ inv. is_pending inv.status) (map (λ e. e.1) (entries s.invoices))

-- `provider+"|"+externalID`
abbrev pub event_key : String → String → String
event_key provider external_id = provider ++ "|" ++ external_id

unfoldable pub seen_event : String → String → Store → Bool
seen_event provider external_id s = is_some (lookup (event_key provider external_id) s.events)

unfoldable pub record_event : String → String → Store → Store
record_event provider external_id s = record s {
  events = insert (event_key provider external_id) tt s.events;
}
