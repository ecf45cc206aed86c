-- ===== src/Billing/Store/Intents.antt =====
-- store/memory.go, the durable reservations behind the invoice API's Idempotency-Key.
use casper_vpn.Base.{
  String, Time, Bool, true, false, not, Option, none, some, ◌==◌, ◌||◌, is_zero, if◌then◌else◌,
}
use casper_vpn.Map.{lookup, insert}
use casper_vpn.Billing.Model.{
  Invoice, InvoiceIntent, IntentState, reserved, creating, ready, failed, Result, ok, err,
  not_found, conflict,
}
use casper_vpn.Billing.Store.State.{Store}

abbrev is_reserved : IntentState → Bool
is_reserved reserved = true
is_reserved _ = false

abbrev put_intent : InvoiceIntent → String → Store → Store
put_intent intent key s = record s { invoice_intents = insert key intent s.invoice_intents }

abbrev with_state : IntentState → InvoiceIntent → InvoiceIntent
with_state st intent = record intent { state = st }

abbrev reserve_as :
    Option InvoiceIntent → InvoiceIntent → Time → Store → Result (InvoiceIntent × Bool) × Store
reserve_as (some existing) intent now s =
    if not (existing.request_hash == intent.request_hash)
    then (err conflict, s)
    else (ok (existing, false), s)
reserve_as none intent now s =
    let fresh = record intent {
      created_at = if is_zero intent.created_at then now else intent.created_at;
      state = reserved;
    } in
    (ok (fresh, true), put_intent fresh intent.idempotency_key s)

unfoldable pub reserve_invoice_intent :
    InvoiceIntent → Time → Store → Result (InvoiceIntent × Bool) × Store
reserve_invoice_intent intent now s =
    reserve_as (lookup intent.idempotency_key s.invoice_intents) intent now s

abbrev begin_found : Option InvoiceIntent → String → Store → Result Bool × Store
begin_found none key s = (err not_found, s)
begin_found (some intent) key s =
    if is_reserved intent.state
    then (ok true, put_intent (with_state creating intent) key s)
    else (ok false, s)

unfoldable pub begin_invoice_create : String → Store → Result Bool × Store
begin_invoice_create key s = begin_found (lookup key s.invoice_intents) key s

abbrev complete_found : Option InvoiceIntent → String → Invoice → Store → Result (Unit {0}) × Store
complete_found none key inv s = (err not_found, s)
complete_found (some intent) key inv s =
    if not (intent.order_id == inv.id) || not (intent.provider == inv.provider)
    then (err conflict, s)
    else (
      ok tt,
      put_intent (with_state ready intent) key
          (record s { invoices = insert inv.id inv s.invoices }),
    )

unfoldable pub complete_invoice_create : String → Invoice → Store → Result (Unit {0}) × Store
complete_invoice_create key inv s = complete_found (lookup key s.invoice_intents) key inv s

abbrev fail_found : Option InvoiceIntent → String → Store → Result (Unit {0}) × Store
fail_found none key s = (err not_found, s)
fail_found (some intent) key s = (ok tt, put_intent (with_state failed intent) key s)

unfoldable pub fail_invoice_create : String → Store → Result (Unit {0}) × Store
fail_invoice_create key s = fail_found (lookup key s.invoice_intents) key s

abbrev found_intent : Option InvoiceIntent → Result InvoiceIntent
found_intent none = err not_found
found_intent (some intent) = ok intent

unfoldable pub get_invoice_intent : String → Store → Result InvoiceIntent
get_invoice_intent key s = found_intent (lookup key s.invoice_intents)
