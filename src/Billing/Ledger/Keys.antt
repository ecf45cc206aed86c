-- ===== src/Billing/Ledger/Keys.antt =====
-- The keys of the outbox: two invoices never share a delivery id, and a credit never shares one with
-- a status transition.
use Prim.Native.String.{◌++◌, slice}
use text.Mathlib.TextLemmas.{append_cancel_left, append_assoc}
use text.Mathlib.TextPositions.{slice-append_left}
use casper_vpn.Base.{
  String, ℕ, ◌≡◌, ◌≢◌, refl, sym, ap, ◌∙◌, decimal, Bool, true, false, ◌==◌, eq_iff,
}
use casper_vpn.Billing.Store.Credits.{invoice_delivery_id, schedule_delivery_id, lease_key}

pub invoice_delivery_id-injective :
    (i j : String) → invoice_delivery_id i ≡ invoice_delivery_id j → i ≡ j
invoice_delivery_id-injective i j e = append_cancel_left "invoice:" i j e

pub lease_key-injective : (i j : String) → lease_key i ≡ lease_key j → i ≡ j
lease_key-injective i j e = append_cancel_left "delivery:" i j e

first : (i : String) → slice (invoice_delivery_id i) 0 8 ≡ "invoice:"
first i = slice-append_left "invoice:" i

split : (t : String) → "schedule:" ++ t ≡ "schedule" ++ (":" ++ t)
split t = append_assoc "schedule" ":" t

other : (sub : String) (n : ℕ) → slice (schedule_delivery_id sub n) 0 8 ≡ "schedule"
other sub n =
    ap (λ t. slice t 0 8) (split (sub ++ ":" ++ decimal n))
    ∙ slice-append_left "schedule" (":" ++ (sub ++ ":" ++ decimal n))

differ : (b : Bool) → b ≡ false → b ≡ true → ⊥
differ b e f = cc

pub invoice-ne-schedule :
    (i sub : String) (n : ℕ) → invoice_delivery_id i ≢ schedule_delivery_id sub n
invoice-ne-schedule i sub n e =
    let f : ◌≡◌ {A = String} "invoice:" "schedule" =
      sym (first i) ∙ ap (λ t. slice t 0 8) e ∙ other sub n in
    differ (("invoice:" == "schedule")) (refl) ((eq_iff "invoice:" "schedule").1 f)
