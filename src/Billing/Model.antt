-- ===== src/Billing/Model.antt =====
-- services/billing/internal/model/model.go: the value types of billing, and the errors and keys that
-- the store, the processor and the activator share. A status is a Go string; the constants are
-- constructors and any other text is `other`.
use casper_vpn.Base.{String, ℕ, Time, Bool, true, false, ◌==◌}

-- `model.Status`
pub data Status : Type 0 where
  pending settled expired invalid : Status
  other : String → Status

abbrev pub is_pending : Status → Bool
is_pending pending = true
is_pending _ = false

abbrev pub is_settled : Status → Bool
is_settled settled = true
is_settled _ = false

-- `contracts.SubscriptionStatus`
pub data SubStatus : Type 0 where
  trialing active past_due canceled lapsed : SubStatus
  other : String → SubStatus

-- Go's `==` on two subscription statuses; `lapsed` is the constant "expired".
abbrev pub same_sub_status : SubStatus → SubStatus → Bool
same_sub_status trialing trialing = true
same_sub_status active active = true
same_sub_status past_due past_due = true
same_sub_status canceled canceled = true
same_sub_status lapsed lapsed = true
same_sub_status (SubStatus.other s) (SubStatus.other t) = s == t
same_sub_status _ _ = false

pub record Invoice : Type 0 where
  pub id : String
  pub provider : String
  pub anon_user_id : String
  pub plan : String
  pub currency : String
  pub amount : String
  pub pay_address : String
  pub provider_invoice_id : String
  pub status : Status
  pub created_at : Time
  pub expires_at : Time

-- The safe projection for the private read APIs.
pub record InvoiceOverview : Type 0 where
  pub invoice_id : String
  pub anon_user_id : String
  pub plan : String
  pub status : Status
  pub amount : String
  pub currency : String
  pub created_at : Time
  pub expires_at : Time

pub record InvoiceCounts : Type 0 where
  pub pending : ℕ
  pub settled : ℕ
  pub expired : ℕ
  pub invalid : ℕ

-- A normalized payment notification.
pub record Event : Type 0 where
  pub provider : String
  pub external_id : String
  pub invoice_id : String
  pub status : Status
  pub currency : String
  pub amount : String
  pub confirmations : ℕ
  pub timestamp : Time

-- Billing's expiry index of one subscription.
pub record Schedule : Type 0 where
  pub sub_id : String
  pub anon_user_id : String
  pub revision : ℕ
  pub plan : String
  pub status : SubStatus
  pub expires_at : Time
  pub grace_until : Time

-- An absolute, durable entitlement update.
pub record BillingDelivery : Type 0 where
  pub id : String
  pub invoice_id : String
  pub sub_id : String
  pub anon_user_id : String
  pub revision : ℕ
  pub plan : String
  pub status : SubStatus
  pub expires_at : Time
  pub grace_until : Time
  pub created_at : Time
  pub delivered_at : Time

-- `InvoiceIntent.State`
pub data IntentState : Type 0 where
  blank reserved creating ready failed : IntentState

pub record InvoiceIntent : Type 0 where
  pub idempotency_key : String
  pub request_hash : String
  pub order_id : String
  pub provider : String
  pub anon_user_id : String
  pub plan : String
  pub currency : String
  pub amount : String
  pub state : IntentState
  pub created_at : Time

-- The errors of the billing packages, as `errors.Is` tells them apart; `remote` is any failure of a
-- call of the control plane.
pub data Error : Type 0 where
  not_found conflict stale_event underpaid provider_mismatch currency_mismatch : Error
  invalid_amount unknown_plan remote : Error

pub data Result {ℓ} (A : Type ℓ) : Type ℓ where
  ok : A → Result A
  err : Error → Result A

abbrev pub is_ok {ℓ} : {A : Type ℓ} → Result A → Bool
is_ok (ok a) = true
is_ok (err e) = false
