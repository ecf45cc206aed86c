-- ===== src/Billing/Payment/Recovery.antt =====
-- services/billing/internal/payment/recovery.go and `Reconcile` and `finishSettlement` of
-- processor.go: the pass that finishes deliveries and settlements that a crash left behind.
pub mod Report
use Prim.Native.Char.{Char, code}
use Prim.Native.String.{String as Text}
use casper_vpn.Base.{
  String, ℕ, zero, suc, Time, Duration, Bool, true, false, not, Option, none, some, List, [], ◌∷◌,
  ◌++◌, concat, ◌+◌, ◌-◌, ◌&&◌, ◌||◌, ◌==◌, ltb, leb, nat_eq, length, take, if◌then◌else◌, is_some,
}
use casper_vpn.Map.{Map, lookup, insert, size, empty}
use casper_vpn.Billing.Model.{settled, is_settled, Invoice, Error, Result, ok, err, BillingDelivery}
use casper_vpn.Billing.Store.State.{Store}
use casper_vpn.Billing.Store.Invoices.{get_invoice, set_invoice_status}
use casper_vpn.Billing.Store.Settlements.{StuckSettlement, lease_stuck_settlements}
use casper_vpn.Billing.Store.Credits.{lease_billing_deliveries}
use casper_vpn.Billing.Environment.{Environment, World}
use casper_vpn.Billing.Activator.{Catalog, deliver, credit_invoice}

-- The stages of a `recoveryError`, as the texts that the report counts them under.
pub data Stage : Type 0 where
  load_invoice activate set_status : Stage

abbrev pub stage_text : Stage → String
stage_text load_invoice = "load_invoice"
stage_text activate = "activate"
stage_text set_status = "set_status"

-- `recoveryError`; the errors of this pass are all of this type.
pub record RecoveryError : Type 0 where
  pub stage : Stage
  pub invoice_id : String
  pub cause : Error

pub record RecoveryReport : Type 0 where
  pub leased : ℕ
  pub recovered : ℕ
  pub failed : ℕ
  pub canceled : Bool
  pub failed_ids : List String
  pub stages : Map ℕ

abbrev pub empty_report : RecoveryReport
empty_report = record {
  leased = 0;
  recovered = 0;
  failed = 0;
  canceled = false;
  failed_ids = [];
  stages = empty;
}

unfoldable pub should_log : RecoveryReport → Bool
should_log r =
    ltb 0 r.leased || ltb 0 r.recovered || ltb 0 r.failed || r.canceled || ltb 0 (size r.stages)

abbrev pub max_reported_ids : ℕ
max_reported_ids = 10

abbrev pub max_id_len : ℕ
max_id_len = 64

-- `r < 0x20 || r == ',' || r == '[' || r == ']'`
abbrev pub is_unsafe : Char → Bool
is_unsafe c =
    ltb (code c) 0x20 || nat_eq (code c) b',' || nat_eq (code c) b'[' || nat_eq (code c) b']'

-- `strings.Map` with `sanitizeID`'s function.
unfoldable pub replace_unsafe : String → String
replace_unsafe Text.[] = Text.[]
replace_unsafe (Text.◌∷◌ c s) = Text.◌∷◌ (if is_unsafe c then "_" else c) (replace_unsafe s)

-- The number of runes, and `rs[:n]`.
unfoldable pub rune_count : String → ℕ
rune_count Text.[] = 0
rune_count (Text.◌∷◌ c s) = suc (rune_count s)

unfoldable pub take_runes : ℕ → String → String
take_runes zero s = Text.[]
take_runes (suc n) Text.[] = Text.[]
take_runes (suc n) (Text.◌∷◌ c s) = Text.◌∷◌ c (take_runes n s)

unfoldable pub sanitize_id : String → String
unfolding replace_unsafe rune_count take_runes
sanitize_id id =
    let clean = replace_unsafe id in
    if ltb max_id_len (rune_count clean) then concat (take_runes max_id_len clean) "~" else clean

abbrev count_of : Option ℕ → ℕ
count_of none = 0
count_of (some n) = n

-- `note`, on an error of this pass.
unfoldable pub note : RecoveryError → RecoveryReport → RecoveryReport
unfolding sanitize_id
note e r =
    let stage = stage_text e.stage in
    record r {
      stages = insert stage (count_of (lookup stage r.stages) + 1) r.stages;
      failed_ids =
          if not (e.invoice_id == "") && ltb (length r.failed_ids) max_reported_ids
          then r.failed_ids ++ (sanitize_id e.invoice_id ∷ [])
          else r.failed_ids;
    }

-- `joinBounded`: the errors that are kept and the number of the others; `none` is nil.
abbrev pub JoinedErrors : Type 0
JoinedErrors = Option (List RecoveryError × ℕ)

unfoldable pub join_bounded : List RecoveryError → JoinedErrors
join_bounded [] = none
join_bounded (e ∷ es) =
    if leb (length (e ∷ es)) max_reported_ids
    then some (e ∷ es, 0)
    else some (take max_reported_ids (e ∷ es), length (e ∷ es) - max_reported_ids)

module _ (env : Environment) (catalog : Catalog) where
  open env use {clock, canceled}

  -- The report, the errors and the world of a pass under way.
  pub record Pass : Type 0 where
    pub report : RecoveryReport
    pub errs : List RecoveryError
    pub world : World env

  -- What the loop body does with the outcome of one item.
  abbrev pub tally : Option RecoveryError → Pass → World env → Pass
  tally none p w = record p {
    report = record p.report { recovered = p.report.recovered + 1 };
    world = w;
  }
  tally (some e) p w = record p {
    report = note e (record p.report { failed = p.report.failed + 1 });
    errs = p.errs ++ (e ∷ []);
    world = w;
  }

  -- One of the two loops, over `finish`; a canceled context stops it.
  unfoldable pub finish_all {ℓ} :
      {A : Type ℓ} → (A → World env → Option RecoveryError × World env) → List A → Pass → Pass
  finish_all finish [] p = p
  finish_all finish (x ∷ xs) p =
      let (e, w) = finish x p.world in
      let rest = finish_all finish xs (tally e p w) in
      if canceled p.world.outside
      then record p { report = record p.report { canceled = true } }
      else rest

  abbrev failed_at : Stage → String → Result (Unit {0}) → Option RecoveryError
  failed_at stage id (ok x) = none
  failed_at stage id (err e) = some (record { stage = stage; invoice_id = id; cause = e })

  unfoldable pub finish_delivery : BillingDelivery → World env → Option RecoveryError × World env
  finish_delivery d w = let (r, w') = deliver env d w in (failed_at activate d.id r, w')

  abbrev finish_invoice :
      Result Invoice → StuckSettlement → World env → Option RecoveryError × World env
  finish_invoice (err e) s w = (failed_at load_invoice s.invoice_id (err e), w)
  finish_invoice (ok inv) s w =
      let (credit, w') = credit_invoice env catalog inv w in
      let (flip, t) = set_invoice_status inv.id settled w.store in
      if is_settled inv.status
      then (none, w)
      else if not s.activated
      then (failed_at activate inv.id credit, w')
      else (failed_at set_status inv.id flip, record w { store = t })

  unfoldable pub finish_settlement : StuckSettlement → World env → Option RecoveryError × World env
  finish_settlement s w = finish_invoice (get_invoice s.invoice_id w.store) s w

  abbrev start : ℕ → World env → Pass
  start leased w = record { report = record empty_report { leased = leased }; errs = []; world = w }

  -- The second loop, on the settlements that no delivery covers.
  unfoldable pub reconcile_stuck : Time → Duration → ℕ → Pass → Pass
  unfolding finish_all finish_settlement
  reconcile_stuck older_than lease_for limit p =
      let w = p.world in
      let (stuck, s) =
        lease_stuck_settlements older_than lease_for limit (clock w.outside) w.store in
      finish_all finish_settlement stuck (record p {
        report = record p.report { leased = p.report.leased + length stuck };
        world = record w { store = s };
      })

  -- A limit of 0 stands for one that is not positive. With a limit, the settlements get what the
  -- deliveries leave of it.
  unfoldable pub reconcile :
      Time → Duration → ℕ → World env → (RecoveryReport × JoinedErrors) × World env
  unfolding finish_all finish_delivery reconcile_stuck join_bounded
  reconcile older_than lease_for limit w =
      let (deliveries, s) =
        lease_billing_deliveries older_than lease_for limit (clock w.outside) w.store in
      let n = length deliveries in
      let p = finish_all finish_delivery deliveries (start n (record w { store = s })) in
      let q = reconcile_stuck older_than lease_for (limit - n) p in
      let end = if p.report.canceled || (ltb 0 limit && leb limit n) then p else q in
      ((end.report, join_bounded end.errs), end.world)
