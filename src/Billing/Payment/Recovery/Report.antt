-- ===== src/Billing/Payment/Recovery/Report.antt =====
-- What the report of a recovery pass promises: its counts add up and its size is bounded.
use Prim.Native.String.{String as Text}
use text.Mathlib.TextLemmas.{nil-append, cons-append}
use casper_vpn.Base.{
  String, ℕ, zero, suc, Time, Duration, Bool, true, false, not, Option, none, some, List, [], ◌∷◌,
  ◌++◌, concat, ◌+◌, ◌-◌, ◌≤◌, ◌≡◌, refl, sym, ◌∙◌, inl, inr, ltb, leb, ◌==◌, ◌&&◌, ◌||◌, length,
  if◌then◌else◌, Bool-cases, All, All-append, arith,
}
use casper_vpn.Billing.Store.Settlements.{lease_stuck_settlements}
use casper_vpn.Billing.Store.Credits.{lease_billing_deliveries}
use casper_vpn.Billing.Environment.{Environment, World}
use casper_vpn.Billing.Activator.{Catalog}
use casper_vpn.Billing.Payment.Recovery.{
  RecoveryError, RecoveryReport, Pass, tally, finish_all, finish_delivery, finish_settlement,
  reconcile_stuck, reconcile, note, sanitize_id, replace_unsafe, rune_count, take_runes, max_id_len,
  max_reported_ids, empty_report, join_bounded,
}

rune_count-take : (n : ℕ) (s : String) → rune_count (take_runes n s) ≤ n
unfolding rune_count take_runes
rune_count-take zero s = omega arith
rune_count-take (suc n) Text.[] = omega arith
rune_count-take (suc n) (Text.◌∷◌ c s) = omega (arith, rune_count-take n s)

rune_count-concat : (s t : String) → rune_count (concat s t) ≡ rune_count s + rune_count t
unfolding rune_count
rune_count-concat Text.[] t = rw (nil-append t) (omega arith)
rune_count-concat (Text.◌∷◌ c s) t = rw (cons-append c s t) (omega (arith, rune_count-concat s t))

-- A rendered id has at most 64 runes and a mark.
rune_count-sanitize_id : (id : String) → rune_count (sanitize_id id) ≤ max_id_len + 1
unfolding sanitize_id
rune_count-sanitize_id id =
    let clean = replace_unsafe id in
    elim (Bool-cases (ltb max_id_len (rune_count clean))) [
      | inl e ↦
          rw (e, rune_count-concat (take_runes max_id_len clean) "~")
            (omega (arith, rune_count-take max_id_len clean, mark))
      | inr e ↦ rw e (ground arith)
    ]
  where
    mark : rune_count "~" ≡ 1
    mark = unfold rune_count in refl

abbrev pub IsShort : String → Type 0
IsShort id = rune_count id ≤ max_id_len + 1

-- The ids of a report are few and short.
abbrev pub IsBounded : List String → Type 0
IsBounded ids = (length ids ≤ max_reported_ids) × All IsShort ids

length-snoc : {A : Type 0} (xs : List A) (x : A) → length (xs ++ x ∷ []) ≡ length xs + 1
length-snoc [] x = refl
length-snoc (y ∷ xs) x = omega (arith, length-snoc xs x)

note-IsBounded :
    (e : RecoveryError) (r : RecoveryReport)
    → IsBounded r.failed_ids
    → IsBounded (note e r).failed_ids
unfolding note
note-IsBounded e r h =
    elim (Bool-cases (not (e.invoice_id == "") && ltb (length r.failed_ids) max_reported_ids)) [
      | inr f ↦ rw f h
      | inl f ↦ rw f (
        rw (length-snoc r.failed_ids (sanitize_id e.invoice_id)) (ground arith),
        All-append IsShort r.failed_ids (sanitize_id e.invoice_id ∷ []) h.1
            (rune_count-sanitize_id e.invoice_id, tt),
      )
    ]

note-counts :
    (e : RecoveryError) (r : RecoveryReport)
    → ((note e r).leased ≡ r.leased)
      × ((note e r).recovered ≡ r.recovered)
      × ((note e r).failed ≡ r.failed)
      × ((note e r).canceled ≡ r.canceled)
unfolding note
note-counts e r = (refl, refl, refl, refl)

module _ (env : Environment) (catalog : Catalog) where
  -- A pass over `todo` more items.
  pub record IsSoundPass (todo : ℕ) (p : Pass env catalog) : Type 0 where
    pub bounded : IsBounded p.report.failed_ids
    pub errors : length p.errs ≡ p.report.failed
    pub counts : p.report.recovered + p.report.failed + todo ≤ p.report.leased
    pub complete :
        p.report.canceled ≡ false → p.report.recovered + p.report.failed + todo ≡ p.report.leased

  tally-IsSoundPass :
      (n : ℕ) (e : Option RecoveryError) (p : Pass env catalog) (w : World env)
      → IsSoundPass (suc n) p
      → IsSoundPass n (tally env catalog e p w)
  tally-IsSoundPass n none p w h = ground (arith, h.counts)
  tally-IsSoundPass n (some e) p w h =
      let r = record p.report { failed = p.report.failed + 1 } in
      let (leased, recovered, failed, canceled) = note-counts e r in
      record {
        bounded = note-IsBounded e r h.bounded;
        errors = rw (failed, length-snoc p.errs e) (omega (arith, h.errors));
        counts = rw (leased, recovered, failed) (omega (arith, h.counts));
        complete =
            λ c. rw (leased, recovered, failed) (omega (arith, h.complete (sym canceled ∙ c)));
      }

  -- The report at the end of a loop over `n` items: nothing is left to do unless it was canceled.
  pub finish_all-IsSoundPass {ℓ} :
      {A : Type ℓ} (finish : A → World env → Option RecoveryError × World env) (xs : List A)
      (p : Pass env catalog)
      → IsSoundPass (length xs) p
      → IsSoundPass 0 (finish_all env catalog finish xs p)
  unfolding finish_all
  finish_all-IsSoundPass finish [] p h = h
  finish_all-IsSoundPass finish (x ∷ xs) p h =
      let r = finish x p.world in
      elim (Bool-cases (env.canceled p.world.outside)) [
        | inl c ↦ rw c (record {
          bounded = h.bounded;
          errors = h.errors;
          counts = omega (arith, h.counts);
          complete = λ e. cc;
        })
        | inr c ↦ rw c (
            finish_all-IsSoundPass finish xs (tally env catalog r.0 p r.1)
              (tally-IsSoundPass (length xs) r.0 p r.1 h))
      ]

  stuck-IsSoundPass :
      (older_than : Time) (lease_for : Duration) (limit : ℕ) (p : Pass env catalog)
      → IsSoundPass 0 p
      → IsSoundPass 0 (reconcile_stuck env catalog older_than lease_for limit p)
  unfolding reconcile_stuck
  stuck-IsSoundPass older_than lease_for limit p h =
      let w = p.world in
      let (stuck, s) =
        lease_stuck_settlements older_than lease_for limit (env.clock w.outside) w.store in
      finish_all-IsSoundPass (finish_settlement env catalog) stuck
        (record p {
          report = record p.report { leased = p.report.leased + length stuck };
          world = record w { store = s };
        })
        (record {
          bounded = h.bounded;
          errors = h.errors;
          counts = omega (arith, h.counts);
          complete = λ c. omega (arith, h.complete c);
        })

  joined_none :
      (errs : List RecoveryError) (n : ℕ)
      → length errs ≡ n
      → ((join_bounded errs ≡ none) → n ≡ 0) × (n ≡ 0 → join_bounded errs ≡ none)
  unfolding join_bounded
  joined_none [] n h = (λ e. omega arith, λ e. refl)
  joined_none (e ∷ es) n h = elim (Bool-cases (leb (length (e ∷ es)) max_reported_ids)) [
    | inl f ↦ rw f (λ q. cc, λ q. absurd (omega arith))
    | inr f ↦ rw f (λ q. cc, λ q. absurd (omega arith))
  ]

  abbrev IsReported : Pass env catalog → Type 0
  IsReported p =
      IsBounded p.report.failed_ids
      × (p.report.recovered + p.report.failed ≤ p.report.leased)
      × (p.report.canceled ≡ false → p.report.recovered + p.report.failed ≡ p.report.leased)
      × (join_bounded p.errs ≡ none → p.report.failed ≡ 0)
      × (p.report.failed ≡ 0 → join_bounded p.errs ≡ none)

  sound-IsReported : (p : Pass env catalog) → IsSoundPass 0 p → IsReported p
  sound-IsReported p h = (
    h.bounded,
    omega (arith, h.counts),
    (λ c. omega (arith, h.complete c)),
    (joined_none p.errs p.report.failed h.errors).0,
    (joined_none p.errs p.report.failed h.errors).1,
  )

  either :
      (b : Bool) (p q : Pass env catalog)
      → IsSoundPass 0 p
      → IsSoundPass 0 q
      → IsSoundPass 0 (if b then p else q)
  either true p q h k = h
  either false p q h k = k

  -- The report of every recovery pass, whatever fails in it: it lists at most ten ids, each of at most
  -- 65 runes; the items that were finished or failed are no more than those leased, and are all of
  -- them unless the context was canceled; and an error is returned exactly when an item failed.
  pub reconcile_report :
      (older_than : Time) (lease_for : Duration) (limit : ℕ) (w : World env)
      → let (r, errs) = (reconcile env catalog older_than lease_for limit w).0 in
        IsBounded r.failed_ids
        × (r.recovered + r.failed ≤ r.leased)
        × (r.canceled ≡ false → r.recovered + r.failed ≡ r.leased)
        × (errs ≡ none → r.failed ≡ 0)
        × (r.failed ≡ 0 → errs ≡ none)
  unfolding reconcile
  reconcile_report older_than lease_for limit w =
      let (deliveries, s) =
        lease_billing_deliveries older_than lease_for limit (env.clock w.outside) w.store in
      let n = length deliveries in
      let p = finish_all env catalog (finish_delivery env catalog) deliveries (record {
        report = record empty_report { leased = n };
        errs = [];
        world = record w { store = s };
      }) in
      let first : IsSoundPass 0 p =
        finish_all-IsSoundPass (finish_delivery env catalog) deliveries
          (record {
            report = record empty_report { leased = n };
            errs = [];
            world = record w { store = s };
          })
          (omega arith) in
      let second = stuck-IsSoundPass older_than lease_for (limit - n) p first in
      let q = reconcile_stuck env catalog older_than lease_for (limit - n) p in
      let b = p.report.canceled || (ltb 0 limit && leb limit n) in
      sound-IsReported (if b then p else q) (either b p q first second)
