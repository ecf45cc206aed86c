-- ===== src/Billing/Store/Reach.antt =====
-- What a handler does to the store is a list of calls; so what every run of calls keeps, every handler
-- keeps.
use casper_vpn.Base.{List, [], ◌∷◌, ◌++◌, ◌≡◌, refl, ap, ◌∙◌}
use casper_vpn.Billing.Store.State.{Store}
use casper_vpn.Billing.Store.Calls.{Call, apply, run}

abbrev pub Reaches : Store → Store → Type 0
Reaches s t = (cs : List Call) × (run cs s ≡ t)

run-append : (cs ds : List Call) (s : Store) → run (cs ++ ds) s ≡ run ds (run cs s)
unfolding run
run-append [] ds s = refl
run-append (c ∷ cs) ds s = run-append cs ds (apply c s)

pub Reaches-refl : (s : Store) → Reaches s s
unfolding run
Reaches-refl s = ([], refl)

pub Reaches-one : (c : Call) (s : Store) → Reaches s (apply c s)
unfolding run
Reaches-one c s = (c ∷ [], refl)

pub Reaches-trans : (s t u : Store) → Reaches s t → Reaches t u → Reaches s u
Reaches-trans s t u (cs, p) (ds, q) = (cs ++ ds, run-append cs ds s ∙ ap (run ds) p ∙ q)

-- An invariant of the calls holds wherever calls lead.
pub run_invariant {κ} :
    (P : Store → Type κ)
    → ((c : Call) (s : Store) → P s → P (apply c s))
    → (cs : List Call) (s : Store) → P s
    → P (run cs s)
unfolding run
run_invariant P keep [] s h = h
run_invariant P keep (c ∷ cs) s h = run_invariant P keep cs (apply c s) (keep c s h)

pub Reaches_invariant {κ} :
    (P : Store → Type κ)
    → ((c : Call) (s : Store) → P s → P (apply c s))
    → (s t : Store) → Reaches s t
    → P s
    → P t
Reaches_invariant P keep s t (cs, p) h = rw (← p) (run_invariant P keep cs s h)
