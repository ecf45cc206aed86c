-- ===== src/Orchestrator/Policy/Budget.antt =====
-- The budget of side effects of one reconcile cycle.
use casper_vpn.Base.{
  String, ℕ, suc, Time, ◌+◌, ◌≤◌, Bool, Option, List, [], ◌∷◌, ◌≡◌, refl, inl, inr, arith,
  Bool-cases, count_if, if◌then◌else◌, nat_eq, leb, sort_by, min, max, ◌∙◌, ◌⊎◌, ap, true,
}
use mathlib.Core.List.{Perm}
use casper_vpn.Base.{sort_by-perm, count_if-perm}
use casper_vpn.Orchestrator.Policy.{
  side_effecting, noop, deferred, Action, Thresholds, Input, keep_capped, cap_side_effects, draft,
  plan, action_before,
}

-- Whether an action touches the infrastructure.
abbrev pub touches : Action → Bool
touches a = side_effecting a.type

keep_capped-min :
    (actions : List Action) (max side : ℕ)
    → side ≤ max
    → side + count_if touches (keep_capped max side actions)
      ≡ min max (side + count_if touches actions)
unfolding keep_capped
keep_capped-min [] max side h = omega arith
keep_capped-min (a ∷ rest) max side h = elim (Bool-cases (side_effecting a.type)) [
  | inr e ↦ rw e (rw e (keep_capped-min rest max side h))
  | inl e ↦ elim (Bool-cases (leb max side)) [
    | inl f ↦
        rw (e, f) (full (count_if touches rest) (keep_capped-min rest max side h) (ground arith))
    | inr f ↦ rw (e, f) (rw e (omega (arith, keep_capped-min rest max (suc side) (ground arith))))
  ]
]
  where
    full : (n : ℕ) {k : ℕ} → k ≡ min max (side + n) → max ≤ side → k ≡ min max (side + suc n)
    full n p q = omega arith

-- The action of a plan for a drafted one: itself, or, where that touches the infrastructure, its deferral,
-- a no-op on the same node and regions that names the action and its reason.
pub IsFor : Action → Action → Type 0
IsFor a d =
    (a ≡ d)
    ⊎ ((side_effecting d.type ≡ true)
        × (a ≡ record d { type = noop; reason = deferred d.type d.reason }))

unfoldable pub AreFor : List Action → List Action → Type 0
AreFor [] [] = Unit
AreFor (a ∷ rest) (d ∷ drafted) = IsFor a d × AreFor rest drafted
AreFor _ _ = ⊥

keep_capped-AreFor :
    (actions : List Action) (max side : ℕ) → AreFor (keep_capped max side actions) actions
unfolding keep_capped AreFor IsFor
keep_capped-AreFor [] max side = tt
keep_capped-AreFor (a ∷ rest) max side = (
  elim (Bool-cases (side_effecting a.type)) [
    | inr e ↦ rw e (inl refl)
    | inl e ↦ elim (Bool-cases (leb max side)) [
      | inl f ↦ rw (e, f) (inr (refl, refl))
      | inr f ↦ rw (e, f) (inl refl)
    ]
  ],
  keep_capped-AreFor rest max _,
)

-- The cap on side effects.
pub record IsCapped (planned drafted : List Action) (most : ℕ) : Type 0 where
  pub bounded : count_if touches planned ≡ min (max 1 most) (count_if touches drafted)
  pub sorted : List Action
  pub same : Perm sorted drafted
  pub kept : AreFor planned sorted

cap-IsCapped :
    (actions : List Action) (most : ℕ) → IsCapped (cap_side_effects actions most) actions most
unfolding cap_side_effects
cap-IsCapped actions most =
    let bound = if nat_eq most 0 then 1 else most in
    let sorted = sort_by action_before actions in
    record {
      bounded =
          cap_equal most _ _ (keep_capped-min sorted bound 0 (omega arith))
          ∙ ap (min (max 1 most)) (count_if-perm touches (sort_by-perm action_before actions));
      sorted = sorted;
      same = sort_by-perm action_before actions;
      kept = keep_capped-AreFor sorted bound 0;
    }
  where
    cap_equal :
        (most n k : ℕ)
        → 0 + n ≡ min (if nat_eq most 0 then 1 else most) (0 + k)
        → n ≡ min (max 1 most) k
    cap_equal most n k h = ground arith

-- A plan has as many actions that touch the infrastructure as were drafted, but at most
-- `max_actions_per_cycle` of them, and at most one when that is 0. Up to their order, its actions are
-- those that were drafted, each as it was drafted or, if it touches the infrastructure, as a no-op that
-- defers it and names its node, its regions, its type and its reason.
pub plan-IsCapped :
    (parse : String → Option Time) (input : Input) (th : Thresholds)
    → IsCapped (plan parse input th) (draft parse input th).out th.max_actions_per_cycle
unfolding plan
plan-IsCapped parse input th = cap-IsCapped (draft parse input th).out th.max_actions_per_cycle

-- The bound alone.
pub plan-bounded :
    (parse : String → Option Time) (input : Input) (th : Thresholds)
    → count_if touches (plan parse input th) ≤ max 1 th.max_actions_per_cycle
plan-bounded parse input th = omega (arith, (plan-IsCapped parse input th).bounded)
