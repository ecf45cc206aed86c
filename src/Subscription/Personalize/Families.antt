-- ===== src/Subscription/Personalize/Families.antt =====
-- The families of transports that `DistinctTransportTypes` lists.
use casper_vpn.Base.{
  String, Bool, true, false, List, [], ◌∷◌, ◌==◌, ◌≡◌, ◌++◌, ◌||◌, inl, inr, refl, sym, ap, subst,
  ◌∙◌, any_of, Bool-cases, eq_iff, if◌then◌else◌,
}
use casper_vpn.ControlPlane.Contracts.{
  TransportType, Transport, Node, SubscriptionBundle, transport_name,
}
use casper_vpn.Subscription.Personalize.{
  Params, enabled, listed, add_type, add_types, types_from, distinct_transport_types, filter,
  drop_blocked, narrowed, collapses, with_nodes,
}

abbrev same : TransportType → TransportType → Bool
same u t = transport_name u == transport_name t

-- Some node has an enabled transport of the family.
unfoldable pub has_family : TransportType → List Node → Bool
has_family t nodes = any_of (λ n. any_of (λ u. same u.type t) (enabled n)) nodes

-- No family stands twice.
unfoldable pub Apart : List TransportType → Type 0
Apart [] = Unit
Apart (t ∷ ts) = (listed t ts ≡ false) × Apart ts

same_sym : (t u : TransportType) → same t u ≡ true → same u t ≡ true
same_sym t u h =
    (eq_iff (transport_name u) (transport_name t)).1
      (sym ((eq_iff (transport_name t) (transport_name u)).0 h))

or_assoc : (a b c : Bool) → ((a || b) || c) ≡ (a || (b || c))
or_assoc true b c = refl
or_assoc false b c = refl

listed-append :
    (t u : TransportType) (types : List TransportType)
    → listed t (types ++ (u ∷ [])) ≡ (listed t types || same u t)
listed-append t u [] = elim (Bool-cases (same u t)) [ inl e ↦ rw e refl | inr e ↦ rw e refl ]
listed-append t u (v ∷ vs) = elim (Bool-cases (same v t)) [
  | inl e ↦ rw e refl
  | inr e ↦ rw e (listed-append t u vs)
]

-- A family that is listed is listed under each of its names.
listed_same :
    (t u : TransportType) (types : List TransportType)
    → same u t ≡ true
    → listed u types ≡ true
    → listed t types ≡ true
listed_same t u types h k =
    subst (λ x. any_of (λ v. transport_name v == x) types ≡ true)
      ((eq_iff (transport_name u) (transport_name t)).0 h) k

or_absorbs : (a b : Bool) → (b ≡ true → a ≡ true) → a ≡ (a || b)
or_absorbs true b h = refl
or_absorbs false true h = h refl
or_absorbs false false h = refl

listed-add_type :
    (t u : TransportType) (types : List TransportType)
    → listed t (add_type u types) ≡ (listed t types || same u t)
listed-add_type t u types = elim (Bool-cases (listed u types)) [
  | inl e ↦ rw e (or_absorbs (listed t types) (same u t) (λ h. listed_same t u types h e))
  | inr e ↦ rw e (listed-append t u types)
]

any_of-step : (a b : Bool) → (a || b) ≡ (if a then true else b)
any_of-step true b = refl
any_of-step false b = refl

listed-add_types :
    (t : TransportType) (ts : List Transport) (types : List TransportType)
    → listed t (add_types ts types) ≡ (listed t types || any_of (λ u. same u.type t) ts)
unfolding add_types
listed-add_types t [] types = or_absorbs (listed t types) false (λ h. absurd (cc h))
listed-add_types t (u ∷ us) types =
    listed-add_types t us (add_type u.type types)
    ∙ ap (λ x. x || any_of (λ u. same u.type t) us) (listed-add_type t u.type types)
    ∙ or_assoc (listed t types) (same u.type t) _
    ∙ ap (λ x. listed t types || x) (any_of-step (same u.type t) _)

listed-types_from :
    (t : TransportType) (ns : List Node) (types : List TransportType)
    → listed t (types_from ns types) ≡ (listed t types || has_family t ns)
unfolding types_from has_family
listed-types_from t [] types = or_absorbs (listed t types) false (λ h. absurd (cc h))
listed-types_from t (n ∷ ns) types =
    listed-types_from t ns (add_types (enabled n) types)
    ∙ ap (λ x. x || has_family t ns) (listed-add_types t (enabled n) types)
    ∙ or_assoc (listed t types) _ _
    ∙ ap (λ x. listed t types || x) (any_of-step _ (has_family t ns))

Apart-append :
    (u : TransportType) (types : List TransportType)
    → Apart types
    → listed u types ≡ false
    → Apart (types ++ (u ∷ []))
unfolding Apart
Apart-append u [] a h = (refl, tt)
Apart-append u (v ∷ vs) a h = elim (Bool-cases (same v u)) [
  | inl e ↦ absurd (cc (rw e at h))
  | inr e ↦ elim (Bool-cases (same u v)) [
    | inl f ↦ absurd (cc (same_sym u v f, e))
    | inr f ↦ (listed-append v u vs ∙ rw (a.0, f) refl, Apart-append u vs a.1 (rw e at h))
  ]
]

Apart-add_type :
    (u : TransportType) (types : List TransportType) → Apart types → Apart (add_type u types)
Apart-add_type u types a = elim (Bool-cases (listed u types)) [
  | inl e ↦ rw e a
  | inr e ↦ rw e (Apart-append u types a e)
]

Apart-add_types :
    (ts : List Transport) (types : List TransportType) → Apart types → Apart (add_types ts types)
unfolding add_types
Apart-add_types [] types a = a
Apart-add_types (t ∷ ts) types a = Apart-add_types ts _ (Apart-add_type t.type types a)

Apart-types_from :
    (ns : List Node) (types : List TransportType) → Apart types → Apart (types_from ns types)
unfolding types_from
Apart-types_from [] types a = a
Apart-types_from (n ∷ ns) types a = Apart-types_from ns _ (Apart-add_types (enabled n) types a)

distinct-Families :
    (t : TransportType) (ns : List Node)
    → (listed t (distinct_transport_types ns) ≡ has_family t ns)
      × Apart (distinct_transport_types ns)
unfolding distinct_transport_types Apart
distinct-Families t ns = (listed-types_from t ns [], Apart-types_from ns [] tt)

-- For every request, a family of transports is among the types of the result exactly when a node that
-- is served has an enabled transport of it, and no family is there twice.
pub filter-types :
    (b : SubscriptionBundle) (plan : String) (p : Params) (t : TransportType)
    → let r = filter b plan p in (listed t r.types ≡ has_family t r.bundle.nodes) × Apart r.types
unfolding filter with_nodes collapses
filter-types b plan p t =
    let servable = drop_blocked b.nodes in
    let kept = narrowed servable plan p in
    elim (Bool-cases (collapses kept servable)) [
      | inl e ↦ rw e (distinct-Families t servable)
      | inr e ↦ rw e (distinct-Families t kept)
    ]
