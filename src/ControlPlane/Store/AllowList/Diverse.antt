-- ===== src/ControlPlane/Store/AllowList/Diverse.antt =====
-- `DistinctEnabledTransportTypes` (packages/contracts): what it is when a node has two of them.
use casper_vpn.Base.{
  String, Bool, true, false, some, List, [], ◌∷◌, ◌≡◌, ◌≢◌, refl, ap, sym, subst, ◌∙◌, inl, inr,
  ◌⊎◌, ◌==◌, eq_iff, ltb, length, Memᴰ, All-Memᴰ, Bool-cases, if◌then◌else◌,
}
use casper_vpn.Map.{
  Map, lookup, insert, remove, entries, empty, size, lookup-insert_cases, All-entries,
}
use casper_vpn.ControlPlane.Contracts.{
  Transport, transport_name, enabled_types, distinct_enabled_transport_types,
}

-- Two enabled transports are of different families.
pub IsDiverse : List Transport → Type 0
IsDiverse ts =
    (t : Transport) × (u : Transport) × Memᴰ t ts
    × Memᴰ u ts
    × (t.enabled ≡ true)
    × (u.enabled ≡ true)
    × (transport_name t.type ≢ transport_name u.type)

pub differ : (b : Bool) → b ≡ false → b ≡ true → ⊥
differ b e f = cc

-- A listed family is that of an enabled transport.
OfFamily : List Transport → String → Type 0
OfFamily ts k = (t : Transport) × Memᴰ t ts × (t.enabled ≡ true) × (transport_name t.type ≡ k)

later-OfFamily :
    (t : Transport) (ts : List Transport) (k : String) → OfFamily ts k → OfFamily (t ∷ ts) k
unfolding OfFamily
later-OfFamily t ts k (u, m, on, name) = (u, Memᴰ.tail m, on, name)

enabled_types-OfFamily :
    (ts : List Transport) (seen : Map (Unit {0})) (k : String)
    → lookup k (enabled_types ts seen) ≡ some tt
    → OfFamily ts k ⊎ (lookup k seen ≡ some tt)
unfolding enabled_types OfFamily
enabled_types-OfFamily [] seen k h = inr h
enabled_types-OfFamily (t ∷ ts) seen k h = elim (Bool-cases t.enabled) [
  | inr e ↦ elim (enabled_types-OfFamily ts seen k (off t.enabled e h)) [
    | inl f ↦ inl (later-OfFamily t ts k f)
    | inr g ↦ inr g
  ]
  | inl e ↦
      elim (enabled_types-OfFamily ts (insert (transport_name t.type) tt seen) k
        (on t.enabled e h)) [
          | inl f ↦ inl (later-OfFamily t ts k f)
          | inr g ↦ elim (lookup-insert_cases (transport_name t.type) tt seen k tt g) [
            | inl p ↦ inl (t, Memᴰ.head refl, e, p.0)
            | inr p ↦ inr p.1
          ]
        ]
]
  where
    off :
        (b : Bool)
        → b ≡ false
        → lookup k (enabled_types ts (if b then insert (transport_name t.type) tt seen else seen))
          ≡ some tt
        → lookup k (enabled_types ts seen) ≡ some tt
    off true e h = absurd (cc e)
    off false e h = h

    on :
        (b : Bool)
        → b ≡ true
        → lookup k (enabled_types ts (if b then insert (transport_name t.type) tt seen else seen))
          ≡ some tt
        → lookup k (enabled_types ts (insert (transport_name t.type) tt seen)) ≡ some tt
    on true e h = h
    on false e h = absurd (cc e)

remove-differs :
    {V : Type 0} (k j : String) (v : V) (m : List (String × V)) → Memᴰ (j, v) (remove k m) → k ≢ j
unfolding remove
remove-differs {V} k j v [] m = elim m [ ]
remove-differs {V} k j v ((i, x) ∷ rest) m = elim (Bool-cases (i == k)) [
  | inl e ↦ remove-differs k j v rest (rw e at m)
  | inr e ↦ at_head e (remove-differs k j v rest) (rw e at m)
]
  where
    at_head :
        (i == k) ≡ false
        → (Memᴰ (j, v) (remove k rest) → k ≢ j)
        → Memᴰ (j, v) ((i, x) ∷ remove k rest)
        → k ≢ j
    at_head e later (Memᴰ.head p) same =
        differ (i == k) e ((eq_iff i k).1 (sym (ap (λ q. q.0) p) ∙ sym same))
    at_head e later (Memᴰ.tail n) same = later n same

two_keys :
    {V : Type 0} (m : Map V)
    → ltb (size m) 2 ≡ false
    → (j : String) × (k : String) × (v : V) × (w : V) × Memᴰ (j, v) (entries m)
      × Memᴰ (k, w) (entries m)
      × (j ≢ k)
unfolding size entries
two_keys [] h = absurd (cc h)
two_keys {V} ((j, v) ∷ m) h = second (remove j (entries m)) refl h
  where
    second :
        (rest : List (String × V))
        → remove j (entries m) ≡ rest
        → ltb (length ((j, v) ∷ rest)) 2 ≡ false
        → (i : String) × (k : String) × (x : V) × (w : V) × Memᴰ
            (i, x)
            ((j, v) ∷ remove j (entries m))
          × Memᴰ (k, w) ((j, v) ∷ remove j (entries m))
          × (i ≢ k)
    second [] e g = absurd (cc g)
    second ((k, w) ∷ rest) e g =
        let there : Memᴰ (k, w) (remove j (entries m)) =
          subst (λ l. Memᴰ (k, w) l) (sym e) (Memᴰ.head refl) in
        (j, k, v, w, Memᴰ.head refl, Memᴰ.tail there, remove-differs j k w (entries m) there)

nothing : (k : String) → lookup {V = Unit {0}} k empty ≡ some tt → ⊥
unfolding lookup
nothing k h = cc

pub IsDiverse-enough :
    (ts : List Transport) → ltb (distinct_enabled_transport_types ts) 2 ≡ false → IsDiverse ts
unfolding distinct_enabled_transport_types IsDiverse OfFamily
IsDiverse-enough ts h =
    let types = enabled_types ts empty in
    let (j, k, v, w, in_j, in_k, apart) = two_keys types h in
    let stored : (e : String × Unit {0}) → Memᴰ e (entries types) → lookup e.0 types ≡ some e.1 =
      λ e m. All-Memᴰ (λ e. lookup e.0 types ≡ some e.1) (entries types) (All-entries types) m in
    elim (enabled_types-OfFamily ts empty j (stored (j, v) in_j)) [
      | inr none_yet ↦ absurd (nothing j none_yet)
      | inl (t, m, on, name) ↦ elim (enabled_types-OfFamily ts empty k (stored (k, w) in_k)) [
        | inr none_yet ↦ absurd (nothing k none_yet)
        | inl (u, n, on', name') ↦ (t, u, m, n, on, on', λ same. apart (sym name ∙ same ∙ name'))
      ]
    ]
