-- ===== src/Subscription/Personalize/Public.antt =====
-- What `PublicBundle` leaves in a bundle.
use casper_vpn.Base.{
  Bool, true, false, not, Option, none, some, List, [], ◌∷◌, ◌==◌, ◌≡◌, ◌<◌, ◌⊎◌, inl, inr, refl,
  ◌||◌, length, Bool-cases, All, All-Memᴰ, Memᴰ, arith, subst, sym, ap, if◌then◌else◌, is_some,
  nat_eq, ◌+◌, ◌&&◌, ℕ, ◌≢◌,
}
use casper_vpn.ControlPlane.Contracts.{
  TransportType, vless_reality, hysteria2, amneziawg, shadowsocks_2022, Transport,
  VlessRealityParams, Hysteria2Params, Node, User, SubscriptionBundle, is_exit, Result, ok, err,
  valid_transport, valid_transport_type, variant_matches, one_if, NodeRole,
}
use casper_vpn.Subscription.Personalize.{
  push, collect, personal_vless, personal_hysteria2, personal_as, personal, with_transports,
  public_node, public_with, public_bundle,
}

ok_injective : {A : Type 0} {x y : A} → Result.ok x ≡ ok y → x ≡ y
ok_injective p = cc

ok_some_injective : {A : Type 0} {x y : A} → Result.ok (some x) ≡ ok (some y) → x ≡ y
ok_some_injective p = cc

module _ {A B : Type 0} (P : B → Type 0) (f : A → Result (Option B)) where
  push-All :
      (r : Result (Option B)) (rest : Result (List B)) (ys : List B)
      → ((y : B) → r ≡ ok (some y) → P y)
      → ((zs : List B) → rest ≡ ok zs → All P zs)
      → push r rest ≡ ok ys
      → All P ys
  push-All (err e) rest ys h k p = absurd (cc p)
  push-All (ok none) rest ys h k p = k ys p
  push-All (ok (some y)) (err e) ys h k p = absurd (cc p)
  push-All (ok (some y)) (ok zs) ys h k p = subst (All P) (ok_injective p) (h y refl, k zs refl)

  -- What holds of every element that `f` gives holds of all that are collected.
  collect-All :
      (xs : List A) (ys : List B)
      → ((x : A) → Memᴰ x xs → (y : B) → f x ≡ ok (some y) → P y)
      → collect f xs ≡ ok ys
      → All P ys
  unfolding collect
  collect-All [] ys h p = subst (All P) (ok_injective p) tt
  collect-All (x ∷ xs) ys h p =
      push-All (f x) (collect f xs) ys (h x (Memᴰ.head refl))
        (λ zs e. collect-All xs zs (λ z m. h z (Memᴰ.tail m)) e) p

-- The transport of a node as a client sees it: enabled, equal to the stored one but for the user's own
-- credential, which replaces all the stored ones, and without parameters of any other kind.
pub IsPersonal : User → Transport → Transport → Type 0
IsPersonal u t new =
    (t.enabled ≡ true)
    × (new.awg_params ≡ none)
    × (new.ss2022_params ≡ none)
    × (((p : VlessRealityParams) × (t.type ≡ vless_reality)
          × (t.vless_params ≡ some p)
          × (t.hysteria2_params ≡ none)
          × (new ≡ record t {
            vless_params = some (record p { short_ids = u.reality_short_id ∷ [] });
          }))
        ⊎ ((p : Hysteria2Params) × (t.type ≡ hysteria2)
            × (t.hysteria2_params ≡ some p)
            × (t.vless_params ≡ none)
            × (new ≡ record t {
              hysteria2_params = some (record p { password = u.hysteria2_password });
            })))

is_none : {A : Type 0} (o : Option A) → is_some o ≡ false → o ≡ none
is_none none h = refl
is_none (some x) h = cc

-- Just one of the four kinds of parameters is there.
only_first :
    (a b c d : Bool)
    → nat_eq (one_if a + one_if b + one_if c + one_if d) 1 ≡ true
    → a ≡ true
    → (b ≡ false) × (c ≡ false) × (d ≡ false)
only_first true false false false h k = (refl, refl, refl)
only_first true true c d h k = absurd (too_many (one_if c) (one_if d) h)
  where
    too_many : (m n : ℕ) → nat_eq (1 + 1 + m + n) 1 ≡ true → ⊥
    too_many m n h = ground arith
only_first true false true d h k = absurd (too_many (one_if d) h)
  where
    too_many : (n : ℕ) → nat_eq (1 + 0 + 1 + n) 1 ≡ true → ⊥
    too_many n h = ground arith
only_first true false false true h k = absurd (cc h)
only_first false b c d h k = absurd (cc k)

third : (a b c d : Bool) → (a && b && c && d) ≡ true → c ≡ true
third true true true d h = refl
third true true false d h = absurd (cc h)
third true false c d h = absurd (cc h)
third false b c d h = absurd (cc h)

only_third :
    (a b c d : Bool)
    → nat_eq (one_if a + one_if b + one_if c + one_if d) 1 ≡ true
    → c ≡ true
    → (a ≡ false) × (b ≡ false) × (d ≡ false)
only_third a b c d h k =
    only_first c a b d
      (subst (λ n. nat_eq n 1 ≡ true) (moved (one_if a) (one_if b) (one_if c) (one_if d)) h) k
  where
    moved : (a b c d : ℕ) → a + b + c + d ≡ c + a + b + d
    moved a b c d = omega arith

-- A validated transport has one kind of parameters.
one_variant :
    (t : Transport)
    → valid_transport t ≡ true
    → nat_eq
        (one_if (is_some t.vless_params)
          + one_if (is_some t.awg_params)
          + one_if (is_some t.hysteria2_params)
          + one_if (is_some t.ss2022_params))
        1
      ≡ true
unfolding valid_transport
one_variant t v =
    third (valid_transport_type t.type) (t.version == "v1") _ (variant_matches t.type t) v

vless-IsPersonal :
    (o : Option VlessRealityParams) (u : User) (t new : Transport)
    → valid_transport t ≡ true
    → t.enabled ≡ true
    → t.type ≡ vless_reality
    → t.vless_params ≡ o
    → personal_vless o u t ≡ ok (some new)
    → IsPersonal u t new
unfolding IsPersonal
vless-IsPersonal none u t new v e k o h = absurd (cc h)
vless-IsPersonal (some p) u t new v e k o h =
    elim (Bool-cases (u.uuid == "" || u.reality_short_id == "")) [
      | inl b ↦ absurd (cc (rw b at h))
      | inr b ↦
          let same = ok_some_injective (rw b at h) in
          let (no_awg, no_hysteria2, no_ss) =
            only_first (is_some t.vless_params) (is_some t.awg_params) (is_some t.hysteria2_params)
              (is_some t.ss2022_params) (one_variant t v) (ap is_some o) in
          (
            e,
            subst (λ x. x.awg_params ≡ none) same (is_none t.awg_params no_awg),
            subst (λ x. x.ss2022_params ≡ none) same (is_none t.ss2022_params no_ss),
            inl (p, k, o, is_none t.hysteria2_params no_hysteria2, sym same),
          )
    ]

hysteria2-IsPersonal :
    (o : Option Hysteria2Params) (u : User) (t new : Transport)
    → valid_transport t ≡ true
    → t.enabled ≡ true
    → t.type ≡ hysteria2
    → t.hysteria2_params ≡ o
    → personal_hysteria2 o u t ≡ ok (some new)
    → IsPersonal u t new
unfolding IsPersonal
hysteria2-IsPersonal none u t new v e k o h = absurd (cc h)
hysteria2-IsPersonal (some p) u t new v e k o h = elim (Bool-cases (u.hysteria2_password == "")) [
  | inl b ↦ absurd (cc (rw b at h))
  | inr b ↦
      let same = ok_some_injective (rw b at h) in
      let (no_vless, no_awg, no_ss) =
        only_third (is_some t.vless_params) (is_some t.awg_params) (is_some t.hysteria2_params)
          (is_some t.ss2022_params) (one_variant t v) (ap is_some o) in
      (
        e,
        subst (λ x. x.awg_params ≡ none) same (is_none t.awg_params no_awg),
        subst (λ x. x.ss2022_params ≡ none) same (is_none t.ss2022_params no_ss),
        inr (p, k, o, is_none t.vless_params no_vless, sym same),
      )
]

typed-IsPersonal :
    (ty : TransportType) (u : User) (t new : Transport)
    → valid_transport t ≡ true
    → t.enabled ≡ true
    → t.type ≡ ty
    → personal_as ty u t ≡ ok (some new)
    → IsPersonal u t new
typed-IsPersonal vless_reality u t new v e k h =
    vless-IsPersonal t.vless_params u t new v e k refl h
typed-IsPersonal hysteria2 u t new v e k h =
    hysteria2-IsPersonal t.hysteria2_params u t new v e k refl h
typed-IsPersonal amneziawg u t new v e k h = absurd (cc h)
typed-IsPersonal shadowsocks_2022 u t new v e k h = absurd (cc h)
typed-IsPersonal (TransportType.other s) u t new v e k h = absurd (cc h)

personal-IsPersonal :
    (u : User) (t new : Transport)
    → valid_transport t ≡ true
    → personal u t ≡ ok (some new)
    → IsPersonal u t new
personal-IsPersonal u t new v h = switched t.enabled refl h
  where
    switched :
        (on : Bool)
        → t.enabled ≡ on
        → (if not on then ok none else personal_as t.type u t) ≡ ok (some new)
        → IsPersonal u t new
    switched true e k = typed-IsPersonal t.type u t new v e refl k
    switched false e k = absurd (cc k)

-- The transports of every node were validated.
unfoldable pub IsValid : List Node → Type 0
IsValid ns = All (λ n. All (λ t. valid_transport t ≡ true) n.transports) ns

-- A node as a client sees it: a stored one that is no exit, with some of its transports made personal.
pub record IsPublic (u : User) (ns : List Node) (new : Node) : Type 0 where
  pub node : Node
  pub stored : Memᴰ node ns
  pub no_exit : node.role ≢ NodeRole.exit
  pub same : new ≡ record node { transports = new.transports }
  pub some_transport : 0 < length new.transports
  pub personal :
      All (λ x. (t : Transport) × Memᴰ t node.transports × IsPersonal u t x) new.transports

with_transports-IsPublic :
    (u : User) (ns : List Node) (n new : Node) (r : Result (List Transport))
    → Memᴰ n ns
    → n.role ≢ NodeRole.exit
    → ((ts : List Transport)
        → r ≡ ok ts
        → All (λ x. (t : Transport) × Memᴰ t n.transports × IsPersonal u t x) ts)
    → with_transports n r ≡ ok (some new)
    → IsPublic u ns new
with_transports-IsPublic u ns n new (err e) m x k h = absurd (cc h)
with_transports-IsPublic u ns n new (ok []) m x k h = absurd (cc h)
with_transports-IsPublic u ns n new (ok (t ∷ ts)) m x k h =
    subst (IsPublic u ns) (ok_some_injective h) (record {
      node = n;
      stored = m;
      no_exit = x;
      same = refl;
      some_transport = omega arith;
      personal = k (t ∷ ts) refl;
    })

no_exit : (role : NodeRole) → is_exit role ≡ false → role ≢ NodeRole.exit
no_exit role h same = differ (is_exit role) h (ap is_exit same)
  where
    differ : (b : Bool) → b ≡ false → b ≡ true → ⊥
    differ b e f = cc

public_node-IsPublic :
    (u : User) (ns : List Node)
    → IsValid ns
    → (n : Node) → Memᴰ n ns
    → (new : Node) → public_node u n ≡ ok (some new)
    → IsPublic u ns new
unfolding public_node IsValid
public_node-IsPublic u ns v n m new h = elim (Bool-cases (is_exit n.role)) [
  | inl e ↦ absurd (cc (rw e at h))
  | inr e ↦
      with_transports-IsPublic u ns n new (collect (personal u) n.transports) m (no_exit n.role e)
        (λ ts g.
          collect-All (λ x. (t : Transport) × Memᴰ t n.transports × IsPersonal u t x) (personal u)
            n.transports ts
            (λ t k x p. (
              t,
              k,
              personal-IsPersonal u t x
                  (All-Memᴰ (λ y. valid_transport y ≡ true) n.transports
                    (All-Memᴰ (λ y. All (λ t. valid_transport t ≡ true) y.transports) ns v m) k)
                  p,
            ))
            g)
        (rw e at h)
]

-- What a bundle may show to a client.
pub record Shows (b out : SubscriptionBundle) : Type 0 where
  pub user : out.user ≡ record b.user { private_key = ""; telegram_id = none; email = none }
  pub generated_at : out.generated_at ≡ b.generated_at
  pub some_node : 0 < length out.nodes
  pub public : All (IsPublic b.user b.nodes) out.nodes

public_with-Shows :
    (b out : SubscriptionBundle) (r : Result (List Node))
    → ((ns : List Node) → r ≡ ok ns → All (IsPublic b.user b.nodes) ns)
    → public_with b r ≡ ok out
    → Shows b out
public_with-Shows b out (err e) k h = absurd (cc h)
public_with-Shows b out (ok []) k h = absurd (cc h)
public_with-Shows b out (ok (n ∷ ns)) k h =
    subst (Shows b) (ok_injective h) (record {
      user = refl;
      generated_at = refl;
      some_node = omega arith;
      public = k (n ∷ ns) refl;
    })

-- Let every transport of a bundle's nodes be valid. When `PublicBundle` returns a bundle, that has a
-- node, and it is the user's without the private key, the Telegram id and the e-mail. Each of its nodes
-- is one of the bundle's that is no exit, unchanged but for its transports, of which there is one or
-- more. Each transport is an enabled VLESS or Hysteria2 one of that node, and equals it but that all of
-- its short ids are replaced by the user's own, or its password by the user's own; it has parameters of
-- no other kind, and so no shared key of Shadowsocks or AmneziaWG.
pub public_bundle-Shows :
    (b out : SubscriptionBundle) → IsValid b.nodes → public_bundle b ≡ ok out → Shows b out
unfolding public_bundle
public_bundle-Shows b out v h =
    public_with-Shows b out (collect (public_node b.user) b.nodes)
      (λ ns g.
        collect-All (IsPublic b.user b.nodes) (public_node b.user) b.nodes ns
          (public_node-IsPublic b.user b.nodes v) g)
      h
