-- ===== src/ControlPlane/Store/AllowList/Entitled.antt =====
-- Whom the allow lists let in, said once; each of the two loops lets in just these.
use casper_vpn.Base.{
  Time, Bool, true, false, not, Option, none, some, List, [], ◌∷◌, ◌++◌, ◌≡◌, refl, ◌<◌, inl, inr,
  ◌==◌, ◌&&◌, if◌then◌else◌, arith, Bool-cases, Option-cases, some_path,
}
use casper_vpn.Map.{Map, lookup}
use casper_vpn.ControlPlane.Contracts.{
  User, user_active, Subscription, access_until, servable, RealityUser, AccessUser, conflict,
  Result, ok, err,
}
use casper_vpn.ControlPlane.Store.AllowList.{has_ended, reality_entry, admit, earlier}

-- Who is let in: a user who is active and has a subscription that is served and has not ended, with the
-- end of the access, if there is one.
unfoldable pub end_of : Option Subscription → Time → Option (Option Time)
unfolding access_until
end_of none now = none
end_of (some sub) now =
    if servable sub.status && not (has_ended (access_until sub) now)
    then some (access_until sub)
    else none

unfoldable pub entitled : Map Subscription → Time → User → Option (Option Time)
unfolding end_of
entitled subs now u =
    if user_active u.status
    then elim u.subscription_id [ none ↦ none | some id ↦ end_of (lookup id subs) now ]
    else none

-- What the two loops make of it.
abbrev pub entry_if : Option (Option Time) → User → List RealityUser → List RealityUser
entry_if none u others = others
entry_if (some end) u others = record { uuid = u.uuid; short_id = u.reality_short_id } ∷ others

abbrev pub admit_if :
    Option (Option Time) → User → Time → List AccessUser → Result (Time × List AccessUser)
admit_if none u until out = ok (until, out)
admit_if (some end) u until out =
    if u.hysteria2_password == ""
    then err conflict
    else ok (
      earlier end until,
      out
          ++ record {
            uuid = u.uuid;
            short_id = u.reality_short_id;
            hysteria2_password = u.hysteria2_password;
          }
            ∷ [],
    )

pub reality_entry-entitled :
    (subs : Map Subscription) (now : Time) (u : User) (others : List RealityUser)
    → reality_entry subs now u others ≡ entry_if (entitled subs now u) u others
unfolding reality_entry entitled end_of
reality_entry-entitled subs now u others = elim (Bool-cases (user_active u.status)) [
  | inr e ↦ rw e refl
  | inl e ↦ elim (Option-cases u.subscription_id) [
    | inl n ↦ rw (e, n) refl
    | inr (id, n) ↦ elim (Option-cases (lookup id subs)) [
      | inl k ↦ rw (e, n, k) refl
      | inr (sub, k) ↦ elim (Bool-cases (servable sub.status)) [
        | inr f ↦ rw (e, n, k, f) refl
        | inl f ↦ elim (Bool-cases (has_ended (access_until sub) now)) [
          | inl g ↦ rw (e, n, k, f, g) refl
          | inr g ↦ rw (e, n, k, f, g) refl
        ]
      ]
    ]
  ]
]

pub admit-entitled :
    (subs : Map Subscription) (now : Time) (u : User) (until : Time) (out : List AccessUser)
    → admit subs now u (ok (until, out)) ≡ admit_if (entitled subs now u) u until out
unfolding admit entitled end_of
admit-entitled subs now u until out = elim (Bool-cases (user_active u.status)) [
  | inr e ↦ rw e refl
  | inl e ↦ elim (Option-cases u.subscription_id) [
    | inl n ↦ rw (e, n) refl
    | inr (id, n) ↦ elim (Option-cases (lookup id subs)) [
      | inl k ↦ rw (e, n, k) refl
      | inr (sub, k) ↦ elim (Bool-cases (servable sub.status)) [
        | inr f ↦ rw (e, n, k, f) refl
        | inl f ↦ elim (Bool-cases (has_ended (access_until sub) now)) [
          | inl g ↦ rw (e, n, k, f, g) refl
          | inr g ↦ rw (e, n, k, f, g) refl
        ]
      ]
    ]
  ]
]

-- The access that a user has ends in the future.
end_of-future :
    (sub : Option Subscription) (now t : Time) → end_of sub now ≡ some (some t) → now < t
unfolding end_of
end_of-future none now t h = cc
end_of-future (some sub) now t h =
    elim (Bool-cases (servable sub.status && not (has_ended (access_until sub) now))) [
      | inr e ↦ absurd (cc (rw e at h))
      | inl e ↦ future (access_until sub) (servable sub.status) (some_path _ refl (rw e at h)) e
    ]
  where
    future :
        (end : Option Time) (b : Bool)
        → end ≡ some t
        → (b && not (has_ended end now)) ≡ true
        → now < t
    future none b p q = cc
    future (some x) true p q = ground (arith, p, q)
    future (some x) false p q = cc

pub entitled-future :
    (subs : Map Subscription) (now : Time) (u : User) (t : Time)
    → entitled subs now u ≡ some (some t)
    → now < t
unfolding entitled
entitled-future subs now u t h = elim (Bool-cases (user_active u.status)) [
  | inr e ↦ absurd (cc (rw e at h))
  | inl e ↦ elim (Option-cases u.subscription_id) [
    | inl n ↦ absurd (cc (rw (e, n) at h))
    | inr (id, n) ↦ end_of-future (lookup id subs) now t (rw (e, n) at h)
  ]
]
