-- ===== src/ControlPlane/Store/AllowList/Lists.antt =====
-- The two allow lists: they let in the same users, and the lease of the newer one ends in time.
use casper_vpn.Base.{
  String, Time, Option, none, some, List, [], ◌∷◌, ◌++◌, ◌≡◌, refl, ap, sym, ◌∙◌, subst, ◌+◌, ◌<◌,
  ◌≤◌, inl, inr, ◌==◌, map, arith, Bool-cases, Option-cases, Memᴰ, some_path,
}
use mathlib.Core.List.{Perm, filter_map}
use mathlib.Core.List.Perm
use casper_vpn.Map.{Map, lookup, entries, Memᴰ-entries}
use casper_vpn.ControlPlane.Contracts.{
  User, Subscription, RealityUser, AccessUser, NodeAccessUsers, Error, conflict, Result, ok, err,
}
use casper_vpn.ControlPlane.Store.State.{State}
use casper_vpn.ControlPlane.Store.AllowList.{
  admit, reality_list, earlier, access_list, lease, Digests, snapshot, eligible_access_users,
}
use casper_vpn.ControlPlane.Store.AllowList.Entitled.{
  entitled, entry_if, reality_entry-entitled, admit-entitled, entitled-future,
}

abbrev pub reality_of : AccessUser → RealityUser
reality_of u = record { uuid = u.uuid; short_id = u.short_id }

append_assoc : {A : Type 0} (xs ys zs : List A) → (xs ++ ys) ++ zs ≡ xs ++ (ys ++ zs)
append_assoc [] ys zs = refl
append_assoc (x ∷ xs) ys zs = ap (λ l. x ∷ l) (append_assoc xs ys zs)

append-nil : {A : Type 0} (xs : List A) → xs ++ [] ≡ xs
append-nil [] = refl
append-nil (x ∷ xs) = ap (λ l. x ∷ l) (append-nil xs)

map-append : {A B : Type 0} (f : A → B) (xs ys : List A) → map f (xs ++ ys) ≡ map f xs ++ map f ys
map-append f [] ys = refl
map-append f (x ∷ xs) ys = ap (λ l. f x ∷ l) (map-append f xs ys)

-- What the loop over the accounts has when it ends.
record IsComplete (subs : Map Subscription) (now : Time) (es : List (String × User)) (start : Time)
    (out : List AccessUser) (until : Time) (users : List AccessUser) : Type 0 where
  pub listed : map reality_of users ≡ map reality_of out ++ reality_list subs now es
  pub below : until ≤ start
  pub future : now < start → now < until
  pub in_time :
      (k : String) (u : User) (t : Time)
      → Memᴰ (k, u) es
      → entitled subs now u ≡ some (some t)
      → until ≤ t

earlier-le : (end : Option Time) (start : Time) → earlier end start ≤ start
earlier-le none start = omega arith
earlier-le (some t) start = ground arith

earlier-bound : (t start : Time) → earlier (some t) start ≤ t
earlier-bound t start = ground arith

earlier-future :
    (now start : Time) (end : Option Time)
    → ((t : Time) → end ≡ some t → now < t)
    → now < start
    → now < earlier end start
earlier-future now start none h k = k
earlier-future now start (some t) h k = ground (arith, h t refl)

access_list-err :
    (subs : Map Subscription) (now : Time) (es : List (String × User)) (e : Error)
    → access_list subs now es (err e) ≡ err e
unfolding access_list admit
access_list-err subs now [] e = refl
access_list-err subs now ((k, u) ∷ rest) e = access_list-err subs now rest e

access_list-IsComplete :
    (subs : Map Subscription) (now : Time) (es : List (String × User)) (start : Time)
    (out : List AccessUser) (until : Time) (users : List AccessUser)
    → access_list subs now es (ok (start, out)) ≡ ok (until, users)
    → IsComplete subs now es start out until users
unfolding access_list reality_list
access_list-IsComplete subs now [] start out until users h =
    let at_end : start ≡ until = cc h in
    let all : out ≡ users = cc h in
    record {
      listed = ap (map reality_of) (sym all) ∙ sym (append-nil (map reality_of out));
      below = omega (arith, at_end);
      future = λ k. omega (arith, at_end);
      in_time = λ k u t m. elim m [ ];
    }
access_list-IsComplete subs now ((k, u) ∷ rest) start out until users h =
    elim (Option-cases (entitled subs now u)) [
      | inl e ↦
          let r =
            access_list-IsComplete subs now rest start out until users
              (rw (admit-entitled subs now u start out, e) at h) in
          record {
            listed =
                rw (reality_entry-entitled subs now u (reality_list subs now rest), e) r.listed;
            below = r.below;
            future = r.future;
            in_time = λ j v t m g. skip e r.in_time j v t m g;
          }
      | inr (end, e) ↦ elim (Bool-cases (u.hysteria2_password == "")) [
        | inl blank ↦ absurd (
            cc (
              rw (admit-entitled subs now u start out, e, blank) at h,
              access_list-err subs now rest conflict,
            ))
        | inr full ↦
            let r =
              access_list-IsComplete subs now rest (earlier end start) _ until users
                (rw (admit-entitled subs now u start out, e, full) at h) in
            record {
              listed =
                  rw (reality_entry-entitled subs now u (reality_list subs now rest), e)
                    (r.listed
                      ∙ ap (λ l. l ++ reality_list subs now rest) (map-append reality_of out _)
                      ∙ append_assoc (map reality_of out) _ (reality_list subs now rest));
              below = omega (arith, r.below, earlier-le end start);
              future = λ f. r.future (
                  earlier-future now start end (λ t p. entitled-future subs now u t (e ∙ ap some p))
                    f);
              in_time = λ j v t m g. meet e r.below r.in_time j v t m g;
            }
      ]
    ]
  where
    skip :
        {until : Time}
        → entitled subs now u ≡ none
        → ((j : String) (v : User) (t : Time)
            → Memᴰ (j, v) rest
            → entitled subs now v ≡ some (some t)
            → until ≤ t)
        → (j : String) (v : User) (t : Time) → Memᴰ (j, v) ((k, u) ∷ rest)
        → entitled subs now v ≡ some (some t)
        → until ≤ t
    skip e f j v t (Memᴰ.head p) g =
        absurd (cc (sym e ∙ ap (λ x. entitled subs now x) (sym (ap (λ x. x.1) p)) ∙ g))
    skip e f j v t (Memᴰ.tail n) g = f j v t n g

    meet :
        {until : Time} {end : Option Time}
        → entitled subs now u ≡ some end
        → until ≤ earlier end start
        → ((j : String) (v : User) (t : Time)
            → Memᴰ (j, v) rest
            → entitled subs now v ≡ some (some t)
            → until ≤ t)
        → (j : String) (v : User) (t : Time) → Memᴰ (j, v) ((k, u) ∷ rest)
        → entitled subs now v ≡ some (some t)
        → until ≤ t
    meet {until} {end} e b f j v t (Memᴰ.head p) g =
        let same : end ≡ some t =
          some_path _ refl (sym e ∙ ap (λ x. entitled subs now x) (sym (ap (λ x. x.1) p)) ∙ g) in
        omega (arith, subst (λ x. until ≤ earlier x start) same b, earlier-bound t start)
    meet e b f j v t (Memᴰ.tail n) g = f j v t n g

snapshot-IsComplete :
    (d : Digests) (subs : Map Subscription) (now : Time) (es : List (String × User))
    (snap : NodeAccessUsers)
    → snapshot d (access_list subs now es (ok (now + lease, []))) ≡ ok snap
    → IsComplete subs now es (now + lease) [] snap.valid_until snap.users
unfolding snapshot
snapshot-IsComplete d subs now es snap h =
    ended (access_list subs now es (ok (now + lease, []))) refl h
  where
    the_snapshot : {x : NodeAccessUsers} → ok x ≡ ok snap → x ≡ snap
    the_snapshot k = cc

    ended :
        (r : Result (Time × List AccessUser))
        → access_list subs now es (ok (now + lease, [])) ≡ r
        → snapshot d r ≡ ok snap
        → IsComplete subs now es (now + lease) [] snap.valid_until snap.users
    ended (err e) g k = cc
    ended (ok (until, users)) g k =
        subst (λ x. IsComplete subs now es (now + lease) [] x.valid_until x.users) (the_snapshot k)
          (access_list-IsComplete subs now es (now + lease) [] until users g)

module _ (d : Digests) (now : Time) (s : State) (snap : NodeAccessUsers)
    (h : eligible_access_users d now s ≡ ok snap) where
  -- The lease of an access list lasts at most five minutes, ends after the time of the reading, and
  -- ends no later than the access of any user that the list lets in.
  pub lease_in_time :
      (snap.valid_until ≤ now + lease)
      × (now < snap.valid_until)
      × ((k : String) (u : User) (t : Time)
          → lookup k s.users ≡ some u
          → entitled s.subs now u ≡ some (some t)
          → snap.valid_until ≤ t)
  unfolding eligible_access_users
  lease_in_time =
      let c = snapshot-IsComplete d s.subs now (entries s.users) snap h in
      (
        c.below,
        c.future (omega arith),
        λ k u t stored end. c.in_time k u t (Memᴰ-entries k u s.users stored) end,
      )

-- The user on the REALITY list, if it lets the user in.
abbrev shown_if : Option (Option Time) → User → Option RealityUser
shown_if none u = none
shown_if (some end) u = some (record { uuid = u.uuid; short_id = u.reality_short_id })

reality_list-filter_map :
    (subs : Map Subscription) (now : Time) (es : List (String × User))
    → reality_list subs now es ≡ filter_map (λ e. shown_if (entitled subs now e.1) e.1) es
unfolding reality_list filter_map
reality_list-filter_map subs now [] = refl
reality_list-filter_map subs now ((k, u) ∷ rest) = elim (Option-cases (entitled subs now u)) [
  | inl e ↦
      rw (reality_entry-entitled subs now u (reality_list subs now rest), e)
        (reality_list-filter_map subs now rest)
  | inr (end, e) ↦
      rw (reality_entry-entitled subs now u (reality_list subs now rest), e)
        (ap (λ l. entry_if (some end) u l) (reality_list-filter_map subs now rest))
]

-- When both lists are read at the same time, each going through the accounts in an order of its own,
-- they let in the same users: the REALITY list is the access list without the passwords, but for the
-- order. It is assumed that the access list could be computed, which fails only for an entitled user
-- without a password.
pub lists_agree :
    (d : Digests) (now : Time) (s : State) (snap : NodeAccessUsers) (es fs : List (String × User))
    → Perm es (entries s.users)
    → Perm fs (entries s.users)
    → snapshot d (access_list s.subs now fs (ok (now + lease, []))) ≡ ok snap
    → Perm (reality_list s.subs now es) (map reality_of snap.users)
lists_agree d now s snap es fs p q h =
    let agree = (snapshot-IsComplete d s.subs now fs snap h).listed in
    subst (λ l. Perm (reality_list s.subs now es) l) (sym agree)
      (subst (λ l. Perm l (reality_list s.subs now fs))
        (sym (reality_list-filter_map s.subs now es))
        (subst (λ l. Perm (filter_map (λ e. shown_if (entitled s.subs now e.1) e.1) es) l)
          (sym (reality_list-filter_map s.subs now fs))
          (Perm.filter_map _ (Perm.trans p (Perm.symm q)))))
