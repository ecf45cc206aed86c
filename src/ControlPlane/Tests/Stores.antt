-- ===== src/ControlPlane/Tests/Stores.antt =====
-- The theorems about the stores, applied to a small control plane.
use casper_vpn.Base.{
  Time, some, [], ◌∷◌, ◌≡◌, refl, inl, inr, ◌+◌, ◌<◌, ◌≤◌, map, arith, decimal, Memᴰ,
}
use casper_vpn.Map.{lookup, insert, remove, entries}
use casper_vpn.Billing.Model.{canceled}
use casper_vpn.ControlPlane.Contracts.{User, Subscription, NodeAccessUsers}
use casper_vpn.ControlPlane.Store.Subscriptions.{resolve_token_hash, cancel_subscription}
use casper_vpn.ControlPlane.Store.Subscriptions.BillingStates.{
  Grants, apply_all, newest_wins, cancel_sticks,
}
use casper_vpn.ControlPlane.Store.Subscriptions.Links.{IsLinked, resolve-IsLinked}
use casper_vpn.ControlPlane.Store.AllowList.{eligible_access_users, lease}
use casper_vpn.ControlPlane.Store.AllowList.Entitled.{entitled}
use casper_vpn.ControlPlane.Store.AllowList.Lists.{reality_of, lists_agree, lease_in_time}
use casper_vpn.ControlPlane.Store.Subscriptions.{find_binding}
use casper_vpn.ControlPlane.Store.AllowList.{
  access_list, admit, reality_list, access_users_revision,
}
use casper_vpn.ControlPlane.Contracts.{access_until}
use casper_vpn.Base.{List, sort_by, ◌≢◌, ◌==◌, String, Bool, true, false, eq_iff}
use mathlib.Core.List.{Perm}
use mathlib.Core.List.Perm
use casper_vpn.ControlPlane.Tests.{
  plant, anna, boris, annas, with_anna, paid, billed, with_both, of_boris, now,
}

newest_wins_example :
    (new : Subscription) × (lookup "sub-1"
        (apply_all
          (λ st. decimal st.revision)
          "sub-1"
          ((20, paid 2) ∷ (21, paid 3) ∷ (22, paid 1) ∷ (23, paid 3) ∷ [])
          with_anna).subs
      ≡ some new)
    × Grants (paid 3) new
unfolding lookup insert remove
newest_wins_example =
    newest_wins (λ st. decimal st.revision) "sub-1" (paid 3) 21
      ((20, paid 2) ∷ (21, paid 3) ∷ (22, paid 1) ∷ (23, paid 3) ∷ []) with_anna annas refl
      (omega arith) (Memᴰ.tail (Memᴰ.head refl))
      (inl (omega arith), (inr refl, (inl (omega arith), (inr refl, tt))))

cancel_sticks_example :
    let left = (cancel_subscription 30 "sub-1" billed).1 in
    (apply_all (λ st. decimal st.revision) "sub-1" ((31, paid 3) ∷ (32, paid 2) ∷ []) left ≡ left)
    × (lookup "sub-1" left.subs
        ≡ some (record annas { billing_revision = 3; status = canceled; updated_at = 30 }))
unfolding lookup insert remove
cancel_sticks_example =
    cancel_sticks (λ st. decimal st.revision) "sub-1" 30 ((31, paid 3) ∷ (32, paid 2) ∷ []) billed
      (record annas { billing_revision = 3 }) refl (omega arith, (omega arith, tt))

absent : (b : Bool) → b ≡ false → b ≡ true → ⊥
absent b e f = cc

other_full : ◌≢◌ {A = String} "other" ""
other_full e = absent ("other" == "") refl ((eq_iff "other" "").1 e)

resolve-IsLinked_example : IsLinked "other" of_boris with_both
unfolding resolve_token_hash find_binding entries lookup insert remove
resolve-IsLinked_example = resolve-IsLinked "other" of_boris with_both other_full refl

abbrev admitted : NodeAccessUsers
admitted = record {
  revision = "list";
  valid_until = 900;
  users =
      record { uuid = "v"; short_id = "s"; hysteria2_password = "p" }
      ∷ record { uuid = "v"; short_id = "s"; hysteria2_password = "p" }
      ∷ [];
}

-- The REALITY list is read in the other order.
abbrev backwards : List (String × User)
backwards = ("anna", anna) ∷ ("boris", boris) ∷ []

lists_agree_example :
    Perm (reality_list with_both.subs now backwards) (map reality_of admitted.users)
unfolding access_list admit access_until access_users_revision sort_by entries lookup insert remove
lists_agree_example =
    lists_agree plant.digests now with_both admitted backwards (entries with_both.users)
      (Perm.swap _ _ []) (Perm.refl _) refl

lease_in_time_example :
    (900 ≤ now + lease)
    × (now < 900)
    × ((k : String) (u : User) (t : Time)
        → lookup k with_both.users ≡ some u
        → entitled with_both.subs now u ≡ some (some t)
        → 900 ≤ t)
unfolding eligible_access_users access_list admit access_until access_users_revision sort_by entries
    lookup insert remove
lease_in_time_example = lease_in_time plant.digests now with_both admitted refl
