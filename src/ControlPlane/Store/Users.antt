-- ===== src/ControlPlane/Store/Users.antt =====
-- adapters/memory/memory.go and launch.go: `Users` and `Sets`.
use casper_vpn.Base.{
  String, ℕ, Bool, true, false, not, Option, none, some, List, [], ◌∷◌, ◌==◌, nat_eq, is_some,
  if◌then◌else◌, keep_if, map, any_of, concat,
}
use casper_vpn.Map.{lookup, insert, remove, entries, update_all}
use casper_vpn.ControlPlane.Contracts.{
  User, user_active, Subscription, conflict, not_found, Result, ok, err, or_not_found,
}
use casper_vpn.ControlPlane.Action.{Action}
use casper_vpn.ControlPlane.Store.State.{State, SubscriptionSet}

-- `a != nil && b != nil && *a == *b`
abbrev pub has_telegram : ℕ → User → Bool
has_telegram id u = elim u.telegram_id [ none ↦ false | some t ↦ nat_eq t id ]

abbrev taken : Option ℕ → List (String × User) → Bool
taken none users = false
taken (some id) users = any_of (λ e. has_telegram id e.1) users

unfoldable pub create_user : User → Action State (Unit {0})
unfolding entries
create_user u s =
    if is_some (lookup u.id s.users)
    then (err conflict, s)
    else if taken u.telegram_id (entries s.users)
    then (err conflict, s)
    else (ok tt, record s { users = insert u.id u s.users })

unfoldable pub get_user : String → Action State User
get_user id s = (or_not_found (lookup id s.users), s)

unfoldable pub update_user : User → Action State (Unit {0})
update_user u s =
    if not (is_some (lookup u.id s.users))
    then (err not_found, s)
    else (ok tt, record s { users = insert u.id u s.users })

abbrev pub mark_if : Bool → String → String → State → State
mark_if false id mark s = s
mark_if true id mark s = record s {
  hashes = insert id mark s.hashes;
  delivery = remove id s.delivery;
}

-- Every link of the user's subscriptions stops: its hash becomes a mark, and its alias goes.
unfoldable pub revoke_links : String → String → List (String × Subscription) → State → State
revoke_links mark user [] s = s
revoke_links mark user ((id, sub) ∷ rest) s =
    revoke_links mark user rest (mark_if (sub.user_id == user) id mark s)

-- `RotateSecrets`, from the point at which `secret.Token` gave the password.
abbrev rotate_of :
    Option User → String → String → String → String → String → State → Result User × State
rotate_of none id short uuid key hy2 s = (err not_found, s)
rotate_of (some u) id short uuid key hy2 s =
    let u' = record u {
      reality_short_id = short;
      uuid = uuid;
      private_key = key;
      hysteria2_password = hy2;
    } in
    let s' = revoke_links (concat "revoked:" hy2) id (entries s.subs) s in
    (ok u', record s' { users = insert id u' s'.users })

unfoldable pub rotate_secrets : String → String → String → String → String → Action State User
unfolding revoke_links entries
rotate_secrets id short uuid key hy2 s = rotate_of (lookup id s.users) id short uuid key hy2 s

unfoldable pub all_active_ids : Action State (List String)
unfolding entries
all_active_ids s =
    (ok (map (λ e. e.0) (keep_if (λ e. user_active e.1.status) (entries s.users))), s)

unfoldable pub find_telegram : ℕ → List (String × User) → Option User
find_telegram id [] = none
find_telegram id ((k, u) ∷ rest) =
    let later = find_telegram id rest in if has_telegram id u then some u else later

unfoldable pub get_by_telegram : ℕ → Action State User
unfolding find_telegram entries
get_by_telegram id s = (or_not_found (find_telegram id (entries s.users)), s)

-- `Sets`
unfoldable pub get_set : String → Action State SubscriptionSet
get_set user s = (or_not_found (lookup user s.sets), s)

unfoldable pub upsert : SubscriptionSet → Action State (Unit {0})
upsert set s = (ok tt, record s { sets = insert set.user_id set s.sets })

abbrev pub includes : String → SubscriptionSet → Bool
includes node set = any_of (λ id. id == node) set.node_ids

unfoldable pub user_ids_by_node : String → Action State (List String)
unfolding entries
user_ids_by_node node s =
    (ok (map (λ e. e.0) (keep_if (λ e. includes node e.1) (entries s.sets))), s)

unfoldable pub mark_dirty_by_node : String → Action State (Unit {0})
unfolding update_all
mark_dirty_by_node node s = (
  ok tt,
  record s {
    sets =
        update_all (λ user set. if includes node set then record set { dirty = true } else set)
          s.sets;
  },
)
