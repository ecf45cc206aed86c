-- ===== src/ControlPlane/Store/AllowList.antt =====
-- adapters/memory/memory.go and launch.go: `AllowList` and `NodeActivator`, with the revisions of
-- packages/contracts (reality_users.go, launch.go). The digests of the sorted lists, a SHA-256, and
-- Go's order on texts are parameters. `now` is what the clock returns in the call.
pub mod Entitled
pub mod Lists
pub mod Diverse
pub mod Guards
use casper_vpn.Base.{
  String, ℕ, Time, Bool, true, false, not, Option, none, some, List, [], ◌∷◌, ◌++◌, ◌+◌, ◌*◌, ◌&&◌,
  ◌||◌, ◌==◌, ltb, after, before, if◌then◌else◌, map, any_of, sort_by,
}
use casper_vpn.Map.{Map, lookup, insert, entries}
use casper_vpn.Orchestrator.Policy.{NodeStatus}
use casper_vpn.ControlPlane.Contracts.{
  Node, Transport, TransportType, User, user_active, Subscription, access_until, servable,
  same_node_status, is_exit, unset, points_to, exit_data_plane_verified,
  distinct_enabled_transport_types, RealityUser, AccessUser, NodeAccessUsers, Error, conflict,
  not_found, Result, ok, err,
}
use casper_vpn.ControlPlane.Action.{Action}
use casper_vpn.ControlPlane.Store.State.{State}
use casper_vpn.ControlPlane.Store.Nodes.{put_node}

-- `end != nil && !end.After(now)`
abbrev pub has_ended : Option Time → Time → Bool
has_ended none now = false
has_ended (some t) now = not (after t now)

-- A turn of `EligibleRealityUsers`, with what the later ones list.
abbrev pub reality_with : Option Subscription → Time → User → List RealityUser → List RealityUser
unfolding access_until
reality_with none now u others = others
reality_with (some sub) now u others =
    if not (servable sub.status)
    then others
    else if has_ended (access_until sub) now
    then others
    else record { uuid = u.uuid; short_id = u.reality_short_id } ∷ others

abbrev pub reality_linked :
    Option String → Map Subscription → Time → User → List RealityUser → List RealityUser
unfolding access_until
reality_linked none subs now u others = others
reality_linked (some id) subs now u others = reality_with (lookup id subs) now u others

unfoldable pub reality_entry : Map Subscription → Time → User → List RealityUser → List RealityUser
unfolding access_until
reality_entry subs now u others =
    if not (user_active u.status)
    then others
    else reality_linked u.subscription_id subs now u others

unfoldable pub reality_list : Map Subscription → Time → List (String × User) → List RealityUser
unfolding reality_entry
reality_list subs now [] = []
reality_list subs now ((k, u) ∷ rest) = reality_entry subs now u (reality_list subs now rest)

unfoldable pub eligible_reality_users : Time → State → List RealityUser
unfolding reality_list entries
eligible_reality_users now s = reality_list s.subs now (entries s.users)

-- `end != nil && end.Before(out.ValidUntil)`
abbrev pub earlier : Option Time → Time → Time
earlier none until = until
earlier (some t) until = if before t until then t else until

-- A turn of `EligibleAccessUsers`, with the lease and the list so far.
abbrev pub admit_with :
    Option Subscription → Time → User → Time → List AccessUser → Result (Time × List AccessUser)
unfolding access_until
admit_with none now u until out = ok (until, out)
admit_with (some sub) now u until out =
    if not (servable sub.status)
    then ok (until, out)
    else if has_ended (access_until sub) now
    then ok (until, out)
    else if u.hysteria2_password == ""
    then err conflict
    else ok (
      earlier (access_until sub) until,
      out
          ++ record {
            uuid = u.uuid;
            short_id = u.reality_short_id;
            hysteria2_password = u.hysteria2_password;
          }
            ∷ [],
    )

abbrev pub admit_linked :
    Option String
    → Map Subscription
    → Time
    → User
    → Time
    → List AccessUser
    → Result (Time × List AccessUser)
unfolding access_until
admit_linked none subs now u until out = ok (until, out)
admit_linked (some id) subs now u until out = admit_with (lookup id subs) now u until out

-- An error ends the loop.
unfoldable pub admit :
    Map Subscription
    → Time
    → User
    → Result (Time × List AccessUser)
    → Result (Time × List AccessUser)
unfolding access_until
admit subs now u (err e) = err e
admit subs now u (ok (until, out)) =
    if not (user_active u.status)
    then ok (until, out)
    else admit_linked u.subscription_id subs now u until out

unfoldable pub access_list :
    Map Subscription
    → Time
    → List (String × User)
    → Result (Time × List AccessUser)
    → Result (Time × List AccessUser)
unfolding admit
access_list subs now [] r = r
access_list subs now ((k, u) ∷ rest) r = access_list subs now rest (admit subs now u r)

-- `5 * time.Minute`
abbrev pub lease : Time
lease = 300000000000

-- What the revisions are computed with.
pub record Digests : Type 0 where
  -- Go's `<` on texts.
  pub less : String → String → Bool
  pub reality_digest : List RealityUser → String
  pub access_digest : List AccessUser → String

-- `RealityUsersRevision`
abbrev reality_before : (String → String → Bool) → RealityUser → RealityUser → Bool
reality_before less a b =
    if not (a.uuid == b.uuid) then less a.uuid b.uuid else less a.short_id b.short_id

unfoldable pub reality_users_revision : Digests → List RealityUser → String
unfolding sort_by
reality_users_revision d users = d.reality_digest (sort_by (reality_before d.less) users)

-- `AccessUsersRevision`
abbrev access_before : (String → String → Bool) → AccessUser → AccessUser → Bool
access_before less a b =
    if not (a.uuid == b.uuid)
    then less a.uuid b.uuid
    else if not (a.short_id == b.short_id)
    then less a.short_id b.short_id
    else less a.hysteria2_password b.hysteria2_password

unfoldable pub access_users_revision : Digests → List AccessUser → String
unfolding sort_by
access_users_revision d users = d.access_digest (sort_by (access_before d.less) users)

abbrev pub snapshot : Digests → Result (Time × List AccessUser) → Result NodeAccessUsers
unfolding access_users_revision
snapshot d (err e) = err e
snapshot d (ok (until, users)) =
    ok (record { revision = access_users_revision d users; valid_until = until; users = users })

unfoldable pub eligible_access_users : Digests → Time → State → Result NodeAccessUsers
unfolding access_list access_users_revision entries
eligible_access_users d now s =
    snapshot d (access_list s.subs now (entries s.users) (ok (now + lease, [])))

-- The first exit of the entry that a `range` over the nodes meets, and whether it is active.
unfoldable pub exit_is_active : String → List (String × Node) → Bool
exit_is_active id [] = false
exit_is_active id ((k, n) ∷ rest) =
    let later = exit_is_active id rest in
    if is_exit n.role && points_to n.entry_node_id id
    then same_node_status n.status NodeStatus.active
    else later

abbrev pub is_hysteria2 : TransportType → Bool
is_hysteria2 TransportType.hysteria2 = true
is_hysteria2 _ = false

unfoldable pub requires_access : String → Node → Bool
requires_access access n =
    not (access == "") || any_of (λ t. t.enabled && is_hysteria2 t.type) n.transports

abbrev pub access_matches : String → Result NodeAccessUsers → Result (Unit {0})
access_matches access (err e) = err e
access_matches access (ok snap) =
    if access == "" || not (snap.revision == access) then err conflict else ok tt

-- The guards of `activate` behind the status: an exit's, and those of the other roles.
unfoldable pub exit_gate : Node → String → Result (Unit {0})
exit_gate n evidence =
    if unset n.entry_node_id
    then err conflict
    else if not (evidence == exit_data_plane_verified)
    then err conflict
    else ok tt

unfoldable pub entry_gate :
    Digests → Time → String → Node → String → String → State → Result (Unit {0})
unfolding distinct_enabled_transport_types exit_is_active entries requires_access
    eligible_access_users eligible_reality_users reality_users_revision
entry_gate d now id n revision access s =
    if ltb (distinct_enabled_transport_types n.transports) 2
    then err conflict
    else if not (exit_is_active id (entries s.nodes))
    then err conflict
    else if requires_access access n
    then access_matches access (eligible_access_users d now s)
    else if not (reality_users_revision d (eligible_reality_users now s) == revision)
    then err conflict
    else ok tt

abbrev pub gate :
    Digests → Time → String → Node → String → String → String → State → Result (Unit {0})
unfolding exit_gate entry_gate
gate d now id n revision access evidence s =
    if is_exit n.role then exit_gate n evidence else entry_gate d now id n revision access s

abbrev flip : Result (Unit {0}) → String → Node → State → Result (Node × NodeStatus) × State
flip (err e) id n s = (err e, s)
flip (ok u) id n s =
    let n' = record n { status = NodeStatus.active } in (ok (n', n.status), put_node id n' s)

abbrev activate_of :
    Digests
    → Time
    → Option Node
    → String
    → String
    → String
    → String
    → State
    → Result (Node × NodeStatus) × State
unfolding exit_gate entry_gate
activate_of d now none id revision access evidence s = (err not_found, s)
activate_of d now (some n) id revision access evidence s =
    if not (same_node_status n.status NodeStatus.provisioning)
    then (err conflict, s)
    else flip (gate d now id n revision access evidence s) id n s

-- `activate`: the expected revision of `Activate`, or that of `ActivateAccess`, is "".
unfoldable pub activate :
    Digests → Time → String → String → String → String → Action State (Node × NodeStatus)
unfolding exit_gate entry_gate
activate d now id revision access evidence s =
    activate_of d now (lookup id s.nodes) id revision access evidence s
