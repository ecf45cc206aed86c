-- ===== src/ControlPlane/Store/AllowList/Guards.antt =====
-- The guards of an activation, each in its own terms.
use casper_vpn.Base.{
  String, Time, Bool, true, false, not, Option, none, some, List, [], ◌∷◌, ◌≡◌, ◌≢◌, refl, ap, sym,
  subst, inl, inr, ◌⊎◌, ◌==◌, ◌&&◌, eq_iff, ltb, Memᴰ, All, Bool-cases, any_of, if◌then◌else◌,
}
use casper_vpn.Map.{lookup, entries, All-entries}
use casper_vpn.Orchestrator.Policy.{NodeStatus}
use casper_vpn.ControlPlane.Contracts.{
  NodeRole, Node, Transport, TransportType, same_node_status, is_exit, unset, points_to,
  distinct_enabled_transport_types, NodeAccessUsers, Result, ok, err, conflict,
}
use casper_vpn.ControlPlane.Store.State.{State}
use casper_vpn.ControlPlane.Store.AllowList.{
  Digests, reality_users_revision, eligible_reality_users, eligible_access_users, exit_is_active,
  is_hysteria2, requires_access, access_matches, exit_gate, entry_gate, gate,
}
use casper_vpn.ControlPlane.Store.AllowList.Diverse.{IsDiverse, differ, IsDiverse-enough}

-- The exit of an entry is stored and active.
pub HasExit : String → State → Type 0
HasExit id s =
    (k : String) × (x : Node) × (lookup k s.nodes ≡ some x)
    × (x.role ≡ NodeRole.exit)
    × (x.entry_node_id ≡ some id)
    × (x.status ≡ NodeStatus.active)

exit_path : (r : NodeRole) → is_exit r ≡ true → r ≡ NodeRole.exit
exit_path NodeRole.exit h = refl
exit_path _ h = cc

active_path :
    (st : NodeStatus) → same_node_status st NodeStatus.active ≡ true → st ≡ NodeStatus.active
active_path NodeStatus.active h = refl
active_path _ h = cc

points_path : (o : Option String) (id : String) → points_to o id ≡ true → o ≡ some id
points_path none id h = cc
points_path (some x) id h = ap some ((eq_iff x id).0 h)

both_true : (a b : Bool) → (a && b) ≡ true → (a ≡ true) × (b ≡ true)
both_true true b h = (refl, h)
both_true false b h = absurd (cc h)

exit_is_active-HasExit :
    (id : String) (s : State) (es : List (String × Node))
    → All (λ e. lookup e.0 s.nodes ≡ some e.1) es
    → exit_is_active id es ≡ true
    → HasExit id s
unfolding exit_is_active HasExit
exit_is_active-HasExit id s [] a h = absurd (cc h)
exit_is_active-HasExit id s ((k, n) ∷ rest) a h =
    elim (Bool-cases (is_exit n.role && points_to n.entry_node_id id)) [
      | inl e ↦
          let (role, points) = both_true _ _ e in
          (
            k,
            n,
            a.0,
            exit_path n.role role,
            points_path n.entry_node_id id points,
            active_path n.status (rw e at h),
          )
      | inr e ↦ exit_is_active-HasExit id s rest a.1 (rw e at h)
    ]

-- The caller has synchronised the list that is current: the access list, if it names its revision or the
-- node serves Hysteria2, and the REALITY list otherwise.
pub IsSynced : Digests → Time → Node → String → String → State → Type 0
IsSynced d now n revision access s =
    ((access ≢ "")
      × ((snap : NodeAccessUsers) × (eligible_access_users d now s ≡ ok snap)
          × (snap.revision ≡ access)))
    ⊎ ((access ≡ "")
        × ((t : Transport)
            → Memᴰ t n.transports
            → t.enabled ≡ true
            → t.type ≢ TransportType.hysteria2)
        × (reality_users_revision d (eligible_reality_users now s) ≡ revision))

access-IsSynced :
    (d : Digests) (now : Time) (n : Node) (revision access : String) (s : State)
    (r : Result NodeAccessUsers)
    → eligible_access_users d now s ≡ r
    → access_matches access r ≡ ok tt
    → IsSynced d now n revision access s
unfolding IsSynced
access-IsSynced d now n revision access s (err e) g h = absurd (cc h)
access-IsSynced d now n revision access s (ok snap) g h = elim (Bool-cases (access == "")) [
  | inl e ↦ absurd (cc (rw e at h))
  | inr e ↦ elim (Bool-cases (snap.revision == access)) [
    | inr f ↦ absurd (cc (rw (e, f) at h))
    | inl f ↦ inl (
      λ same. differ (access == "") e ((eq_iff access "").1 same),
      (snap, g, (eq_iff snap.revision access).0 f),
    )
  ]
]

no_hysteria2 :
    (ts : List Transport)
    → any_of (λ t. t.enabled && is_hysteria2 t.type) ts ≡ false
    → (t : Transport) → Memᴰ t ts
    → t.enabled ≡ true
    → t.type ≢ TransportType.hysteria2
no_hysteria2 [] h t m on same = elim m [ ]
no_hysteria2 (x ∷ xs) h t m on same = elim (Bool-cases (x.enabled && is_hysteria2 x.type)) [
  | inl e ↦ absurd (cc (rw e at h))
  | inr e ↦ at_place e (λ k. no_hysteria2 xs (rw e at h) t k on same) m
]
  where
    at_place : (x.enabled && is_hysteria2 x.type) ≡ false → (Memᴰ t xs → ⊥) → Memᴰ t (x ∷ xs) → ⊥
    at_place e later (Memᴰ.head p) =
        differ (t.enabled && is_hysteria2 t.type)
          (subst (λ y. (y.enabled && is_hysteria2 y.type) ≡ false) (sym p) e) (rw (on, same) refl)
    at_place e later (Memᴰ.tail k) = later k

-- What an activation needs of an exit: its entry, and the word that its data plane was verified.
pub ExitReady : Node → String → Type 0
ExitReady n evidence =
    (n.role ≡ NodeRole.exit)
    × ((entry : String) × (n.entry_node_id ≡ some entry) × (entry ≢ ""))
    × (evidence ≡ "exit_data_plane_verified")

-- What it needs of another node: two families of transports, an active exit, and a current list.
pub record EntryReady (d : Digests) (now : Time) (id : String) (n : Node) (revision access : String)
    (s : State) : Type 0 where
  pub role : n.role ≢ NodeRole.exit
  pub diverse : IsDiverse n.transports
  pub has_exit : HasExit id s
  pub synced : IsSynced d now n revision access s

named_entry :
    (o : Option String) → unset o ≡ false → (entry : String) × (o ≡ some entry) × (entry ≢ "")
named_entry none h = absurd (cc h)
named_entry (some x) h = (x, refl, λ same. differ (x == "") h ((eq_iff x "").1 same))

exit_gate-ExitReady :
    (n : Node) (evidence : String)
    → n.role ≡ NodeRole.exit
    → exit_gate n evidence ≡ ok tt
    → ExitReady n evidence
unfolding exit_gate ExitReady
exit_gate-ExitReady n evidence r h = elim (Bool-cases (unset n.entry_node_id)) [
  | inl e ↦ absurd (cc (rw e at h))
  | inr e ↦ elim (Bool-cases (evidence == "exit_data_plane_verified")) [
    | inr f ↦ absurd (cc (rw (e, f) at h))
    | inl f ↦ (r, named_entry n.entry_node_id e, (eq_iff evidence "exit_data_plane_verified").0 f)
  ]
]

entry_gate-EntryReady :
    (d : Digests) (now : Time) (id : String) (n : Node) (revision access : String) (s : State)
    → n.role ≢ NodeRole.exit
    → entry_gate d now id n revision access s ≡ ok tt
    → EntryReady d now id n revision access s
unfolding entry_gate requires_access IsSynced
entry_gate-EntryReady d now id n revision access s r h =
    elim (Bool-cases (ltb (distinct_enabled_transport_types n.transports) 2)) [
      | inl e ↦ absurd (cc (rw e at h))
      | inr e ↦ elim (Bool-cases (exit_is_active id (entries s.nodes))) [
        | inr f ↦ absurd (cc (rw (e, f) at h))
        | inl f ↦ record {
          role = r;
          diverse = IsDiverse-enough n.transports e;
          has_exit = exit_is_active-HasExit id s (entries s.nodes) (All-entries s.nodes) f;
          synced = list_synced (rw (e, f) at h);
        }
      ]
    ]
  where
    list_synced :
        (if requires_access access n
            then access_matches access (eligible_access_users d now s)
            else if not (reality_users_revision d (eligible_reality_users now s) == revision)
            then err conflict
            else ok tt)
          ≡ ok tt
        → IsSynced d now n revision access s
    list_synced g = elim (Bool-cases (access == "")) [
      | inr e ↦
          access-IsSynced d now n revision access s (eligible_access_users d now s) refl (rw e at g)
      | inl e ↦ elim (Bool-cases (any_of (λ t. t.enabled && is_hysteria2 t.type) n.transports)) [
        | inl f ↦
            access-IsSynced d now n revision access s (eligible_access_users d now s) refl
              (rw (e, f) at g)
        | inr f ↦
            elim (Bool-cases
              (reality_users_revision d (eligible_reality_users now s) == revision)) [
                | inr x ↦ absurd (cc (rw (e, f, x) at g))
                | inl x ↦
                    inr
                      ((eq_iff access "").0 e, no_hysteria2 n.transports f, (eq_iff _ revision).0 x)
              ]
      ]
    ]

-- The guards of an activation.
pub IsReady : Digests → Time → String → Node → String → String → String → State → Type 0
IsReady d now id n revision access evidence s =
    ExitReady n evidence ⊎ EntryReady d now id n revision access s

pub gate-IsReady :
    (d : Digests) (now : Time) (id : String) (n : Node) (revision access evidence : String)
    (s : State)
    → gate d now id n revision access evidence s ≡ ok tt
    → IsReady d now id n revision access evidence s
unfolding gate IsReady
gate-IsReady d now id n revision access evidence s h = elim (Bool-cases (is_exit n.role)) [
  | inl e ↦ inl (exit_gate-ExitReady n evidence (exit_path n.role e) (rw e at h))
  | inr e ↦ inr (
      entry_gate-EntryReady d now id n revision access s
        (λ same. differ (is_exit n.role) e (ap is_exit same)) (rw e at h))
]
