-- ===== src/ControlPlane/Service/Nodes/Quiet.antt =====
-- The handlers of the registry that bring no node into service: all but the activation.
use casper_vpn.Base.{
  String, true, false, some, ◌≡◌, refl, subst, sym, ◌∙◌, inl, inr, Bool-cases, Option-cases,
  is_some,
}
use casper_vpn.Map.{lookup, insert, lookup-insert_cases}
use casper_vpn.Orchestrator.Policy.{NodeStatus}
use casper_vpn.ControlPlane.Contracts.{Node, same_node_status}
use casper_vpn.ControlPlane.Store.State.{State}
use casper_vpn.ControlPlane.Store.Nodes.{
  put_node, is_active, is_terminal, create_node, update_node, set_status, demote, set_entry_ip,
}

-- The node with this id serves.
unfoldable pub Serves : String → State → Type 0
Serves id s = (n : Node) × (lookup id s.nodes ≡ some n) × (is_active n ≡ true)

-- Each node stands under its own id.
unfoldable pub IsKeyed : State → Type 0
IsKeyed s = (k : String) (n : Node) → lookup k s.nodes ≡ some n → n.id ≡ k

-- The keys stay right, and a node that does not serve is not made to serve.
unfoldable pub Quiet : String → State → State → Type 0
unfolding Serves IsKeyed
Quiet id s t = IsKeyed s → IsKeyed t × (Serves id t → Serves id s)

pub Quiet-refl : (id : String) (s : State) → Quiet id s s
unfolding Quiet
Quiet-refl id s k = (k, λ x. x)

pub Quiet-trans : (id : String) (s t u : State) → Quiet id s t → Quiet id t u → Quiet id s u
unfolding Quiet
Quiet-trans id s t u h k keyed =
    let first = h keyed in let second = k first.0 in (second.0, λ x. first.1 (second.1 x))

pub put_node-IsKeyed :
    (k : String) (n : Node) (s : State) → IsKeyed s → n.id ≡ k → IsKeyed (put_node k n s)
unfolding IsKeyed
put_node-IsKeyed k n s keyed own j m e = elim (lookup-insert_cases k n s.nodes j m e) [
  | inl p ↦ subst (λ x. x.id ≡ j) p.1 (own ∙ p.0)
  | inr p ↦ keyed j m p.1
]

-- A node that is written under its id, and serves only if the stored one did.
pub put_node-Quiet :
    (id k : String) (n : Node) (s : State)
    → (IsKeyed s → n.id ≡ k)
    → (is_active n ≡ true → Serves k s)
    → Quiet id s (put_node k n s)
unfolding Quiet Serves IsKeyed
put_node-Quiet id k n s own served keyed = (put_node-IsKeyed k n s keyed (own keyed), serves)
  where
    serves :
        (m : Node) × (lookup id (insert k n s.nodes) ≡ some m) × (is_active m ≡ true)
        → (m : Node) × (lookup id s.nodes ≡ some m) × (is_active m ≡ true)
    serves (m, e, a) = elim (lookup-insert_cases k n s.nodes id m e) [
      | inl p ↦ subst (λ j. Serves j s) p.0 (served (subst (λ x. is_active x ≡ true) (sym p.1) a))
      | inr p ↦ (m, p.1, a)
    ]

-- An idle node is written.
pub put_idle-Quiet :
    (id k : String) (n : Node) (s : State)
    → (IsKeyed s → n.id ≡ k)
    → is_active n ≡ false
    → Quiet id s (put_node k n s)
put_idle-Quiet id k n s own idle = put_node-Quiet id k n s own (λ a. absurd (cc (a, idle)))

-- A stored node is written back with another address or an idle status.
pub create_node-Quiet :
    (id : String) (n : Node) (s : State) → is_active n ≡ false → Quiet id s (create_node n s).1
unfolding create_node
create_node-Quiet id n s idle = elim (Bool-cases (is_some (lookup n.id s.nodes))) [
  | inl e ↦ rw e (Quiet-refl id s)
  | inr e ↦ rw e (put_idle-Quiet id n.id n s (λ k. refl) idle)
]

pub update_node-Quiet :
    (id : String) (n : Node) (s : State)
    → (is_active n ≡ true → Serves n.id s)
    → Quiet id s (update_node n s).1
unfolding update_node
update_node-Quiet id n s served = elim (Bool-cases (is_some (lookup n.id s.nodes))) [
  | inl e ↦ rw e (put_node-Quiet id n.id n s (λ k. refl) served)
  | inr e ↦ rw e (Quiet-refl id s)
]

pub set_status-Quiet :
    (id k : String) (to : NodeStatus) (s : State)
    → same_node_status to NodeStatus.active ≡ false
    → Quiet id s (set_status k to s).1
unfolding set_status IsKeyed
set_status-Quiet id k to s idle = elim (Option-cases (lookup k s.nodes)) [
  | inl e ↦ rw e (Quiet-refl id s)
  | inr (n, e) ↦ rw e (put_idle-Quiet id k (record n { status = to }) s (λ keyed. keyed k n e) idle)
]

pub demote-Quiet : (id k : String) (s : State) → Quiet id s (demote k s).1
unfolding demote IsKeyed
demote-Quiet id k s = elim (Option-cases (lookup k s.nodes)) [
  | inl e ↦ rw e (Quiet-refl id s)
  | inr (n, e) ↦ elim (Bool-cases (is_terminal n.status)) [
    | inl t ↦ rw (e, t) (Quiet-refl id s)
    | inr t ↦
        rw (e, t)
          (put_idle-Quiet id k (record n { status = NodeStatus.provisioning }) s
            (λ keyed. keyed k n e) refl)
  ]
]

pub set_entry_ip-Quiet : (id k ip : String) (s : State) → Quiet id s (set_entry_ip k ip s).1
unfolding set_entry_ip IsKeyed Serves
set_entry_ip-Quiet id k ip s = elim (Option-cases (lookup k s.nodes)) [
  | inl e ↦ rw e (Quiet-refl id s)
  | inr (n, e) ↦
      rw e
        (put_node-Quiet id k (record n { entry_ip = ip }) s (λ keyed. keyed k n e) (λ a. (n, e, a)))
]
