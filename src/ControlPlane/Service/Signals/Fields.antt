-- ===== src/ControlPlane/Service/Signals/Fields.antt =====
-- What field signals can do to the registry.
use casper_vpn.Base.{
  String, Bool, true, false, some, ◌≡◌, refl, ap, subst, sym, ◌∙◌, ◌<◌, inl, inr, arith,
}
use casper_vpn.Map.{lookup, lookup-insert_cases}
use casper_vpn.Orchestrator.Policy.{NodeStatus}
use casper_vpn.ControlPlane.Contracts.{Node, same_node_status}
use casper_vpn.ControlPlane.Store.State.{State, Verdict}
use casper_vpn.ControlPlane.Store.Nodes.{set_status}
use casper_vpn.ControlPlane.Service.Moves.{Preorder}
use casper_vpn.ControlPlane.Service.Signals.{rank, is_field, target_of}

-- The statuses from which field signals move a node, and those to which they do.
abbrev pub is_open : NodeStatus → Bool
is_open NodeStatus.active = true
is_open NodeStatus.degraded = true
is_open _ = false

abbrev pub is_worse : NodeStatus → Bool
is_worse NodeStatus.degraded = true
is_worse NodeStatus.blocked = true
is_worse _ = false

-- The status is kept, or it goes from active or degraded to degraded or blocked.
pub data Worsens : NodeStatus → NodeStatus → Type 0 where
  kept : (st : NodeStatus) → Worsens st st
  moved : (st to : NodeStatus) → is_open st ≡ true → is_worse to ≡ true → Worsens st to

Worsens-trans : {a b c : NodeStatus} → Worsens a b → Worsens b c → Worsens a c
Worsens-trans (kept a) k = k
Worsens-trans (moved a b h w) (kept c) = moved a c h w
Worsens-trans (moved a b h w) (moved d c k x) = moved a c h x

-- What became of a node: nothing but its status changed, and that for the worse.
pub record Became (old new : Node) : Type 0 where
  pub same : new ≡ record old { status = new.status }
  pub status : Worsens old.status new.status

-- Each node of the store after was in the store before, and only field signals moved it.
unfoldable pub Worsened : String → State → State → Type 0
Worsened id s t =
    (new : Node)
    → lookup id t.nodes ≡ some new
    → (old : Node) × (lookup id s.nodes ≡ some old) × Became old new

pub same_nodes-Worsened : (id : String) (s t : State) → t.nodes ≡ s.nodes → Worsened id s t
unfolding Worsened
same_nodes-Worsened id s t e n h =
    (n, ap (lookup id) (sym e) ∙ h, record { same = refl; status = kept n.status })

restatus :
    (m l : Node) (st mid : NodeStatus)
    → m ≡ record l { status = mid }
    → record m { status = st } ≡ record l { status = st }
restatus m l st mid e = ap (λ x. set_to x) e
  where
    set_to : Node → Node
    set_to x = record x { status = st }

pub Worsened-trans :
    (id : String) (s t u : State) → Worsened id s t → Worsened id t u → Worsened id s u
unfolding Worsened
Worsened-trans id s t u h k n e =
    let (m, f, b) = k n e in
    let (l, g, a) = h m f in
    (
      l,
      g,
      record {
        same = b.same ∙ restatus m l n.status m.status a.same;
        status = Worsens-trans a.status b.status;
      },
    )

abbrev pub worsened : String → Preorder
worsened id = record {
  related = Worsened id;
  stays = λ s. same_nodes-Worsened id s s refl;
  chains = Worsened-trans id;
}

pub set_status-Worsened :
    (id k : String) (to : NodeStatus) (n : Node) (s : State)
    → lookup k s.nodes ≡ some n
    → Worsens n.status to
    → Worsened id s (set_status k to s).1
unfolding Worsened set_status
set_status-Worsened id k to n s e moves new h =
    elim (lookup-insert_cases k (record n { status = to }) s.nodes id new (rw e at h)) [
      | inl p ↦ (
        n,
        subst (λ j. lookup j s.nodes ≡ some n) p.0 e,
        subst (Became n) p.1 (record { same = refl; status = moves }),
      )
      | inr p ↦ (new, p.1, record { same = refl; status = kept new.status })
    ]

-- The moves of a verdict of positive rank are for the worse.
pub target-Worsens :
    (cur to : NodeStatus) (v : Verdict)
    → is_field cur ≡ true
    → 0 < rank v
    → target_of cur v ≡ some to
    → same_node_status to cur ≡ false
    → Worsens cur to
unfolding target_of
target-Worsens cur to Verdict.healthy f r h d = absurd (omega arith)
target-Worsens cur to Verdict.unset f r h d = absurd (omega arith)
target-Worsens NodeStatus.active to Verdict.blocked f r h d = moved _ _ refl (cc h)
target-Worsens NodeStatus.degraded to Verdict.blocked f r h d = moved _ _ refl (cc h)
target-Worsens NodeStatus.blocked to Verdict.blocked f r h d = cc
target-Worsens NodeStatus.active to Verdict.degraded f r h d = moved _ _ refl (cc h)
target-Worsens NodeStatus.degraded to Verdict.degraded f r h d = moved _ _ refl (cc h)
target-Worsens NodeStatus.blocked to Verdict.degraded f r h d = cc
target-Worsens _ to v f r h d = cc
