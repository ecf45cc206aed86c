-- ===== src/ControlPlane/Service/Nodes/Activation.antt =====
-- The calls of the registry, and how a node comes into service.
use casper_vpn.Base.{
  String, Time, true, some, ◌≡◌, refl, subst, inl, inr, ◌⊎◌, Bool-cases, Option-cases,
}
use casper_vpn.Map.{lookup, lookup-insert_cases}
use casper_vpn.Orchestrator.Policy.{NodeStatus}
use casper_vpn.ControlPlane.Contracts.{Node, same_node_status, Result, ok, err}
use casper_vpn.ControlPlane.Action.{◌>>=◌, ◌>>◌, ignore, done, next}
use casper_vpn.ControlPlane.Store.State.{State, enqueue_node}
use casper_vpn.ControlPlane.Store.Nodes.{put_node}
use casper_vpn.ControlPlane.Store.AllowList.{Digests, gate, activate}
use casper_vpn.ControlPlane.Store.AllowList.Guards.{IsReady, gate-IsReady}
use casper_vpn.ControlPlane.Service.Environment.{Environment, World, at, change}
use casper_vpn.ControlPlane.Service.Moves.{Touches, and_then-Touches, ignore-Touches, done-Touches}
use casper_vpn.ControlPlane.Service.Nodes.{
  record_rotation, activate_node, register, update, rotate, retire, demote_node,
}
use casper_vpn.ControlPlane.Service.Nodes.Quiet.{
  Serves, IsKeyed, Quiet, Quiet-refl, put_node-IsKeyed,
}
use casper_vpn.ControlPlane.Service.Nodes.Handlers.{
  quiet, job-Touches, rotation-Touches, register-Touches, update-Touches, rotate-Touches,
  retire-Touches, demote_node-Touches,
}

-- The calls that change the registry: the operator's, the orchestrator's and telemetry's.
pub data Call : Type 0 where
  registers : Node → String → Call
  updates : String → Node → String → Call
  rotates : String → String → String → String → Call
  retires : String → String → Call
  demotes : String → String → Call
  activates : String → String → String → String → String → Call

module _ (env : Environment) where
  -- The world after a call, whether it succeeded or not.
  unfoldable pub apply : Call → World env → World env
  unfolding register update rotate retire demote_node activate_node
  apply (registers n actor) w = (register env n actor w).1
  apply (updates id n actor) w = (update env id n actor w).1
  apply (rotates id ip reason actor) w = (rotate env id ip reason actor w).1
  apply (retires id actor) w = (retire env id actor w).1
  apply (demotes id actor) w = (demote_node env id actor w).1
  apply (activates id revision access evidence actor) w =
      (activate_node env id revision access evidence actor w).1

  -- The activation of this node can pass: the node waits in provisioning, and in the stores that the call
  -- meets every guard holds. An exit has an entry, and the caller says that its data plane was verified;
  -- another node has enabled transports of two families and an active exit, and the caller names the
  -- current revision of the list that it has synchronised.
  pub record IsPromotion (id k revision access evidence : String) (w : World env) : Type 0 where
    pub same : k ≡ id
    pub node : Node
    pub stored : lookup k w.store.nodes ≡ some node
    pub waits : node.status ≡ NodeStatus.provisioning
    pub ready : IsReady env.digests (env.clock w.outside).0 k node revision access evidence w.store

  pub Promotes : String → World env → Call → Type 0
  Promotes id w (activates k revision access evidence actor) =
      IsPromotion id k revision access evidence w
  Promotes id w _ = ⊥

  after_activation-Touches :
      (id k actor : String) (r : Node × NodeStatus)
      → Touches (quiet id) (
          ignore (record_rotation env k (some r.1) r.0.status "activate" r.0.entry_ip actor)
          >> (change env (enqueue_node k) >> done r.0))
  after_activation-Touches id k actor r =
      and_then-Touches _ _ (ignore-Touches _ (rotation-Touches env id _ _ _ _ _ _))
        (and_then-Touches _ _ (job-Touches env id k) (done-Touches _))

-- The store's activation either leaves the state alone, or its guards held and the node is active.
waits_path :
    (st : NodeStatus)
    → same_node_status st NodeStatus.provisioning ≡ true
    → st ≡ NodeStatus.provisioning
waits_path NodeStatus.provisioning h = refl
waits_path _ h = cc

activate-cases :
    (d : Digests) (t : Time) (k revision access evidence : String) (s : State)
    → ((activate d t k revision access evidence s).1 ≡ s)
      ⊎ ((n : Node) × (lookup k s.nodes ≡ some n)
          × (n.status ≡ NodeStatus.provisioning)
          × (gate d t k n revision access evidence s ≡ ok tt)
          × ((activate d t k revision access evidence s).1
              ≡ put_node k (record n { status = NodeStatus.active }) s))
unfolding activate
activate-cases d t k revision access evidence s = elim (Option-cases (lookup k s.nodes)) [
  | inl e ↦ inl (rw e refl)
  | inr (n, e) ↦ elim (Bool-cases (same_node_status n.status NodeStatus.provisioning)) [
    | inr p ↦ inl (rw (e, p) refl)
    | inl p ↦ through n e p (gate d t k n revision access evidence s) refl
  ]
]
  where
    through :
        (n : Node)
        → lookup k s.nodes ≡ some n
        → same_node_status n.status NodeStatus.provisioning ≡ true
        → (g : Result (Unit {0})) → gate d t k n revision access evidence s ≡ g
        → ((activate d t k revision access evidence s).1 ≡ s)
          ⊎ ((n : Node) × (lookup k s.nodes ≡ some n)
              × (n.status ≡ NodeStatus.provisioning)
              × (gate d t k n revision access evidence s ≡ ok tt)
              × ((activate d t k revision access evidence s).1
                  ≡ put_node k (record n { status = NodeStatus.active }) s))
    through n e p (err x) g = inl (rw (e, p, g) refl)
    through n e p (ok tt) g = inr (n, e, waits_path n.status p, g, rw (e, p, g) refl)

module _ (env : Environment) (id : String) where
  -- What follows the store's activation is quiet.
  finish-Quiet :
      (k actor : String) (o : Result (Node × NodeStatus) × State) (w : World env)
      → Quiet id o.1
          (next
            (λ r.
              ignore (record_rotation env k (some r.1) r.0.status "activate" r.0.entry_ip actor)
              >> (change env (enqueue_node k) >> done r.0))
            (at env w o)).1.store
  finish-Quiet k actor (ok r, s) w =
      (after_activation-Touches env id k actor r).holds (record w { store = s })
  finish-Quiet k actor (err e, s) w = Quiet-refl id s

  promoted :
      (k : String) (n : Node) (s : State)
      → Serves id (put_node k (record n { status = NodeStatus.active }) s)
      → (k ≡ id) ⊎ Serves id s
  unfolding Serves
  promoted k n s (m, e, a) =
      elim (lookup-insert_cases k (record n { status = NodeStatus.active }) s.nodes id m e) [
        | inl p ↦ inl p.0
        | inr p ↦ inr (m, p.1, a)
      ]

  Outcome : World env → Call → State → Type 0
  Outcome w c s = IsKeyed s × (Serves id s → Serves id w.store ⊎ Promotes env id w c)

  quiet-Outcome :
      (w : World env) (c : Call) (s : State) → IsKeyed w.store → Quiet id w.store s → Outcome w c s
  unfolding Outcome Quiet
  quiet-Outcome w c s keyed q = ((q keyed).0, λ x. inl ((q keyed).1 x))

  activates-Outcome :
      (k revision access evidence actor : String) (w : World env)
      → IsKeyed w.store
      → Outcome w
          (activates k revision access evidence actor)
          (apply env (activates k revision access evidence actor) w).store
  unfolding Outcome Quiet apply activate_node ◌>>=◌ Promotes
  activates-Outcome k revision access evidence actor w keyed =
      let t = env.clock w.outside in
      let o = activate env.digests t.0 k revision access evidence w.store in
      let final = (apply env (activates k revision access evidence actor) w).store in
      let rest = finish-Quiet k actor o (record w { outside = t.1 }) in
      elim (activate-cases env.digests t.0 k revision access evidence w.store) [
        | inl same ↦
            let q = subst (λ s. Quiet id s final) same rest keyed in (q.0, λ s. inl (q.1 s))
        | inr (n, e, waits, passes, put) ↦
            let keyed' =
              put_node-IsKeyed k (record n { status = NodeStatus.active }) w.store keyed
                (keyed k n e) in
            let q = subst (λ s. Quiet id s final) put rest keyed' in
            (
              q.0,
              λ s. elim (promoted k n w.store (q.1 s)) [
                | inr before ↦ inl before
                | inl p ↦ inr (record {
                  same = p;
                  node = n;
                  stored = e;
                  waits = waits;
                  ready = gate-IsReady env.digests t.0 k n revision access evidence w.store passes;
                })
              ],
            )
      ]

  -- Each call of the registry keeps every node under its own id, and a node that serves after the
  -- call served before it or was promoted by it: the call is an activation of this node, which was
  -- provisioning, and all guards of the activation held. It is assumed that the nodes stand under
  -- their ids. The call may succeed or fail.
  pub only_by_activation :
      (c : Call) (w : World env)
      → IsKeyed w.store
      → IsKeyed (apply env c w).store
        × (Serves id (apply env c w).store → Serves id w.store ⊎ Promotes env id w c)
  unfolding apply Outcome
  only_by_activation (registers n actor) w k =
      quiet-Outcome w _ _ k ((register-Touches env id n actor).holds w)
  only_by_activation (updates j n actor) w k =
      quiet-Outcome w _ _ k ((update-Touches env id j n actor).holds w)
  only_by_activation (rotates j ip reason actor) w k =
      quiet-Outcome w _ _ k ((rotate-Touches env id j ip reason actor).holds w)
  only_by_activation (retires j actor) w k =
      quiet-Outcome w _ _ k ((retire-Touches env id j actor).holds w)
  only_by_activation (demotes j actor) w k =
      quiet-Outcome w _ _ k ((demote_node-Touches env id j actor).holds w)
  only_by_activation (activates j revision access evidence actor) w k =
      activates-Outcome j revision access evidence actor w k
