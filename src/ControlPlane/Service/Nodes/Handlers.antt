-- ===== src/ControlPlane/Service/Nodes/Handlers.antt =====
-- Each handler of the registry but the activation respects `Quiet`.
use casper_vpn.Base.{
  String, Bool, true, false, not, Option, some, ◌≡◌, is_zero, refl, ap, subst, sym, ◌∙◌, inl, inr,
  ◌==◌, ◌&&◌, Option-cases,
}
use casper_vpn.Map.{lookup}
use casper_vpn.Orchestrator.Policy.{NodeStatus}
use casper_vpn.ControlPlane.Contracts.{Node, same_node_status}
use casper_vpn.ControlPlane.Action.{◌>>=◌}
use casper_vpn.ControlPlane.Store.State.{State, enqueue_node}
use casper_vpn.ControlPlane.Store.Nodes.{get_node}
use casper_vpn.ControlPlane.Service.Environment.{Environment, World, in_store, change}
use casper_vpn.ControlPlane.Service.Moves.{
  Preorder, Touches, then-Touches, and_then-Touches, in_store-Touches, draw-Touches, now-Touches,
  done-Touches, ignore-Touches, choice-Touches, guarded-Touches, guarded_at, and_then_at,
}
use casper_vpn.ControlPlane.Service.Nodes.Records.{enqueue-Touches, record_rotation-Touches}
use casper_vpn.ControlPlane.Service.Nodes.{
  record_rotation, register, record_change, update_stored, update, rotate, retire, demote_node,
  set_status_if_changed,
}
use casper_vpn.ControlPlane.Service.Nodes.Quiet.{
  Serves, IsKeyed, Quiet, Quiet-refl, Quiet-trans, create_node-Quiet, update_node-Quiet,
  set_status-Quiet, demote-Quiet, set_entry_ip-Quiet,
}

-- The handlers respect the relation.
abbrev pub quiet : String → Preorder
quiet id = record { related = Quiet id; stays = Quiet-refl id; chains = Quiet-trans id }

pub same_nodes-Quiet : (id : String) (s t : State) → t.nodes ≡ s.nodes → Quiet id s t
unfolding Quiet IsKeyed Serves
same_nodes-Quiet id s t e keyed =
    (λ k n h. keyed k n (ap (lookup k) (sym e) ∙ h), λ p. (p.0, ap (lookup id) (sym e) ∙ p.1, p.2))

was_active : (a b : Bool) → (a && not b) ≡ false → a ≡ true → b ≡ true
was_active true true h k = refl
was_active true false h k = cc
was_active false b h k = cc

module _ (env : Environment) (id : String) where
  pub job-Touches : (k : String) → Touches (quiet id) (change env (enqueue_node k))
  job-Touches = enqueue-Touches env (quiet id) (same_nodes-Quiet id)

  pub rotation-Touches :
      (k : String) (from : Option NodeStatus) (to : NodeStatus) (reason ip actor : String)
      → Touches (quiet id) (record_rotation env k from to reason ip actor)
  rotation-Touches = record_rotation-Touches env (quiet id) (same_nodes-Quiet id)

  pub register-Touches : (n : Node) (actor : String) → Touches (quiet id) (register env n actor)
  unfolding register
  register-Touches n actor =
      then-Touches _ _ (choice-Touches (n.id == "") _ _ (draw-Touches _) (done-Touches n.id)) (λ k.
        guarded-Touches _ _ _ (λ idle.
          then-Touches _ _
            (choice-Touches (is_zero n.created_at) _ _ now-Touches (done-Touches n.created_at))
            (λ t. guarded-Touches _ _ _ (λ valid.
              and_then-Touches _ _ (in_store-Touches _ (λ s. create_node-Quiet id _ s idle))
                (and_then-Touches _ _ (rotation-Touches _ _ _ _ _ _) (done-Touches _))))))

  record_change-Touches :
      (old n : Node) (k actor : String) → Touches (quiet id) (record_change env old n k actor)
  record_change-Touches old n k actor =
      choice-Touches (not (same_node_status old.status n.status)) _ _
        (rotation-Touches k (some old.status) n.status "update" n.entry_ip actor) (done-Touches tt)

  -- `Update`: only a node that serves may be written as one that serves.
  update_stored-Quiet :
      (old : Node) (k : String) (sent : Node) (actor : String) (w : World env)
      → lookup k w.store.nodes ≡ some old
      → IsKeyed w.store
      → Quiet id w.store (update_stored env old k sent actor w).1.store
  unfolding update_stored Serves IsKeyed
  update_stored-Quiet old k sent actor w stored keyed =
      let n : Node = record sent { id = old.id; created_at = old.created_at } in
      guarded_at (quiet id) _ _ _ w (λ guard. guarded_at (quiet id) _ _ _ w (λ valid.
        and_then_at _ _ w
          (update_node-Quiet id n w.store (λ a. (
            old,
            subst (λ j. lookup j w.store.nodes ≡ some old) (sym (keyed k old stored)) stored,
            was_active (same_node_status sent.status NodeStatus.active)
                (same_node_status old.status NodeStatus.active) guard a,
          )))
          (and_then-Touches _ _ (record_change-Touches old n k actor)
            (and_then-Touches _ _ (job-Touches k) (done-Touches _)))))

  pub update-Touches :
      (k : String) (sent : Node) (actor : String) → Touches (quiet id) (update env k sent actor)
  unfolding update get_node Quiet ◌>>=◌
  update-Touches k sent actor = record {
    holds = λ w. elim (Option-cases (lookup k w.store.nodes)) [
      | inl e ↦ rw e (Quiet-refl id w.store)
      | inr (old, e) ↦ rw e (λ keyed. update_stored-Quiet old k sent actor w e keyed keyed)
    ];
  }

  get_node-Touches : (k : String) → Touches (quiet id) (in_store env (get_node k))
  unfolding get_node
  get_node-Touches k = in_store-Touches _ (λ s. Quiet-refl id s)

  pub rotate-Touches :
      (k ip reason actor : String) → Touches (quiet id) (rotate env k ip reason actor)
  unfolding rotate
  rotate-Touches k ip reason actor = then-Touches _ _ (get_node-Touches k) (λ n.
      and_then-Touches _ _
        (choice-Touches (not (ip == "")) _ _
          (in_store-Touches _ (λ s. set_entry_ip-Quiet id k ip s)) (done-Touches tt))
        (and_then-Touches _ _ (rotation-Touches _ _ _ _ _ _)
          (and_then-Touches _ _ (job-Touches k) (done-Touches _))))

  pub retire-Touches : (k actor : String) → Touches (quiet id) (retire env k actor)
  unfolding retire
  retire-Touches k actor =
      then-Touches _ _ (in_store-Touches _ (λ s. set_status-Quiet id k NodeStatus.retired s refl))
        (λ prev. and_then-Touches _ _ (rotation-Touches _ _ _ _ _ _) (job-Touches k))

  pub demote_node-Touches : (k actor : String) → Touches (quiet id) (demote_node env k actor)
  unfolding demote_node
  demote_node-Touches k actor =
      then-Touches _ _ (in_store-Touches _ (λ s. demote-Quiet id k s)) (λ prev.
        and_then-Touches _ _ (ignore-Touches _ (rotation-Touches _ _ _ _ _ _))
          (and_then-Touches _ _ (job-Touches k) (get_node-Touches k)))

  -- A status that is not that of service.
  pub set_status_if_changed-Touches :
      (k : String) (to : NodeStatus) (reason actor : String)
      → same_node_status to NodeStatus.active ≡ false
      → Touches (quiet id) (set_status_if_changed env k to reason actor)
  unfolding set_status_if_changed
  set_status_if_changed-Touches k to reason actor idle =
      then-Touches _ _ (in_store-Touches _ (λ s. set_status-Quiet id k to s idle)) (λ prev.
        choice-Touches (same_node_status prev to) _ _ (done-Touches _) (
          and_then-Touches _ _ (rotation-Touches _ _ _ _ _ _)
            (and_then-Touches _ _ (job-Touches k) (done-Touches _))))
