-- ===== src/ControlPlane/Service/Nodes/Records.antt =====
-- What the handlers do besides a node's status: a line of its history, and a job for the queue. Both
-- leave the nodes alone.
use casper_vpn.Base.{String, Option, ◌≡◌, refl}
use casper_vpn.Orchestrator.Policy.{NodeStatus}
use casper_vpn.ControlPlane.Store.State.{State, enqueue_node}
use casper_vpn.ControlPlane.Store.Nodes.{add_node_rotation}
use casper_vpn.ControlPlane.Service.Environment.{Environment, change}
use casper_vpn.ControlPlane.Service.Moves.{
  Preorder, Touches, then-Touches, in_store-Touches, draw-Touches, now-Touches, change-Touches,
}
use casper_vpn.ControlPlane.Service.Nodes.{record_rotation}

module _ (env : Environment) (q : Preorder)
    (nodes_only : (s t : State) → t.nodes ≡ s.nodes → q.related s t) where
  pub enqueue-Touches : (k : String) → Touches q (change env (enqueue_node k))
  enqueue-Touches k = change-Touches (enqueue_node k) (λ s. nodes_only s (enqueue_node k s) refl)

  pub record_rotation-Touches :
      (k : String) (from : Option NodeStatus) (to : NodeStatus) (reason ip actor : String)
      → Touches q (record_rotation env k from to reason ip actor)
  unfolding record_rotation add_node_rotation
  record_rotation-Touches k from to reason ip actor =
      then-Touches _ _ (draw-Touches _) (λ rec_id.
        then-Touches _ _ now-Touches (λ t. in_store-Touches _ (λ s. nodes_only s _ refl)))
