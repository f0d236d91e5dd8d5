-- ===== src/Examples/Assigning.antt =====
-- A pass over a Tunnel without a node, in a cluster of two nodes.
use tunneld.Prelude.{◌≡◌, refl, ◌⊎◌, true, not, ◌||◌, ◌==◌, String, none, [], ◌∷◌, Memᴰ}
use tunneld.Errors.{ok}
use tunneld.K8s.Types.{Tunnel, TunnelStatus, TunnelPhase, found, absent, requeue}
use tunneld.K8s.Nodes.{pick_node, node_still_valid}
use tunneld.K8s.Scheduling.{World, reconcile}
use tunneld.K8s.Scheduling.Assignments.{reconcile-nodes}
use tunneld.Examples.Cluster.{tunnel, before, matches, nodes}
use tunneld.Examples.Published.{cluster}

abbrev waiting : Tunnel
waiting = record tunnel { status = record tunnel.status { node = "" } }

abbrev seen : World
seen = record {
  now = 0;
  get_tunnel = found waiting;
  list_nodes = ok nodes;
  get_node = λ n. absent;
  patch = λ u. none;
}

abbrev assigned : TunnelStatus
assigned = record waiting.status { node = "node-1"; phase = TunnelPhase.pending }

assigned-written : (reconcile matches before cluster seen ([], [])).1 ≡ (assigned ∷ [], requeue)
unfolding reconcile pick_node
assigned-written = refl

reconcile-nodes_example :
    (assigned.node ≡ waiting.status.node)
    ⊎ ((ip : String) × (pick_node matches before (ok nodes) [] ≡ ok (assigned.node, ip))
        × (assigned.phase ≡ TunnelPhase.pending)
        × ((waiting.status.node == "" || not (node_still_valid absent [])) ≡ true))
reconcile-nodes_example =
    reconcile-nodes matches before cluster seen waiting ([], []) assigned refl
      (rw assigned-written (Memᴰ.head refl))
