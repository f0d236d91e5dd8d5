-- ===== src/K8s/Scheduling/Serving.antt =====
-- What a pass of the tunnel controller publishes, by the laws of CreateOrUpdate.
use tunneld.Prelude.{◌≡◌, ℤ, pos, eq_ℤ, if◌then◌else◌}
use tunneld.Errors.{ok}
use tunneld.K8s.Types.{Tunnel, Node, found}
use tunneld.K8s.Client.{ObjectsLaws, Apart}
use tunneld.K8s.Nodes.{node_internal_ip}
use tunneld.K8s.Services.{Service, Endpoints, Cluster, service_port, service_name}
use tunneld.K8s.Services.Published.{Serves}
use tunneld.K8s.Scheduling.{World}

module _ {Store : Type 0} (c : Cluster Store) (services : ObjectsLaws c.services)
    (endpoints : ObjectsLaws c.endpoints) (apart : Apart c.endpoints c.services)
    (own_service_eq : (s s' : Service) → c.own_service s ≡ ok s' → s' ≡ s)
    (own_endpoints_eq : (e e' : Endpoints) → c.own_endpoints e ≡ ok e' → e' ≡ e) where
  -- The store leads from the name of the Service to the node and the actual port.
  abbrev pub IsServed : World → Tunnel → ℤ → Store → Type 0
  IsServed w t actual st =
      (n : Node) × (port : ℤ) × (w.get_node t.status.node ≡ found n)
      × (service_port t ≡ ok port)
      × Serves c services endpoints apart own_service_eq own_endpoints_eq st (service_name t)
          (node_internal_ip n) (if eq_ℤ port (pos 0) then actual else port) actual
