-- ===== src/K8s/Services.antt =====
-- k8s/controllers/service.go, and pickActualPort of tunnel_controller.go.
pub mod Labels
pub mod Published
use tunneld.Prelude.{
  ℕ, String, ℤ, pos, negsuc, leb_ℤ, eq_ℤ, ltb, Bool, true, false, ◌||◌, Option, none, some, List,
  [], ◌∷◌, map, length, get_elem?, GoMap, insert, if◌then◌else◌, ◌==◌,
}
use tunneld.Errors.{Err, Result, ok, err, io, wrapped, index_out_of_range}
use tunneld.K8s.Types.{
  SshForward, SshSpec, KubectlForward, KubectlSpec, ExposeSpec, ResolvedForward, Tunnel,
}
use tunneld.K8s.Client.{Objects}

-- corev1.Service: the fields that the controller writes. A nil selector is none.
pub record ServicePort : Type 0 where
  pub name : String
  pub port : ℤ
  pub target_port : ℤ
  pub protocol : String

pub record Service : Type 0 where
  pub labels : GoMap String
  pub type : String
  pub selector : Option (GoMap String)
  pub ports : List ServicePort

-- corev1.Endpoints, with the addresses and ports of its one subset.
pub record EndpointPort : Type 0 where
  pub name : String
  pub port : ℤ
  pub protocol : String

pub record EndpointSubset : Type 0 where
  pub addresses : List String
  pub ports : List EndpointPort

pub record Endpoints : Type 0 where
  pub labels : GoMap String
  pub subsets : List EndpointSubset

-- mergeLabels: the loop over b, which writes into a.
unfoldable pub merge_labels : GoMap String → GoMap String → GoMap String
merge_labels a [] = a
merge_labels a ((k, v) ∷ b) = merge_labels (insert k v a) b

-- managedLabels
unfoldable pub managed_labels : String → GoMap String
managed_labels name =
    ("app.kubernetes.io/managed-by", "tunneld-controller") ∷ ("tunneld.io/tunnel", name) ∷ []

-- The index of the forward to publish.
unfoldable pub forward_index : Option ExposeSpec → ℤ
forward_index none = pos 0
forward_index (some e) = e.forward_index

-- `int(idx) < len(xs)` and xs[idx]: none past the end, a panic below 0.
unfoldable pub at_index {ℓ} : {A : Type ℓ} → List A → ℤ → Result (Option A)
at_index xs (pos i) = ok (get_elem? xs i)
at_index xs (negsuc i) = err index_out_of_range

-- pickActualPort
unfoldable pub pick_actual_port : Tunnel → Result ℤ
unfolding forward_index at_index
pick_actual_port t = elim (at_index t.status.resolved_forwards (forward_index t.spec.expose)) [
  | err e ↦ err e
  | ok none ↦ ok (pos 0)
  | ok (some f) ↦ ok f.actual_port
]

-- The second test of servicePort.
unfoldable pub kubectl_port : Option KubectlSpec → ℤ → Result ℤ
unfolding at_index
kubectl_port none i = ok (pos 0)
kubectl_port (some k) i = elim (at_index k.forwards i) [
  | err e ↦ err e
  | ok none ↦ ok (pos 0)
  | ok (some f) ↦ ok f.remote_port
]

-- servicePort
unfoldable pub service_port : Tunnel → Result ℤ
unfolding forward_index at_index kubectl_port
service_port t = elim t.spec.ssh [
  | none ↦ kubectl_port t.spec.kubectl (forward_index t.spec.expose)
  | some s ↦ elim (at_index s.local_forwards (forward_index t.spec.expose)) [
    | err e ↦ err e
    | ok none ↦ kubectl_port t.spec.kubectl (forward_index t.spec.expose)
    | ok (some f) ↦ ok f.target_port
  ]
]

-- t.Spec.Expose != nil && t.Spec.Expose.Service
unfoldable pub is_exposed : Option ExposeSpec → Bool
is_exposed none = false
is_exposed (some e) = e.service

-- The name of the Service.
unfoldable pub service_name : Tunnel → String
service_name t = elim t.spec.expose [
  | none ↦ t.name
  | some e ↦ if e.service_name == "" then t.name else e.service_name
]

-- The fields that the two functions given to CreateOrUpdate set.
unfoldable pub filled_service : Tunnel → ℤ → ℤ → Service → Service
unfolding merge_labels managed_labels
filled_service t port actual svc = record svc {
  labels = merge_labels svc.labels (managed_labels t.name);
  type = "ClusterIP";
  selector = none;
  ports = record { name = "tunnel"; port = port; target_port = actual; protocol = "TCP" } ∷ [];
}

unfoldable pub filled_endpoints : Tunnel → String → ℤ → Endpoints → Endpoints
unfolding merge_labels managed_labels
filled_endpoints t ip actual ep = record ep {
  labels = merge_labels ep.labels (managed_labels t.name);
  subsets =
      record {
        addresses = ip ∷ [];
        ports = record { name = "tunnel"; port = actual; protocol = "TCP" } ∷ [];
      }
      ∷ [];
}

-- What the cluster offers: its Services and Endpoints, and SetControllerReference, which fails
-- when another controller owns the object.
pub record Cluster (Store : Type 0) : Type 1 where
  pub services : Objects Store Service
  pub endpoints : Objects Store Endpoints
  pub own_service : Service → Result Service
  pub own_endpoints : Endpoints → Result Endpoints

module _ {Store : Type 0} (c : Cluster Store) where
  -- The second CreateOrUpdate of reconcileTunnelService.
  unfoldable pub put_endpoints : Tunnel → String → String → ℤ → Store → Store × Result String
  unfolding filled_endpoints
  put_endpoints t name ip actual st =
      let (st', e) =
        c.endpoints.create_or_update st name
          (λ ep. c.own_endpoints (filled_endpoints t ip actual ep)) in
      elim e [ some x ↦ (st', err (wrapped "reconcile endpoints" x)) | none ↦ (st', ok name) ]

  -- Both of them.
  unfoldable pub put_service : Tunnel → String → ℤ → ℤ → Store → Store × Result String
  unfolding filled_service put_endpoints service_name
  put_service t ip port actual st =
      let (st', e) =
        c.services.create_or_update st (service_name t)
          (λ s. c.own_service (filled_service t port actual s)) in
      elim e [
        | some x ↦ (st', err (wrapped "reconcile service" x))
        | none ↦ put_endpoints t (service_name t) ip actual st'
      ]

  -- reconcileTunnelService; the name is "" when the tunnel is not exposed.
  unfoldable pub reconcile_tunnel_service : Tunnel → String → ℤ → Store → Store × Result String
  unfolding is_exposed service_port put_service
  reconcile_tunnel_service t ip actual st =
      if is_exposed t.spec.expose
      then if ip == "" || leb_ℤ actual (pos 0)
        then (st, err (io "missing nodeIP or actualPort for service exposure"))
        else elim (service_port t) [
          | err e ↦ (st, err e)
          | ok port ↦ put_service t ip (if eq_ℤ port (pos 0) then actual else port) actual st
        ]
      else (st, ok "")

  -- deleteTunnelService
  unfoldable pub delete_tunnel_service : String → Store → Store × Option Err
  delete_tunnel_service name st =
      let (st', e) = c.services.delete st name in
      elim e [ some x ↦ (st', some x) | none ↦ c.endpoints.delete st' name ]
