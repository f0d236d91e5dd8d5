-- ===== src/K8s/Services/Published.antt =====
-- What a pass publishes, by the laws of CreateOrUpdate.
use tunneld.Prelude.{
  ◌≡◌, ℤ, pos, leb_ℤ, eq_ℤ, String, true, ◌||◌, none, some, [], ◌∷◌, arith, if◌then◌else◌,
  Option-cases, Bool-cases, inl, inr, ◌==◌,
}
use tunneld.Errors.{Result, ok, Result-cases}
use tunneld.K8s.Types.{Tunnel}
use tunneld.K8s.Client.{ObjectsLaws, Apart, current}
use tunneld.K8s.Services.{
  Service, Endpoints, EndpointSubset, Cluster, is_exposed, service_port, service_name,
  filled_service, filled_endpoints, put_endpoints, put_service, reconcile_tunnel_service,
}

module _ {Store : Type 0} (c : Cluster Store) (services : ObjectsLaws c.services)
    (endpoints : ObjectsLaws c.endpoints) (apart : Apart c.endpoints c.services)
    (own_service_eq : (s s' : Service) → c.own_service s ≡ ok s' → s' ≡ s)
    (own_endpoints_eq : (e e' : Endpoints) → c.own_endpoints e ≡ ok e' → e' ≡ e) where
  abbrev pub subset : String → ℤ → EndpointSubset
  subset ip actual = record {
    addresses = ip ∷ [];
    ports = record { name = "tunnel"; port = actual; protocol = "TCP" } ∷ [];
  }

  -- The Service of a name has no selector, and leads to one address by the Endpoints of that name.
  abbrev pub Serves : Store → String → String → ℤ → ℤ → Type 0
  Serves st name ip port actual =
      (s : Service) × (e : Endpoints) × (c.services.get st name ≡ some s)
      × (c.endpoints.get st name ≡ some e)
      × (s.type ≡ "ClusterIP")
      × (s.selector ≡ none)
      × (s.ports
          ≡ record { name = "tunnel"; port = port; target_port = actual; protocol = "TCP" } ∷ [])
      × (e.subsets ≡ subset ip actual ∷ [])

  put_endpoints_lem :
      (t : Tunnel) (name ip : String) (actual : ℤ) (st st' : Store) (r : String)
      → put_endpoints c t name ip actual st ≡ (st', ok r)
      → (e : Endpoints) × (r ≡ name)
        × (c.endpoints.get st' name ≡ some e)
        × (c.services.get st' name ≡ c.services.get st name)
        × (e.subsets ≡ subset ip actual ∷ [])
  unfolding put_endpoints filled_endpoints
  put_endpoints_lem t name ip actual st st' r h =
      let f : Endpoints → Result Endpoints =
        λ ep. c.own_endpoints (filled_endpoints t ip actual ep) in
      elim (Option-cases (c.endpoints.create_or_update st name f).1) [
        | inr (x, e) ↦ absurd (ground (arith, e, h))
        | inl e ↦
            let (a, q, g) = endpoints.written st name f e in
            let same =
              own_endpoints_eq (filled_endpoints t ip actual (current c.endpoints st name)) a q in
            let st-eq : (c.endpoints.create_or_update st name f).0 ≡ st' = ground (arith, e, h) in
            (
              a,
              ground (arith, e, h),
              ground (arith, g, st-eq),
              ground (arith, st-eq, apart.update_apart st name name f),
              ground (arith, same),
            )
      ]

  put_service_lem :
      (t : Tunnel) (ip : String) (port actual : ℤ) (st st' : Store) (r : String)
      → put_service c t ip port actual st ≡ (st', ok r)
      → (r ≡ service_name t) × Serves st' (service_name t) ip port actual
  unfolding put_service filled_service
  put_service_lem t ip port actual st st' r h =
      let f : Service → Result Service = λ s. c.own_service (filled_service t port actual s) in
      elim (Option-cases (c.services.create_or_update st (service_name t) f).1) [
        | inr (x, e) ↦ absurd (ground (arith, e, h))
        | inl e ↦
            let (a, q, g) = services.written st (service_name t) f e in
            let same =
              own_service_eq (filled_service t port actual (current c.services st (service_name t)))
                a q in
            let st₁ = (c.services.create_or_update st (service_name t) f).0 in
            let (ep, n, got, kept, sub) =
              put_endpoints_lem t (service_name t) ip actual st₁ st' r (ground (arith, e, h)) in
            (
              n,
              (
                a,
                ep,
                ground (arith, g, kept),
                got,
                ground (arith, same),
                ground (arith, same),
                ground (arith, same),
                sub,
              ),
            )
      ]

  -- A call that succeeds for an exposed Tunnel had an address and a positive port, and leaves the
  -- objects of the name that it returns, with the port of servicePort or else the actual one.
  pub reconcile_tunnel_service-Serves :
      (t : Tunnel) (ip : String) (actual : ℤ) (st st' : Store) (name : String)
      → is_exposed t.spec.expose ≡ true
      → reconcile_tunnel_service c t ip actual st ≡ (st', ok name)
      → (name ≡ service_name t)
        × ((port : ℤ) × (service_port t ≡ ok port)
            × Serves st' (service_name t) ip (if eq_ℤ port (pos 0) then actual else port) actual)
  unfolding reconcile_tunnel_service
  reconcile_tunnel_service-Serves t ip actual st st' name x h =
      elim (Bool-cases (ip == "" || leb_ℤ actual (pos 0))) [
        | inl b ↦ absurd (ground (arith, x, b, h))
        | inr b ↦ elim (Result-cases (service_port t)) [
          | inr (y, e) ↦ absurd (ground (arith, x, b, e, h))
          | inl (port, e) ↦
              let chosen = if eq_ℤ port (pos 0) then actual else port in
              let (n, serves) =
                put_service_lem t ip chosen actual st st' name (ground (arith, x, b, e, h)) in
              (n, (port, e, serves))
        ]
      ]
