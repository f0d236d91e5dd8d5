-- ===== src/Api/Tunnels/Promises.antt =====
-- What Create and Update of grpc_server.go promise of the registry of the supervisor.
use tunneld.Prelude.{
  ◌≡◌, refl, ℕ, ◌<◌, String, Bool, true, none, some, List, [], ◌∷◌, arith, GoMap, lookup, eq_iff,
  ◌==◌, ◌⊎◌, inl, inr, Bool-cases, Option-cases, length, if◌then◌else◌,
}
use tunneld.Errors.{Err, ok, Result-cases}
use tunneld.Proto.{TunnelSpec}
use tunneld.Dependency.{Graphs}
use tunneld.Tunnel
use tunneld.Tunnel.{Spec}
use tunneld.Daemon.Supervisor.{
  Supervisor, KeyWrite, info_of, infos_from, list_tunnels, deref, find, save_key,
}
use tunneld.Daemon.Supervisor.Invariant.{IsValid}
use tunneld.Daemon.Supervisor.Operations.{add_tunnel, remove_tunnel, start_tunnel}
use tunneld.Daemon.Supervisor.Operations.Removing.{remove_tunnel-IsValid}
use tunneld.Daemon.Supervisor.Quiet.{Quiet, Quiet-trans, Quiet-IsValid, get_elem?-total}
use tunneld.Daemon.Supervisor.Quiet.Calls.{save_key-Quiet, start_tunnel-Quiet}
use tunneld.Daemon.Supervisor.Steps.Registry.{
  registry, Quiet-registry, remove_tunnel-registry, add_tunnel-registry,
}
use tunneld.Api.{Code, Reply, response, failure}
use tunneld.Api.Tunnels.{PutRequest, Env, save_keys, receive_spec, unchanged, update}

pub Reply-cases :
    {A : Type 0} (r : Reply A)
    → ((a : A) × (r ≡ response a)) ⊎ ((c : Code) × (e : Err) × (r ≡ failure c e))
Reply-cases (response a) = inl (a, refl)
Reply-cases (failure c e) = inr (c, e, refl)

module _ {Graph : Type 0} where
  save_keys-Quiet :
      (writes : String → KeyWrite) (keys : GoMap (List ℕ)) (s : Supervisor Graph)
      → Quiet s (save_keys writes keys s).0
  unfolding save_keys
  save_keys-Quiet writes [] s = (refl, refl)
  save_keys-Quiet writes ((name, content) ∷ keys) s =
      let s₁ = (save_key (writes name) name content s).0 in
      let q = save_key-Quiet (writes name) name content s in
      elim (Option-cases (save_key (writes name) name content s).1) [
        | inr (x, e) ↦ ground (arith, e, q)
        | inl e ↦ ground (
          arith,
          e,
          Quiet-trans s s₁ (save_keys writes keys s₁).0 q (save_keys-Quiet writes keys s₁),
        )
      ]

module _ (G : Graphs) where
  open G use {Graph}

  -- A tunnel of the list that Update compares is the one of that name.
  unchanged-infos :
      (equal : TunnelSpec → TunnelSpec → Bool) (spec : Spec) (s : Supervisor Graph) (m : GoMap ℕ)
      → ((i : ℕ) → lookup (Tunnel.name spec) m ≡ some i → i < length s.heap)
      → unchanged G equal spec (infos_from s m) ≡ true
      → (i : ℕ) × (p : tunneld.Daemon.Process.Process) × (lookup (Tunnel.name spec) m ≡ some i)
        × (deref s i ≡ some p)
        × (equal (Tunnel.to_proto p.spec) (Tunnel.to_proto spec) ≡ true)
  unfolding unchanged infos_from info_of lookup
  unchanged-infos equal spec s [] v h = absurd (ground (arith, h))
  unchanged-infos equal spec s ((k, i) ∷ m) v h = elim (Bool-cases (k == Tunnel.name spec)) [
    | inl e ↦
        let (p, d) = get_elem?-total s.heap i (v i (ground (arith, e))) in
        (i, p, ground (arith, e), d, ground (arith, e, d, h))
    | inr e ↦
        let v' = λ (j : ℕ) (l : lookup (Tunnel.name spec) m ≡ some j). v j (ground (arith, e, l)) in
        let h' : unchanged G equal spec (infos_from s m) ≡ true =
          ground (arith, e, h, Option-cases (deref s i)) in
        let (j, p, l, d, same) = unchanged-infos equal spec s m v' h' in
        (j, p, ground (arith, e, l), d, same)
  ]

  unchanged-registry :
      (equal : TunnelSpec → TunnelSpec → Bool) (spec : Spec) (s : Supervisor Graph)
      → IsValid s
      → unchanged G equal spec (list_tunnels s) ≡ true
      → (old : Spec) × (registry s (Tunnel.name spec) ≡ some old)
        × (equal (Tunnel.to_proto old) (Tunnel.to_proto spec) ≡ true)
  unfolding list_tunnels registry find
  unchanged-registry equal spec s v h =
      let (i, p, l, d, same) =
        unchanged-infos equal spec s s.processes (v.0 (Tunnel.name spec)) h in
      (p.spec, ground (arith, l, d), same)

  -- A request that is accepted has a spec, and has changed no tunnel yet.
  receive_spec-ok :
      (env : Env) (req : PutRequest) (s : Supervisor Graph) {s' : Supervisor Graph} {spec : Spec}
      → receive_spec G env req s ≡ (s', response spec)
      → (p : TunnelSpec) × (req.spec ≡ some p) × (Tunnel.from_proto p ≡ ok spec) × Quiet s s'
  unfolding receive_spec
  receive_spec-ok env req s h = elim (Option-cases req.spec) [
    | inl e ↦ absurd (ground (arith, e, h))
    | inr (p, e) ↦ elim (Option-cases (save_keys env.key_writes req.inline_keys s).1) [
      | inr (x, f) ↦ absurd (ground (arith, e, f, h))
      | inl f ↦ elim (Result-cases (Tunnel.from_proto p)) [
        | inr (x, g) ↦ absurd (ground (arith, e, f, g, h))
        | inl (spec, g) ↦
            let q = save_keys-Quiet env.key_writes req.inline_keys s in
            (p, e, ground (arith, e, f, g, h), ground (arith, e, f, g, h, q))
      ]
    ]
  ]

  -- RemoveTunnel and a successful AddTunnel replace the spec of a name.
  replaced-registry :
      (env : Env) (spec : Spec) (persistent : Bool) (s : Supervisor Graph)
      → IsValid s
      → (add_tunnel G env.save env.start spec persistent
          (remove_tunnel G env.waited (Tunnel.name spec) s).0).1
        ≡ none
      → (n : String)
      → registry
          (add_tunnel G env.save env.start spec persistent
            (remove_tunnel G env.waited (Tunnel.name spec) s).0).0
          n
        ≡ (if Tunnel.name spec == n then some spec else registry s n)
  replaced-registry env spec persistent s v h n =
      let s₁ = (remove_tunnel G env.waited (Tunnel.name spec) s).0 in
      let v₁ = remove_tunnel-IsValid G env.waited (Tunnel.name spec) s v in
      ground (
        arith,
        add_tunnel-registry G env.save env.start spec persistent s₁ v₁.0 h n,
        remove_tunnel-registry G env.waited (Tunnel.name spec) s n,
        Bool-cases (Tunnel.name spec == n),
      )

  -- After an Update that succeeds, the name of the requested spec has that spec, or one that is
  -- equal to it as a message; every other name has what it had.
  pub update-registry :
      (equal : TunnelSpec → TunnelSpec → Bool) (env : Env) (req : PutRequest) (s : Supervisor Graph)
      {s' : Supervisor Graph}
      → IsValid s
      → update G equal env req s ≡ (s', response tt)
      → (p : TunnelSpec) × (spec : Spec) × (req.spec ≡ some p)
        × (Tunnel.from_proto p ≡ ok spec)
        × (new : Spec) × (registry s' (Tunnel.name spec) ≡ some new)
        × ((new ≡ spec) ⊎ (equal (Tunnel.to_proto new) (Tunnel.to_proto spec) ≡ true))
        × ((n : String)
            → registry s' n ≡ (if Tunnel.name spec == n then some new else registry s n))
  unfolding update
  update-registry equal env req s {s'} v h =
      let s₁ = (receive_spec G env req s).0 in
      elim (Reply-cases (receive_spec G env req s).1) [
        | inr (c, e, f) ↦ absurd (ground (arith, f, h))
        | inl (spec, f) ↦
            let got : receive_spec G env req s ≡ (s₁, response spec) = ground (arith, f) in
            let (p, e, g, q) = receive_spec-ok env req s got in
            let v₁ = Quiet-IsValid s s₁ q v in
            let same = Quiet-registry s s₁ q in
            elim (Bool-cases (unchanged G equal spec (list_tunnels s₁))) [
              | inl u ↦
                  let (old, found, eq) = unchanged-registry equal spec s₁ v₁ u in
                  let q₂ = start_tunnel-Quiet env.start (Tunnel.name spec) s₁ in
                  let s₂ = (start_tunnel env.start (Tunnel.name spec) s₁).0 in
                  let end : s' ≡ s₂ = ground (
                    arith,
                    f,
                    u,
                    h,
                    Option-cases (start_tunnel env.start (Tunnel.name spec) s₁).1,
                  ) in
                  let keeps = Quiet-registry s₁ s₂ q₂ in
                  (
                    p,
                    spec,
                    e,
                    g,
                    old,
                    ground (arith, end, keeps (Tunnel.name spec), found),
                    inr eq,
                    λ n. ground (arith, end, keeps n, same n, found, eq_iff (Tunnel.name spec) n),
                  )
              | inr u ↦
                  let s₂ = (remove_tunnel G env.waited (Tunnel.name spec) s₁).0 in
                  elim (Option-cases (add_tunnel G env.save env.start spec req.persistent s₂).1) [
                    | inr (x, k) ↦ absurd (ground (arith, f, u, k, h))
                    | inl k ↦
                        let s₃ = (add_tunnel G env.save env.start spec req.persistent s₂).0 in
                        let end : s' ≡ s₃ = ground (arith, f, u, k, h) in
                        let new = replaced-registry env spec req.persistent s₁ v₁ k in
                        let name = Tunnel.name spec in
                        (
                          p,
                          spec,
                          e,
                          g,
                          spec,
                          ground (arith, end, new name, eq_iff name name),
                          inl refl,
                          λ n. ground (arith, end, new n, same n),
                        )
                  ]
            ]
      ]
