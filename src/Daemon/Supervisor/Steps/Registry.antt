-- ===== src/Daemon/Supervisor/Steps/Registry.antt =====
-- What a caller sees of the supervisor: a registry that gives a spec for a name. Every step is a
-- step of the registry, or none.
use tunneld.Prelude.{
  ℕ, ◌≡◌, inl, inr, String, ◌==◌, Bool, true, false, Option, none, some, [], ◌∷◌, arith, Bool-cases,
  Option-cases, length, lookup, delete, lookup-insert, lookup-delete, elem, if◌then◌else◌, eq_iff,
}
use tunneld.Dependency.{Graphs}
use tunneld.Tunnel
use tunneld.Tunnel.{Spec}
use tunneld.Tunnel.Ports.{local_port_keys}
use tunneld.Daemon.Process
use tunneld.Daemon.Process.{Process, Waited, StartEnv}
use tunneld.Daemon.Supervisor.{Supervisor, deref, find, store}
use tunneld.Daemon.Supervisor.Failure.{Floats}
use tunneld.Daemon.Supervisor.Invariant.{
  IsValid, HasPointers, Added, find-inv, get_elem?-append, get_elem?-last,
}
use tunneld.Daemon.Supervisor.Operations.{SaveEnv, add_tunnel, remove_tunnel}
use tunneld.Daemon.Supervisor.Operations.Conflicts.{add_tunnel_lem, check-none}
use tunneld.Daemon.Supervisor.Quiet.{Quiet, find-Quiet, deref-Quiet}
use tunneld.Daemon.Supervisor.Quiet.Calls.{stop-Quiet}
use tunneld.Daemon.Supervisor.Steps.{Step, quiet, added, removed, QuietStep-Quiet}

-- A spec for each name that is there.
abbrev pub Registry : Type 0
Registry = String → Option Spec

-- The steps of a registry: none; a spec under a name that is free, whose addresses no other spec
-- has; the end of a name.
pub data Registers (r : Registry) (r' : Registry) : Type 0 where
  silent : ((n : String) → r' n ≡ r n) → Registers r r'
  adds :
      (spec : Spec)
      → r (Tunnel.name spec) ≡ none
      → ((n : String) (other : Spec) (key : String)
          → r n ≡ some other
          → elem key (local_port_keys (Tunnel.to_proto other)) ≡ true
          → elem key (local_port_keys (Tunnel.to_proto spec)) ≡ false)
      → ((n : String) → r' n ≡ (if Tunnel.name spec == n then some spec else r n))
      → Registers r r'
  removes :
      (name : String) → ((n : String) → r' n ≡ (if name == n then none else r n)) → Registers r r'

module _ {Graph : Type 0} where
  unfoldable pub registry : Supervisor Graph → Registry
  registry s n = elim (find s n) [ none ↦ none | some (i, p) ↦ some p.spec ]

  registry-some :
      (s : Supervisor Graph) (n : String) {spec : Spec}
      → registry s n ≡ some spec
      → (i : ℕ) × (p : Process) × (find s n ≡ some (i, p)) × (p.spec ≡ spec)
  unfolding registry
  registry-some s n h = elim (Option-cases (find s n)) [
    | inl e ↦ absurd (ground (arith, e, h))
    | inr ((i, p), e) ↦ (i, p, e, ground (arith, e, h))
  ]

  missing-registry :
      (name : String) (s : Supervisor Graph) (n : String)
      → find s name ≡ none
      → registry s n ≡ (if name == n then none else registry s n)
  unfolding registry
  missing-registry name s n h = ground (arith, h, eq_iff name n, Bool-cases (name == n))

  pub Quiet-registry :
      (s s' : Supervisor Graph) → Quiet s s' → (n : String) → registry s' n ≡ registry s n
  unfolding registry find
  Quiet-registry s s' (a, b) n = elim (Option-cases (lookup n s.processes)) [
    | inl e ↦ ground (arith, a, e)
    | inr (i, e) ↦ elim (Option-cases (deref s' i)) [
      | inr (p, f) ↦
          let h : find s' n ≡ some (i, p) = ground (arith, a, e, f) in
          let (q, g, same) = find-Quiet s s' (a, b) n i p h in ground (arith, a, e, f, g, same)
      | inl f ↦ elim (Option-cases (deref s i)) [
        | inl g ↦ ground (arith, a, e, f, g)
        | inr (p, g) ↦
            let (q, d, same) = deref-Quiet s s' i (a, b) g in absurd (ground (arith, f, d))
      ]
    ]
  ]

  pub Added-registry :
      (spec : Spec) (s s' : Supervisor Graph)
      → Added spec s s'
      → HasPointers s
      → (n : String) → registry s' n ≡ (if Tunnel.name spec == n then some spec else registry s n)
  unfolding registry find
  Added-registry spec s s' (a, q, b, c) v n =
      let l = lookup-insert (Tunnel.name spec) n (length s.heap) s.processes in
      elim (Bool-cases (Tunnel.name spec == n)) [
        | inl e ↦ ground (arith, a, b, c, e, l, get_elem?-last s.heap q)
        | inr e ↦ elim (Option-cases (lookup n s.processes)) [
          | inl f ↦ ground (arith, a, e, f, l)
          | inr (i, f) ↦ ground (arith, a, b, e, f, l, get_elem?-append s.heap (q ∷ []) i (v n i f))
        ]
      ]

  deleted-registry :
      (name : String) (s s' : Supervisor Graph)
      → s'.processes ≡ delete name s.processes
      → s'.heap ≡ s.heap
      → (n : String) → registry s' n ≡ (if name == n then none else registry s n)
  unfolding registry find
  deleted-registry name s s' a b n = elim (Bool-cases (name == n)) [
    | inl e ↦ ground (arith, a, e, lookup-delete name n s.processes)
    | inr e ↦ ground (arith, a, b, e, lookup-delete name n s.processes)
  ]

module _ (G : Graphs) where
  open G use {Graph}

  -- RemoveTunnel ends the name, and keeps the others.
  pub remove_tunnel-registry :
      (w : Waited) (name : String) (s : Supervisor Graph) (n : String)
      → registry (remove_tunnel G w name s).0 n ≡ (if name == n then none else registry s n)
  unfolding remove_tunnel
  remove_tunnel-registry w name s n = elim (Option-cases (find s name)) [
    | inl e ↦ ground (arith, e, missing-registry name s n e)
    | inr ((i, p), e) ↦
        let (l, d) = find-inv s name i p e in
        let s₁ = store i (Process.stop w p).0 s in
        let s' = (remove_tunnel G w name s).0 in
        let first = Quiet-registry s s₁ (stop-Quiet w i p s d) n in
        let rest = deleted-registry name s₁ s' (ground (arith, e)) (ground (arith, e)) n in
        ground (arith, first, rest)
  ]

  -- A successful AddTunnel has the spec under its name, which was free, and keeps the others.
  pub add_tunnel-registry :
      (save : SaveEnv) (env : StartEnv) (spec : Spec) (persistent : Bool) (s : Supervisor Graph)
      → HasPointers s
      → (add_tunnel G save env spec persistent s).1 ≡ none
      → (n : String)
      → registry (add_tunnel G save env spec persistent s).0 n
        ≡ (if Tunnel.name spec == n then some spec else registry s n)
  add_tunnel-registry save env spec persistent s v h n =
      elim (add_tunnel_lem G save env spec persistent s) [
        | inl (u, e) ↦ absurd (ground (arith, e, h))
        | inr (a, free, ports) ↦
            Added-registry spec s (add_tunnel G save env spec persistent s).0 a v n
      ]

  add_tunnel-Registers :
      (save : SaveEnv) (env : StartEnv) (spec : Spec) (persistent : Bool) (s : Supervisor Graph)
      → IsValid s
      → Registers (registry s) (registry (add_tunnel G save env spec persistent s).0)
  unfolding registry find
  add_tunnel-Registers save env spec persistent s v =
      let s' = (add_tunnel G save env spec persistent s).0 in
      elim (add_tunnel_lem G save env spec persistent s) [
        | inl ((a, b, c), e) ↦ Registers.silent (λ n. ground (arith, a, b))
        | inr (a, free, ports) ↦
            Registers.adds spec (ground (arith, free))
              (λ n other key h k.
                let (i, p, f, same) = registry-some s n h in
                check-none s spec ports n i p key f (ground (arith, same, k)))
              (Added-registry spec s s' a v.0)
      ]

  -- Every step of a valid supervisor is one of the registry of its specs, or changes none of it:
  -- a name that was free gets a spec with addresses that no other has, or a name ends.
  pub Step-Registers :
      (F : Floats) (s s' : Supervisor Graph)
      → IsValid s
      → Step G F s s'
      → Registers (registry s) (registry s')
  Step-Registers F s s' v (quiet q) =
      Registers.silent (Quiet-registry s s' (QuietStep-Quiet G F s s' q))
  Step-Registers F s s' v (added save env spec persistent e) =
      rw e (add_tunnel-Registers save env spec persistent s v)
  Step-Registers F s s' v (removed w name e) =
      Registers.removes name (λ n. rw e (remove_tunnel-registry w name s n))
