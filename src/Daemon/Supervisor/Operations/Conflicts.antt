-- ===== src/Daemon/Supervisor/Operations/Conflicts.antt =====
-- AddTunnel: what it makes of the processes, and the invariant.
use tunneld.Prelude.{◌≡◌, ◌⊎◌, inl, inr, Bool, true, none, arith, Option-cases, lookup, is_some}
use tunneld.Dependency.{Graphs}
use tunneld.Tunnel
use tunneld.Tunnel.{Spec}
use tunneld.Daemon.Process.{StartEnv}
use tunneld.Daemon.Supervisor.{Supervisor, check_port_conflicts}
use tunneld.Daemon.Supervisor.Operations.{SaveEnv, persist, add_tunnel}
use tunneld.Daemon.Supervisor.Operations.Adding.{conflict_in-none, persist_lem, enrol_lem}
use tunneld.Daemon.Supervisor.Invariant.{
  IsValid, IsFree, Added, Unchanged, find-inv, Added-IsValid, Unchanged-IsValid,
}

module _ {Graph : Type 0} where
  -- The keys of a new spec are those of no process, if the check passes.
  pub check-none :
      (s : Supervisor Graph) (spec : Spec) → check_port_conflicts s spec ≡ none → IsFree s spec
  unfolding check_port_conflicts
  check-none s spec h n i p key f m =
      let (l, d) = find-inv s n i p f in
      conflict_in-none s spec (Tunnel.Ports.local_port_keys (Tunnel.to_proto spec)) s.processes n i
        p key h l d m

module _ (G : Graphs) where
  open G use {Graph}

  -- AddTunnel either fails and leaves the processes as they were, or adds exactly one process, of
  -- the spec, under a name that was free and with ports that no other tunnel has.
  pub add_tunnel_lem :
      (save : SaveEnv) (env : StartEnv) (spec : Spec) (persistent : Bool) (s : Supervisor Graph)
      → (Unchanged s (add_tunnel G save env spec persistent s).0
          × (is_some (add_tunnel G save env spec persistent s).1 ≡ true))
        ⊎ (Added spec s (add_tunnel G save env spec persistent s).0
            × (lookup (Tunnel.name spec) s.processes ≡ none)
            × (check_port_conflicts s spec ≡ none))
  unfolding add_tunnel
  add_tunnel_lem save env spec persistent s =
      elim (Option-cases (lookup (Tunnel.name spec) s.processes)) [
        | inr (i, e) ↦ inl (ground (arith, e))
        | inl e ↦ elim (Option-cases (check_port_conflicts s spec)) [
          | inr (x, f) ↦ inl (ground (arith, e, f))
          | inl f ↦ elim (Option-cases (persist save persistent spec s).1) [
            | inr (x, g) ↦ inl (ground (arith, e, f, g, persist_lem G save persistent spec s))
            | inl g ↦
                let s₁ = (persist save persistent spec s).0 in
                elim (enrol_lem G env spec s₁) [
                  | inl u ↦ inl (ground (arith, e, f, g, u, persist_lem G save persistent spec s))
                  | inr (a, q, b, c) ↦ inr (
                    (
                      ground (arith, e, f, g, a, persist_lem G save persistent spec s),
                      q,
                      ground (arith, e, f, g, b, persist_lem G save persistent spec s),
                      c,
                    ),
                    e,
                    f,
                  )
                ]
          ]
        ]
      ]

  -- AddTunnel keeps, whatever it answers, the invariant that every name points to a process with
  -- that name and that no address of one tunnel is an address of another.
  pub add_tunnel-IsValid :
      (save : SaveEnv) (env : StartEnv) (spec : Spec) (persistent : Bool) (s : Supervisor Graph)
      → IsValid s
      → IsValid (add_tunnel G save env spec persistent s).0
  add_tunnel-IsValid save env spec persistent s v =
      elim (add_tunnel_lem save env spec persistent s) [
        | inl (u, e) ↦ Unchanged-IsValid s (add_tunnel G save env spec persistent s).0 u v
        | inr (a, f, c) ↦
            Added-IsValid spec s (add_tunnel G save env spec persistent s).0 a (check-none s spec c)
              v
      ]
