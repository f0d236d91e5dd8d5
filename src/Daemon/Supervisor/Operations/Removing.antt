-- ===== src/Daemon/Supervisor/Operations/Removing.antt =====
-- The invariant of the supervisor under the removal of a tunnel.
use tunneld.Prelude.{◌&&◌, String, arith, Option-cases, Bool-cases, inl, inr, lookup-delete}
use tunneld.Dependency.{Graphs}
use tunneld.Daemon.Process.{Waited, StartEnv, start, is_process_alive, stop}
use tunneld.Daemon.Process.Life.{stop-spec}
use tunneld.Daemon.Supervisor.{start_and_notify, Supervisor, find}
use tunneld.Daemon.Supervisor.Operations.{is_up, start_tunnel, stop_tunnel, remove_tunnel}
use tunneld.Daemon.Supervisor.Operations.Adding.{start-spec}
use tunneld.Daemon.Supervisor.Invariant.{
  IsValid, find-inv, Unchanged-IsValid, Written-IsValid, store-IsValid,
}

module _ (G : Graphs) where
  open G use {Graph}

  -- RemoveTunnel keeps, whatever it answers, the invariant that every name points to a process
  -- with that name and that no address of one tunnel is an address of another.
  pub remove_tunnel-IsValid :
      (w : Waited) (name : String) (s : Supervisor Graph)
      → IsValid s
      → IsValid (remove_tunnel G w name s).0
  unfolding remove_tunnel
  remove_tunnel-IsValid w name s v = elim (Option-cases (find s name)) [
    | inl e ↦ Unchanged-IsValid s (remove_tunnel G w name s).0 (ground (arith, e)) v
    | inr ((i, p), e) ↦
        let (l, d) = find-inv s name i p e in
        let s' = (remove_tunnel G w name s).0 in
        Written-IsValid s s' i p (stop w p).0
          (
            d,
            ground (arith, e),
            stop-spec w p,
            λ n j m. ground (arith, e, m, lookup-delete name n s.processes),
          )
          v
  ]

module _ {Graph : Type 0} where
  -- StartTunnel and StopTunnel keep that invariant too, whatever they answer.
  pub start_stop-IsValid :
      (env : StartEnv) (w : Waited) (name : String) (s : Supervisor Graph)
      → IsValid s
      → IsValid (start_tunnel env name s).0 × IsValid (stop_tunnel w name s).0
  unfolding start_tunnel stop_tunnel start_and_notify
  start_stop-IsValid env w name s v = elim (Option-cases (find s name)) [
    | inl e ↦ (
      Unchanged-IsValid s (start_tunnel env name s).0 (ground (arith, e)) v,
      Unchanged-IsValid s (stop_tunnel w name s).0 (ground (arith, e)) v,
    )
    | inr ((i, p), e) ↦
        let (l, d) = find-inv s name i p e in
        (
          elim (Bool-cases (is_up p.status && is_process_alive p)) [
            | inl u ↦ Unchanged-IsValid s (start_tunnel env name s).0 (ground (arith, e, u)) v
            | inr u ↦
                store-IsValid s (start_tunnel env name s).0 i p (start env p).0 d
                  (ground (arith, e, u, Option-cases (start env p).1)) (start-spec env p)
                  (ground (arith, e, u, Option-cases (start env p).1)) v
          ],
          store-IsValid s (stop_tunnel w name s).0 i p (stop w p).0 d (ground (arith, e))
              (stop-spec w p) (ground (arith, e)) v,
        )
  ]
