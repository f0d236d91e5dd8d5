-- ===== src/Daemon/Supervisor/Failure/Keeps.antt =====
-- The steps of a monitor keep the tunnels.
use tunneld.Prelude.{
  ℕ, ◌≡◌, refl, String, true, false, none, some, List, [], ◌∷◌, arith, Option, Bool-cases,
  Option-cases, inl, inr,
}
use tunneld.Errors.{Err, wrapped, Result-cases}
use tunneld.Dependency.{Graphs, dependents_of}
use tunneld.Tunnel
use tunneld.Tunnel.{failed}
use tunneld.Daemon.Process
use tunneld.Daemon.Process.{Process, Waited, exit, receive, increment_attempts, reset_attempts}
use tunneld.Daemon.Supervisor.{Supervisor, deref, store, find}
use tunneld.Daemon.Supervisor.Failure.{
  attempts_reached, Floats, restarts, is_exhausted, is_wanted, is_stopped, is_running,
  stop_dependents, apply_policy, after_stops, handle_failure, healthy, MonitorEvent, done, exited,
  tick, monitor_step,
}
use tunneld.Daemon.Supervisor.Invariant.{find-inv}
use tunneld.Daemon.Supervisor.Quiet.{Quiet, Quiet-trans, store-Quiet}
use tunneld.Daemon.Supervisor.Quiet.Calls.{stop-Quiet}

module _ {Graph : Type 0} where
  pub stop_dependents-Quiet :
      (waits : String → Waited) (ds : List String) (s : Supervisor Graph)
      → Quiet s (stop_dependents waits ds s)
  unfolding stop_dependents
  stop_dependents-Quiet waits [] s = (refl, refl)
  stop_dependents-Quiet waits (n ∷ ds) s = elim (Option-cases (find s n)) [
    | inl e ↦ ground (arith, e, stop_dependents-Quiet waits ds s)
    | inr ((i, p), e) ↦ elim (Bool-cases (is_stopped p.status)) [
      | inl u ↦ ground (arith, e, u, stop_dependents-Quiet waits ds s)
      | inr u ↦
          let (l, d) = find-inv s n i p e in
          let s₁ = store i (Process.stop (waits n) p).0 s in
          ground (
            arith,
            e,
            u,
            Quiet-trans s s₁ (stop_dependents waits ds s₁) (stop-Quiet (waits n) i p s d)
                (stop_dependents-Quiet waits ds s₁),
          )
    ]
  ]

  pub exit-Quiet :
      (id : ℕ) (e : Option Err) (i : ℕ) (p : Process) (s : Supervisor Graph)
      → deref s i ≡ some p
      → Quiet s (store i (exit id e p) s)
  unfolding exit
  exit-Quiet id e i p s d =
      store-Quiet s (store i (exit id e p) s) i p (exit id e p) d refl refl refl

module _ (G : Graphs) (F : Floats) where
  open G use {Graph}

  apply_policy-Quiet :
      (i : ℕ) (p : Process) (s : Supervisor Graph)
      → deref s i ≡ some p
      → Quiet s (apply_policy G F i p s).0
  unfolding apply_policy increment_attempts
  apply_policy-Quiet i p s d = elim (Option-cases (restarts (Tunnel.restart_policy p.spec))) [
    | inl e ↦ ground (arith, e)
    | inr (r, e) ↦
        let write = λ (q : Process) (same : q.spec ≡ p.spec).
          store-Quiet s (store i q s) i p q d same refl refl in
        elim (Bool-cases (is_exhausted r p.restart_attempts)) [
          | inl u ↦ ground (
            arith,
            e,
            u,
            write (record p { status = failed; last_error = some attempts_reached }) refl,
          )
          | inr u ↦ ground (arith, e, u, write (increment_attempts p) refl)
        ]
  ]

  after_stops-Quiet : (i : ℕ) (s : Supervisor Graph) → Quiet s (after_stops G F i s).0
  unfolding after_stops
  after_stops-Quiet i s = elim (Option-cases (deref s i)) [
    | inl e ↦ ground (arith, e)
    | inr (p, e) ↦ ground (arith, e, apply_policy-Quiet i p s e)
  ]

  pub handle_failure-Quiet :
      (waits : String → Waited) (name : String) (s : Supervisor Graph)
      → Quiet s (handle_failure G F waits name s).0
  unfolding handle_failure
  handle_failure-Quiet waits name s = elim (Option-cases (find s name)) [
    | inl e ↦ ground (arith, e)
    | inr ((i, p), e) ↦ elim (Bool-cases (is_wanted p.expected_state)) [
      | inr u ↦ ground (arith, e, u)
      | inl u ↦ elim (Result-cases (dependents_of G name s.planner)) [
        | inr (x, f) ↦ ground (arith, e, u, f, after_stops-Quiet i s)
        | inl (ds, f) ↦
            let s₁ = stop_dependents waits ds s in
            ground (
              arith,
              e,
              u,
              f,
              Quiet-trans s s₁ (after_stops G F i s₁).0 (stop_dependents-Quiet waits ds s)
                  (after_stops-Quiet i s₁),
            )
      ]
    ]
  ]

  -- A write, and then the handling of the failure.
  failed-Quiet :
      (waits : String → Waited) (name : String) (i : ℕ) (p q : Process) (s : Supervisor Graph)
      → deref s i ≡ some p
      → q.spec ≡ p.spec
      → Quiet s (handle_failure G F waits name (store i q s)).0
  failed-Quiet waits name i p q s d same =
      Quiet-trans s (store i q s) (handle_failure G F waits name (store i q s)).0
        (store-Quiet s (store i q s) i p q d same refl refl)
        (handle_failure-Quiet waits name (store i q s))

  healthy-spec : (p : Process) → (healthy p).spec ≡ p.spec
  unfolding healthy reset_attempts
  healthy-spec p = ground (arith, Bool-cases (is_running p.status))

  pub monitor_step-Quiet :
      (waits : String → Waited) (event : MonitorEvent) (i : ℕ) (p : Process) (s : Supervisor Graph)
      → deref s i ≡ some p
      → Quiet s (monitor_step G F waits event i p s).0
  unfolding monitor_step
  monitor_step-Quiet waits done i p s d = (refl, refl)
  monitor_step-Quiet waits exited i p s d =
      failed-Quiet waits (Tunnel.name p.spec) i p (record p { wait_ch = receive p.wait_ch }) s d
        refl
  monitor_step-Quiet waits (tick none late) i p s d =
      store-Quiet s (store i (healthy p) s) i p (healthy p) d (healthy-spec p) refl refl
  monitor_step-Quiet waits (tick (some e) false) i p s d = (refl, refl)
  monitor_step-Quiet waits (tick (some e) true) i p s d =
      failed-Quiet waits (Tunnel.name p.spec) i p
        (record p { status = failed; last_error = some (wrapped "health check timeout" e) }) s d
        refl
