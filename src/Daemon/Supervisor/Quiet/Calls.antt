-- ===== src/Daemon/Supervisor/Quiet/Calls.antt =====
-- The calls that keep the tunnels: starts and stops, of one tunnel or of all.
use tunneld.Prelude.{
  ℕ, ◌≡◌, refl, ◌&&◌, String, true, false, some, List, [], ◌∷◌, GoMap, arith, Option, Bool-cases,
  Option-cases, inl, inr,
}
use tunneld.Errors.{Err}
use tunneld.Config.{Config, set_enabled}
use tunneld.Daemon.Process
use tunneld.Daemon.Process.{Process, Waited, StartEnv, is_process_alive}
use tunneld.Daemon.Process.Life.{stop-spec}
use tunneld.Daemon.Supervisor.{
  Supervisor, KeyWrite, deref, store, find, start_and_notify, save_key, stop_from, stop_all,
}
use tunneld.Daemon.Supervisor.Invariant.{find-inv}
use tunneld.Daemon.Supervisor.Operations.{
  is_up, enable_tunnel, disable_tunnel, start_tunnel, stop_tunnel,
}
use tunneld.Daemon.Supervisor.Operations.Adding.{start-spec}
use tunneld.Daemon.Supervisor.Quiet.{Quiet, Quiet-trans, store-Quiet}

module _ {Graph : Type 0} where
  pub start_and_notify-Quiet :
      (env : StartEnv) (i : ℕ) (p : Process) (s : Supervisor Graph)
      → deref s i ≡ some p
      → Quiet s (start_and_notify env i p s).0
  unfolding start_and_notify
  start_and_notify-Quiet env i p s d =
      store-Quiet s (start_and_notify env i p s).0 i p (Process.start env p).0 d (start-spec env p)
        (ground (arith, Option-cases (Process.start env p).1))
        (ground (arith, Option-cases (Process.start env p).1))

  pub stop-Quiet :
      (w : Waited) (i : ℕ) (p : Process) (s : Supervisor Graph)
      → deref s i ≡ some p
      → Quiet s (store i (Process.stop w p).0 s)
  stop-Quiet w i p s d =
      store-Quiet s (store i (Process.stop w p).0 s) i p (Process.stop w p).0 d (stop-spec w p) refl
        refl

  pub start_tunnel-Quiet :
      (env : StartEnv) (name : String) (s : Supervisor Graph) → Quiet s (start_tunnel env name s).0
  unfolding start_tunnel
  start_tunnel-Quiet env name s = elim (Option-cases (find s name)) [
    | inl e ↦ ground (arith, e)
    | inr ((i, p), e) ↦
        let (l, d) = find-inv s name i p e in
        elim (Bool-cases (is_up p.status && is_process_alive p)) [
          | inl u ↦ ground (arith, e, u)
          | inr u ↦ ground (arith, e, u, start_and_notify-Quiet env i p s d)
        ]
  ]

  pub stop_tunnel-Quiet :
      (w : Waited) (name : String) (s : Supervisor Graph) → Quiet s (stop_tunnel w name s).0
  unfolding stop_tunnel
  stop_tunnel-Quiet w name s = elim (Option-cases (find s name)) [
    | inl e ↦ ground (arith, e)
    | inr ((i, p), e) ↦
        let (l, d) = find-inv s name i p e in ground (arith, e, stop-Quiet w i p s d)
  ]

  pub enable_tunnel-Quiet :
      (write : Config → Option Err) (env : StartEnv) (name : String) (s : Supervisor Graph)
      → Quiet s (enable_tunnel write env name s).0
  unfolding enable_tunnel
  enable_tunnel-Quiet write env name s = elim (Option-cases (find s name)) [
    | inl e ↦ ground (arith, e)
    | inr ((i, p), e) ↦
        let (l, d) = find-inv s name i p e in
        let (config, x) = set_enabled write name true s.config in
        let s₁ : Supervisor Graph = record s { config = config } in
        elim (Option-cases x) [
          | inl f ↦ ground (arith, e, f, start_and_notify-Quiet env i p s₁ d)
          | inr (y, f) ↦ ground (arith, e, f)
        ]
  ]

  pub disable_tunnel-Quiet :
      (write : Config → Option Err) (w : Waited) (name : String) (s : Supervisor Graph)
      → Quiet s (disable_tunnel write w name s).0
  unfolding disable_tunnel
  disable_tunnel-Quiet write w name s = elim (Option-cases (find s name)) [
    | inl e ↦ ground (arith, e)
    | inr ((i, p), e) ↦
        let (l, d) = find-inv s name i p e in
        let (config, x) = set_enabled write name false s.config in
        let s₁ : Supervisor Graph = record s { config = config } in
        elim (Option-cases x) [
          | inl f ↦ ground (arith, e, f, stop-Quiet w i p s₁ d)
          | inr (y, f) ↦ ground (arith, e, f)
        ]
  ]

  stop_from-Quiet :
      (waits : String → Waited) (m : GoMap ℕ) (s : Supervisor Graph) → Quiet s (stop_from waits m s)
  unfolding stop_from
  stop_from-Quiet waits [] s = (refl, refl)
  stop_from-Quiet waits ((name, i) ∷ rest) s = elim (Option-cases (deref s i)) [
    | inl e ↦ ground (arith, e, stop_from-Quiet waits rest s)
    | inr (p, e) ↦
        let s₁ = store i (Process.stop (waits name) p).0 s in
        ground (
          arith,
          e,
          Quiet-trans s s₁ (stop_from waits rest s₁) (stop-Quiet (waits name) i p s e)
              (stop_from-Quiet waits rest s₁),
        )
  ]

  pub stop_all-Quiet : (waits : String → Waited) (s : Supervisor Graph) → Quiet s (stop_all waits s)
  unfolding stop_all
  stop_all-Quiet waits s = stop_from-Quiet waits s.processes s

  pub save_key-Quiet :
      (write : KeyWrite) (name : String) (content : List ℕ) (s : Supervisor Graph)
      → Quiet s (save_key write name content s).0
  unfolding save_key
  save_key-Quiet write name content s = elim (Option-cases write.made) [
    | inr (x, e) ↦ (ground (arith, e), ground (arith, e))
    | inl e ↦ elim (Option-cases write.written) [
      | inr (x, f) ↦ (ground (arith, e, f), ground (arith, e, f))
      | inl f ↦ (ground (arith, e, f), ground (arith, e, f))
    ]
  ]
