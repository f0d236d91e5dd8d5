-- ===== src/Daemon/Supervisor/Steps.antt =====
-- The supervisor of internal/daemon/supervisor.go under its callers: the gRPC handlers, the
-- monitors and the goroutines of the commands act in any order, one step each, since the mutex
-- and the pauses between the parts of a monitor separate them.
pub mod Registry
pub mod Started
use mathlib.Core.Path.{subst}
use tunneld.Prelude.{refl, delete, ℕ, ◌≡◌, String, Bool, Option, some, List, []}
use tunneld.Errors.{Err}
use tunneld.Config.{Config}
use tunneld.Dependency.{Graphs}
use tunneld.Tunnel.{Spec}
use tunneld.Daemon.Process.{Process, StartEnv, Waited, exit}
use tunneld.Daemon.Supervisor.{
  Supervisor, KeyWrite, deref, store, start_and_notify, save_key, stop_all, run,
}
use tunneld.Daemon.Supervisor.Operations.{
  SaveEnv, add_tunnel, remove_tunnel, enable_tunnel, disable_tunnel, start_tunnel, stop_tunnel,
}
use tunneld.Daemon.Supervisor.Failure.{Floats, MonitorEvent, monitor_step}
use tunneld.Daemon.Supervisor.Invariant.{IsValid, Unchanged}
use tunneld.Daemon.Supervisor.Quiet.{Quiet, Quiet-IsValid}
use tunneld.Daemon.Supervisor.Quiet.Calls.{
  start_and_notify-Quiet, start_tunnel-Quiet, stop_tunnel-Quiet, enable_tunnel-Quiet,
  disable_tunnel-Quiet, stop_all-Quiet, save_key-Quiet,
}
use tunneld.Daemon.Supervisor.Failure.Keeps.{exit-Quiet, monitor_step-Quiet}
use tunneld.Daemon.Supervisor.Operations.Conflicts.{add_tunnel-IsValid}
use tunneld.Daemon.Supervisor.Operations.Removing.{remove_tunnel-IsValid}
use tunneld.Daemon.Supervisor.Starts.{run-IsValid}

module _ (G : Graphs) (F : Floats) where
  open G use {Graph}

  -- A step that leaves the names and the specs as they are. A monitor, a restart and an exit hold
  -- a pointer, also of a process that no name points to any more.
  pub data QuietStep (s : Supervisor Graph) (s' : Supervisor Graph) : Type 0 where
    started : (env : StartEnv) (name : String) → s' ≡ (start_tunnel env name s).0 → QuietStep s s'
    stopped : (w : Waited) (name : String) → s' ≡ (stop_tunnel w name s).0 → QuietStep s s'
    enabled :
        (write : Config → Option Err) (env : StartEnv) (name : String)
        → s' ≡ (enable_tunnel write env name s).0
        → QuietStep s s'
    disabled :
        (write : Config → Option Err) (w : Waited) (name : String)
        → s' ≡ (disable_tunnel write w name s).0
        → QuietStep s s'
    all_stopped : (waits : String → Waited) → s' ≡ stop_all waits s → QuietStep s s'
    key_saved :
        (write : KeyWrite) (name : String) (content : List ℕ)
        → s' ≡ (save_key write name content s).0
        → QuietStep s s'
    key_deleted :
        (path : String) → s' ≡ record s { key_files = delete path s.key_files } → QuietStep s s'
    monitored :
        (waits : String → Waited) (event : MonitorEvent) (i : ℕ) (p : Process)
        → deref s i ≡ some p
        → s' ≡ (monitor_step G F waits event i p s).0
        → QuietStep s s'
    restarted :
        (env : StartEnv) (i : ℕ) (p : Process)
        → deref s i ≡ some p
        → s' ≡ (start_and_notify env i p s).0
        → QuietStep s s'
    command_exited :
        (id : ℕ) (e : Option Err) (i : ℕ) (p : Process)
        → deref s i ≡ some p
        → s' ≡ store i (exit id e p) s
        → QuietStep s s'

  pub data Step (s : Supervisor Graph) (s' : Supervisor Graph) : Type 0 where
    quiet : QuietStep s s' → Step s s'
    added :
        (save : SaveEnv) (env : StartEnv) (spec : Spec) (persistent : Bool)
        → s' ≡ (add_tunnel G save env spec persistent s).0
        → Step s s'
    removed : (w : Waited) (name : String) → s' ≡ (remove_tunnel G w name s).0 → Step s s'

  -- The states that follow a state, in any number of steps.
  pub data Reach (s : Supervisor Graph) : Supervisor Graph → Type 0 where
    here : Reach s s
    next : {t u : Supervisor Graph} → Reach s t → Step t u → Reach s u

  pub Reach-trans : {s t u : Supervisor Graph} → Reach s t → Reach t u → Reach s u
  Reach-trans r here = r
  Reach-trans r (next q st) = next (Reach-trans r q) st

  -- The end of a sequence under another name.
  pub Reach-eq : {s t u : Supervisor Graph} → Reach s t → t ≡ u → Reach s u
  Reach-eq {s} r e = subst (Reach s) e r

  -- One step.
  pub one : {s t : Supervisor Graph} → Step s t → Reach s t
  one st = next here st

  pub QuietStep-Quiet : (s s' : Supervisor Graph) → QuietStep s s' → Quiet s s'
  QuietStep-Quiet s s' (started env name e) = rw e (start_tunnel-Quiet env name s)
  QuietStep-Quiet s s' (stopped w name e) = rw e (stop_tunnel-Quiet w name s)
  QuietStep-Quiet s s' (enabled write env name e) = rw e (enable_tunnel-Quiet write env name s)
  QuietStep-Quiet s s' (disabled write w name e) = rw e (disable_tunnel-Quiet write w name s)
  QuietStep-Quiet s s' (all_stopped waits e) = rw e (stop_all-Quiet waits s)
  QuietStep-Quiet s s' (key_saved write name content e) = rw e (save_key-Quiet write name content s)
  QuietStep-Quiet s s' (key_deleted path e) = rw e (refl, refl)
  QuietStep-Quiet s s' (monitored waits event i p d e) =
      rw e (monitor_step-Quiet G F waits event i p s d)
  QuietStep-Quiet s s' (restarted env i p d e) = rw e (start_and_notify-Quiet env i p s d)
  QuietStep-Quiet s s' (command_exited id x i p d e) = rw e (exit-Quiet id x i p s d)

  Step-IsValid : (s s' : Supervisor Graph) → Step s s' → IsValid s → IsValid s'
  Step-IsValid s s' (quiet q) v = Quiet-IsValid s s' (QuietStep-Quiet s s' q) v
  Step-IsValid s s' (added save env spec persistent e) v =
      rw e (add_tunnel-IsValid G save env spec persistent s v)
  Step-IsValid s s' (removed w name e) v = rw e (remove_tunnel-IsValid G w name s v)

  Reach-IsValid : {s t : Supervisor Graph} → IsValid s → Reach s t → IsValid t
  Reach-IsValid v here = v
  Reach-IsValid v (next {t} {u} r st) = Step-IsValid t u st (Reach-IsValid v r)

  -- From Run on a supervisor without tunnels, in any order of calls, monitors and exits, every
  -- name points to a process with that name, and no address of one tunnel is one of another.
  pub run-Reach-IsValid :
      (envs : String → StartEnv) (s t : Supervisor Graph)
      → s.processes ≡ []
      → Reach (run G envs s).0 t
      → IsValid t
  run-Reach-IsValid envs s t e r = Reach-IsValid (run-IsValid G envs s e) r
