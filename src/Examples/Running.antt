-- ===== src/Examples/Running.antt =====
-- A process and a supervisor that holds it.
use tunneld.Prelude.{
  ℕ, ◌*◌, ◌<◌, ◌^◌, ◌≡◌, ◌≢◌, refl, String, ℤ, pos, ltb_ℤ, ltb, Bool, true, false, Option, none,
  some, List, [], ◌∷◌, ◌++◌, length, is_some, arith, Memᴰ, ◌==◌, ◌⊎◌,
}
use tunneld.Errors.{Err, already_running}
use tunneld.Proto.{as_duration}
use tunneld.Proto
use tunneld.Tunnel
use tunneld.Tunnel.{Status, running, starting, stopped, failed}
use tunneld.Dependency.{new_planner}
use tunneld.Daemon.Process.{
  Process, arrived, start, exit, is_process_alive, is_idle, started, desired_running, new_process,
  increment_attempts,
}
use tunneld.Daemon.Process.Life.{NotStarted, start_lem, start_failed-NotStarted, exit_stale}
use tunneld.Daemon.Supervisor.{Supervisor, deref, find}
use tunneld.Daemon.Supervisor.Operations.{is_up, start_tunnel}
use tunneld.Daemon.Supervisor.Operations.Starting.{start_tunnel_idempotent, start_tunnel_dead}
use tunneld.Daemon.Supervisor.Failure.{restart_delay, is_exhausted, is_wanted, handle_failure}
use tunneld.Daemon.Supervisor.Failure.Delay.{restart_delay_bounded}
use tunneld.Daemon.Supervisor.Failure.Policy.{handle_failure_restarts}
use tunneld.Daemon.Supervisor.Waiting.{Poll, ticked, wait_healthy}
use tunneld.Daemon.Supervisor.Waiting.Laws.{wait_healthy_ok, wait_healthy_ends}
use tunneld.Examples.Samples.{second, one_second, policy, working, broken, idle, busy, floats}
use tunneld.Examples.Graph.{Digraph, digraphs}

abbrev launched : Process
unfolding start
launched = (start working idle).0

launched-eq : start working idle ≡ (launched, none)
unfolding start new_process tunneld.Tunnel.Ports.resolve_ports Tunnel.from_proto
launched-eq = refl

start_lem_example :
    (is_idle idle.status ≡ true)
    × (launched.status ≡ starting)
    × (launched.expected_state ≡ desired_running)
    × (is_process_alive launched ≡ true)
    × (launched.restart_attempts ≡ 0)
    × (launched.spec ≡ idle.spec)
    × (launched.runs ≡ record { id = 0; alive = true; cancelled = false } ∷ [])
unfolding new_process
start_lem_example = start_lem working idle launched-eq

failed_start : Process
unfolding start
failed_start = (start broken idle).0

start_failed-NotStarted_example : NotStarted idle (start broken idle).0
unfolding start new_process tunneld.Tunnel.Ports.resolve_ports Tunnel.from_proto
start_failed-NotStarted_example =
    start_failed-NotStarted broken idle {x = Err.io "no such file"} refl

-- The process after a second start.
abbrev second_run : Process
second_run = record busy {
  cmd = started 1;
  runs =
      record { id = 1; alive = true; cancelled = false }
      ∷ record { id = 0; alive = true; cancelled = false }
      ∷ [];
}

exit_stale_example :
    (is_process_alive (exit 0 none second_run) ≡ true)
    × (is_idle (exit 0 none second_run).status ≡ true)
unfolding is_process_alive
exit_stale_example = exit_stale 0 1 none second_run (λ e. absurd (ground (arith, e))) refl refl

-- A supervisor with one process.
abbrev pub holding : Process → Supervisor Digraph
holding p = record {
  planner = new_planner digraphs (("db", p.spec) ∷ []);
  heap = p ∷ [];
  processes = ("db", 0) ∷ [];
  config = record { tunnels = []; file_path = "" };
  key_dir = "/keys";
  tunnels_dir = "";
  has_ctx = true;
  monitors = [];
  key_files = [];
  tunnel_files = [];
}

abbrev after_start : Supervisor Digraph
unfolding start_tunnel
after_start = (start_tunnel working "db" (holding idle)).0

after_start-eq : start_tunnel working "db" (holding idle) ≡ (after_start, none)
unfolding start_tunnel find tunneld.Prelude.lookup new_process
    tunneld.Daemon.Supervisor.start_and_notify start tunneld.Tunnel.Ports.resolve_ports
    Tunnel.from_proto
after_start-eq = refl

start_tunnel_idempotent_example :
    (i : ℕ) × (p : Process) × (find after_start "db" ≡ some (i, p))
    × (is_up p.status ≡ true)
    × (is_process_alive p ≡ true)
    × (start_tunnel broken "db" after_start ≡ (after_start, none))
start_tunnel_idempotent_example =
    start_tunnel_idempotent working broken "db" (holding idle) after_start-eq

-- The process whose command has ended, before the goroutine of Start has noted it.
abbrev dead : Process
dead = record busy { runs = record { id = 0; alive = false; cancelled = false } ∷ [] }

start_tunnel_dead_example : (start_tunnel working "db" (holding dead)).1 ≡ some already_running
unfolding find tunneld.Prelude.lookup is_process_alive
start_tunnel_dead_example = start_tunnel_dead working "db" (holding dead) 0 dead refl refl refl

restart_delay_bounded_example :
    (restart_delay floats policy 0 ≡ second)
    × (ltb 0 2 ≡ true → ltb_ℤ second (restart_delay floats policy 2) ≡ false)
unfolding as_duration
restart_delay_bounded_example =
    restart_delay_bounded floats policy (record { multiplier = 2; max_delay = some one_second }) 2
      refl refl

-- The tunnel after its first failure.
abbrev pub crashed : Process
crashed = record busy { status = failed }

handled :
    handle_failure digraphs floats (λ n. arrived none) "db" (holding crashed)
    ≡ (holding (record crashed { restart_attempts = 1 }), some (0, second))
unfolding handle_failure find tunneld.Prelude.lookup tunneld.Dependency.dependents_of new_planner
    new_process tunneld.Prelude.int32 increment_attempts as_duration
handled = refl

handle_failure_restarts_example :
    (old : Process) × (p : Process) × (r : Proto.RestartPolicySpec) × (find (holding crashed) "db"
      ≡ some (0, old))
    × (is_wanted old.expected_state ≡ true)
    × (Tunnel.restart_policy p.spec ≡ some r)
    × (r.policy == "never" ≡ false)
    × (is_exhausted r p.restart_attempts ≡ false)
    × (second ≡ restart_delay floats r p.restart_attempts)
    × (deref (holding (record crashed { restart_attempts = 1 })) 0 ≡ some (increment_attempts p))
handle_failure_restarts_example =
    handle_failure_restarts digraphs floats (λ n. arrived none) "db" (holding crashed) handled

abbrev polls : List Poll
polls = ticked starting false ∷ ticked running false ∷ []

wait_healthy_ok_example :
    (some running ≡ some running)
    × (i : ℕ) × (p : Process) × (find (holding launched) "db" ≡ some (i, p))
    × ((p.status ≡ running) ⊎ ((late : Bool) × Memᴰ (ticked running late) polls))
unfolding wait_healthy find tunneld.Prelude.lookup launched new_process
    tunneld.Tunnel.Ports.resolve_ports Tunnel.from_proto tunneld.Daemon.Supervisor.Failure.restarts
wait_healthy_ok_example = wait_healthy_ok (holding launched) "db" polls refl

wait_healthy_ends_example :
    is_some
      (wait_healthy (holding launched) "db" (ticked starting false ∷ ticked starting true ∷ []))
    ≡ true
wait_healthy_ends_example =
    wait_healthy_ends (holding launched) "db" (ticked starting false ∷ []) [] starting
