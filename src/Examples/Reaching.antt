-- ===== src/Examples/Reaching.antt =====
-- A supervisor that runs, gets a tunnel, loses its command and starts it again.
use tunneld.Prelude.{
  if◌then◌else◌, ◌==◌, ℕ, ◌+◌, ◌≡◌, ◌≢◌, refl, String, pos, Bool, true, false, Option, none, some,
  List, [], ◌∷◌, ◌⊎◌,
}
use tunneld.Errors.{io, ok}
use tunneld.Proto.{TunnelSpec}
use tunneld.Tunnel
use tunneld.Tunnel.{Spec}
use tunneld.Daemon.Process.{Process, arrived, is_process_alive}
use tunneld.Daemon.Supervisor.{Supervisor, deref, find, run, start_and_notify}
use tunneld.Daemon.Supervisor.Failure.Timeout.{timeout_keeps_commands}
use tunneld.Daemon.Supervisor.Failure.{exited, tick, monitor_step, restart_delay}
use tunneld.Daemon.Supervisor.Failure.Recovery.{monitor_recovers}
use tunneld.Daemon.Supervisor.Invariant.{IsValid}
use tunneld.Daemon.Supervisor.Operations.{add_tunnel, remove_tunnel, is_up}
use tunneld.Daemon.Supervisor.Steps.{added, removed, here, next, run-Reach-IsValid}
use tunneld.Daemon.Supervisor.Steps.Registry.{Registers, registry, Step-Registers}
use tunneld.Api.{response}
use tunneld.Api.Tunnels
use tunneld.Api.Tunnels.{PutRequest, Env, create, update, enable, disable}
use tunneld.Config.{Config}
use tunneld.Api.Tunnels.Promises.{update-registry}
use tunneld.Examples.Samples.{policy, busy, on_disk, message, spec, working, saving, floats}
use tunneld.Examples.Graph.{Digraph, digraphs}
use tunneld.Examples.Adding.{fresh, extended, extended-IsValid}
use tunneld.Examples.Running.{holding, crashed}

abbrev running : Supervisor Digraph
running = (run digraphs (λ n. working) fresh).0

abbrev grown : Supervisor Digraph
grown = (add_tunnel digraphs saving working (spec "db" [] (pos 5432)) true running).0

run-Reach-IsValid_example : IsValid grown
run-Reach-IsValid_example =
    run-Reach-IsValid digraphs floats (λ n. working) fresh grown refl
      (next here (added saving working (spec "db" [] (pos 5432)) true refl))

Step-Registers_example :
    Registers (registry extended) (registry (remove_tunnel digraphs (arrived none) "db" extended).0)
Step-Registers_example =
    Step-Registers digraphs floats extended (remove_tunnel digraphs (arrived none) "db" extended).0
      extended-IsValid (removed (arrived none) "db" refl)

monitor_recovers_example :
    (s₁ : Supervisor Digraph) × (q : Process) × (s₂ : Supervisor Digraph) × (p₂ : Process)
    × (monitor_step digraphs floats (λ n. arrived none) exited 0 crashed (holding crashed)
        ≡ (s₁, false, some (0, restart_delay floats policy 0)))
    × (deref s₁ 0 ≡ some q)
    × (start_and_notify working 0 q s₁ ≡ (s₂, none))
    × (find s₂ "db" ≡ some (0, p₂))
    × (is_up p₂.status ≡ true)
    × (is_process_alive p₂ ≡ true)
    × (p₂.restart_attempts ≡ 1)
    × (s₂.monitors ≡ 0 ∷ s₁.monitors)
unfolding find tunneld.Prelude.lookup tunneld.Daemon.Process.new_process
    tunneld.Daemon.Supervisor.Failure.is_exhausted tunneld.Prelude.int32
    tunneld.Daemon.Process.start tunneld.Tunnel.Ports.resolve_ports Tunnel.from_proto
monitor_recovers_example =
    monitor_recovers digraphs floats (λ n. arrived none) working "db" (holding crashed) 0 crashed
      policy refl refl refl refl refl refl refl refl

-- A request for the tunnel on another port.
abbrev moved : PutRequest
moved = record { spec = some (message "db" [] (pos 5433)); inline_keys = []; persistent = false }

abbrev env : Env
env = record { key_writes = λ n. on_disk; save = saving; start = working; waited = arrived none }

abbrev never_equal : TunnelSpec → TunnelSpec → Bool
never_equal a b = false

abbrev updated : Supervisor Digraph
updated = (update digraphs never_equal env moved extended).0

updated-eq : update digraphs never_equal env moved extended ≡ (updated, response tt)
unfolding update Tunnel.from_proto tunneld.Daemon.Supervisor.list_tunnels add_tunnel
    tunneld.Prelude.lookup tunneld.Daemon.Supervisor.check_port_conflicts
    tunneld.Config.Convert.from_proto tunneld.Dependency.plan tunneld.Dependency.add_spec
    tunneld.Prelude.insert tunneld.Dependency.new_planner tunneld.Dependency.connect_deps
    tunneld.Dependency.Laws.range_from start_and_notify tunneld.Daemon.Process.start
    tunneld.Tunnel.Ports.resolve_ports remove_tunnel tunneld.Api.Tunnels.receive_spec
    tunneld.Api.Tunnels.save_keys tunneld.Api.Tunnels.unchanged tunneld.Config.Convert.backoff_of
    tunneld.Config.Convert.kubectl_forward_of tunneld.Config.Convert.ssh_forward_of
    tunneld.Daemon.Process.alive_run tunneld.Daemon.Process.cancel_run
    tunneld.Daemon.Process.end_run tunneld.Daemon.Process.exit is_process_alive
    tunneld.Daemon.Process.stop tunneld.Daemon.Supervisor.Operations.persist
    tunneld.Daemon.Supervisor.Operations.start_tunnel find tunneld.Daemon.Supervisor.info_of
    tunneld.Daemon.Supervisor.infos_from tunneld.Daemon.Supervisor.save_key
    tunneld.Dependency.add_vertices tunneld.Dependency.collect tunneld.Dependency.connect_all
    tunneld.Dependency.index_of tunneld.Dependency.remove_spec tunneld.Prelude.delete
    tunneld.Prelude.join_host_port tunneld.Prelude.show tunneld.Tunnel.Command.build_command
    tunneld.Tunnel.Command.build_kubectl tunneld.Tunnel.Command.build_ssh
    tunneld.Tunnel.Command.has_option tunneld.Tunnel.Command.key_path
    tunneld.Tunnel.Command.kubectl_args tunneld.Tunnel.Command.ssh_args
    tunneld.Tunnel.Ports.actual_port tunneld.Tunnel.Ports.allocate_port
    tunneld.Tunnel.Ports.kubectl_keys tunneld.Tunnel.Ports.local_port_keys
    tunneld.Tunnel.Ports.resolve_kubectl tunneld.Tunnel.Ports.resolve_ssh
    tunneld.Tunnel.Ports.ssh_keys
updated-eq = refl

update-registry_example :
    (p : TunnelSpec) × (new_spec : Spec) × (moved.spec ≡ some p)
    × (Tunnel.from_proto p ≡ ok new_spec)
    × (new : Spec) × (registry updated (Tunnel.name new_spec) ≡ some new)
    × ((new ≡ new_spec) ⊎ (never_equal (Tunnel.to_proto new) (Tunnel.to_proto new_spec) ≡ true))
    × ((n : String)
        → registry updated n
          ≡ (if Tunnel.name new_spec == n then some new else registry extended n))
update-registry_example =
    update-registry digraphs never_equal env moved extended extended-IsValid updated-eq

-- The tunnel gives up its first command after a health timeout.
timeout_keeps_commands_example :
    (s₁ : Supervisor Digraph) × (q : Process) × (s₂ : Supervisor Digraph) × (p₂ : Process)
    × (monitor_step digraphs floats
          (λ n. arrived none)
          (tick (some (io "refused")) true)
          0
          busy
          (holding busy)
        ≡ (s₁, false, some (0, restart_delay floats policy 0)))
    × (deref s₁ 0 ≡ some q)
    × (start_and_notify working 0 q s₁ ≡ (s₂, none))
    × (find s₂ "db" ≡ some (0, p₂))
    × (p₂.runs
        ≡ record { id = 1; alive = true; cancelled = false }
          ∷ record { id = 0; alive = true; cancelled = false }
          ∷ [])
unfolding find tunneld.Prelude.lookup tunneld.Daemon.Process.new_process
    tunneld.Daemon.Supervisor.Failure.is_exhausted tunneld.Prelude.int32
    tunneld.Daemon.Process.start tunneld.Tunnel.Ports.resolve_ports Tunnel.from_proto
    tunneld.Dependency.dependents_of tunneld.Dependency.new_planner
    tunneld.Daemon.Process.increment_attempts
timeout_keeps_commands_example =
    timeout_keeps_commands digraphs floats (λ n. arrived none) working "db" (holding busy) 0 busy
      policy (io "refused") refl refl refl refl refl refl refl refl
