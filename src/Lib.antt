-- ===== src/Lib.antt =====
-- tunneld keeps SSH and kubectl port-forward tunnels running: a daemon that supervises the commands,
-- a gRPC API in front of it, and a Kubernetes agent and controllers that drive it. This library
-- models the Go code and proves what its parts promise.
--
-- The parts, and where they are:
--   Prelude        shared names, integers of Go (int32), lists, maps and texts
--   Errors         a constructor for each message that the sources build, and a result type
--   Proto          the messages of pkg/api/v1/spec.pb.go; Proto.Durations is durationpb as documented
--   Constants      internal/constants/constants.go
--   Tunnel         internal/tunnel: Spec and FromProto; Tunnel.Ports is ResolvePortsInProto and
--                  LocalPortKeys, Tunnel.Command the two BuildCommand methods (what ssh
--                  and kubectl ask for by them is in its children Reads and Kubectl), Tunnel.Build the
--                  constructors NewSSHSpec and NewKubectlSpec
--   Config         internal/config/config.go: Load, Save and SetEnabled; Config.Convert is FromProto,
--                  ToProto and ToSpec, Config.Validate is ToSpecs and Validate
--   Dependency     internal/dependency/planner.go: AddSpec, RemoveSpec, Plan and DependentsOf, over
--                  the interface `Graphs` of the gographs module, whose laws are in Dependency.Laws
--   Daemon.Process internal/daemon/process.go: Start, its exit goroutine and Stop; its child Health
--                  has EffectiveHealthCheck and internal/health/checker.go
--   Daemon.Supervisor  internal/daemon/supervisor.go: the state, Run, ListTunnels and the port check;
--                  Operations has AddTunnel to StopTunnel, Failure has the monitor and
--                  handleFailure, Waiting has WaitHealthy; Invariant and Quiet say what a valid
--                  state is and what most operations keep, Steps puts all steps in any order
--   Api            internal/api: the handlers of grpc_server.go (Api.Tunnels, and Api.Streams for
--                  Logs and WatchStatus) and key_server.go (Api.Keys); Api.Peers is creds.go and
--                  polkit.go
--   Cmd            Cmd.Daemon is plan, validate and run of cmd/tunneld/cmd; Cmd.Client the commands
--                  of cmd/tunnelctl/cmd, with Slurp for slurp.go, Load for load.go and create.go,
--                  and Show for status.go, wait.go and logs.go
--   K8s            k8s: Types has the resources, Convert and Agent k8s/agent, and Nodes, Services,
--                  Scheduling, Groups and Keys k8s/controllers; Client has the calls of
--                  controller-runtime, with the laws of CreateOrUpdate
--   Examples       concrete inputs, and the theorems at them
--
-- How the parts interact: a handler of Api changes the Supervisor, which plans with Dependency, starts
-- a Process and leaves a monitor for it; a Process builds its command by Tunnel. The controller writes
-- a node on a Tunnel, the agent of that node converts it and pushes it to the API. The command run
-- builds the planner and the Supervisor from a validated configuration; the client's commands call the
-- server, which is a parameter there.
--
-- Operations are functions from a state to a state and an answer: an `Option Err`, none for success,
-- or a `Result`. What the operating system, the file system, YAML, gRPC or the API server answers is an
-- argument. A pointer to a Process is an index into a heap; the mutex of the supervisor makes an
-- operation one step, and the goroutines are steps of their own (`exit`, `monitor_step`). A Go map is
-- an association list, whose order stands for the order of a visit. Numbers are exact, int32
-- wraps around, and a Duration of a message converts with saturation at an int64; floating-point powers
-- are a parameter. Keys are files by the path that filepath.Join gives, which is a parameter. All loops are structural, so there is no fuel but
-- that of `show`, one round for each digit at least. WaitHealthy reads a list of polls, and is still
-- waiting when the list ends first.
--
-- A step relation (Daemon.Supervisor.Steps) has Run as its first step, on a supervisor without tunnels:
-- calls that arrive before Run are left out.
--
-- Not modelled: the log files that Start writes, flags and the layout of what the commands print, the
-- serving of gRPC and the signal handler of run, the gRPC connection of the agent, generated code, and
-- the set-up of the controller managers, which are calls of libraries.
pub mod Prelude
pub mod Errors
pub mod Proto
pub mod Constants
pub mod Tunnel
pub mod Config
pub mod Dependency
pub mod Daemon
pub mod Api
pub mod Cmd
pub mod K8s
pub mod Examples
