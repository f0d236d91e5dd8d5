-- ===== src/Daemon/Process/Life.antt =====
-- The life of a process: what a start, an exit and a stop make of it.
use tunneld.Prelude.{
  ℕ, ◌≡◌, refl, ◌≢◌, inl, inr, true, false, Option, none, some, List, [], ◌∷◌, length, arith,
  Bool-cases, Option-cases,
}
use tunneld.Errors.{Err, Result-cases}
use tunneld.Proto.{TunnelSpec}
use tunneld.Tunnel
use tunneld.Tunnel.{stopped, starting, running, failed}
use tunneld.Tunnel.Ports.{resolve_ports}
use tunneld.Tunnel.Command.{build_command}
use tunneld.Daemon.Process.{
  Waited, arrived, timed_out, Launched, no_command, not_started, signal, await, await_exit,
  has_value, stop, Process, StartEnv, Run, started, desired_running, is_idle, ◌<|>◌, launch_command,
  build, prepare, start, end_run, exit, alive_run, is_process_alive,
}

-- What a successful launch leaves: the run is alive, the process points to it and starts.
abbrev pub Started : Process → Process → Type 0
Started p p' =
    (p'.status ≡ starting)
    × (p'.cmd ≡ started (length p.runs))
    × (p'.last_error ≡ none)
    × (p'.runs ≡ record { id = length p.runs; alive = true; cancelled = false } ∷ p.runs)
    × (p'.wait_ch ≡ some [])
    × (p'.restart_attempts ≡ p.restart_attempts)
    × (p'.spec ≡ p.spec)
    × (p'.expected_state ≡ p.expected_state)
    × (p'.cancel ≡ p.cancel)

-- What a failed one keeps.
abbrev pub NotStarted : Process → Process → Type 0
NotStarted p p' =
    (p'.status ≡ p.status)
    × (p'.runs ≡ p.runs)
    × (p'.last_error ≡ p.last_error)
    × (p'.restart_attempts ≡ p.restart_attempts)
    × (p'.spec ≡ p.spec)

abbrev Launch : Process → Process → Option Err → Type 0
Launch p p' none = Started p p'
Launch p p' (some e) = NotStarted p p'

launch_command_lem :
    (env : StartEnv) (p : Process) → Launch p (launch_command env p).0 (launch_command env p).1
unfolding launch_command
launch_command_lem env p = elim (Option-cases (env.stdout <|> (env.stderr <|> env.launch))) [
  | inl e ↦ ground (arith, e)
  | inr (x, e) ↦ ground (arith, e)
]

build_lem :
    (env : StartEnv) (spec : TunnelSpec) (p : Process)
    → Launch p (build env spec p).0 (build env spec p).1
unfolding build
build_lem env spec p = elim (Result-cases (Tunnel.from_proto spec)) [
  | inr (x, e) ↦ ground (arith, e)
  | inl (s, e) ↦ elim (Option-cases (build_command env.files p.key_dir (Tunnel.to_proto s).type)) [
    | inl f ↦ ground (arith, e, f)
    | inr (r, f) ↦ elim (Result-cases r) [
      | inl (c, g) ↦ ground (arith, e, f, g, launch_command_lem env p)
      | inr (x, g) ↦ ground (arith, e, f, g)
    ]
  ]
]

prepare_lem : (env : StartEnv) (p : Process) → Launch p (prepare env p).0 (prepare env p).1
unfolding prepare
prepare_lem env p = elim (Result-cases (resolve_ports (Tunnel.to_proto p.spec) env.ports)) [
  | inr (x, e) ↦ ground (arith, e)
  | inl ((spec, ms, rest), e) ↦
      ground (arith, e, build_lem env spec (record p { port_mappings = ms }))
]

-- A start that succeeds found the process stopped or failed, and leaves it starting, wanted, and
-- with the new command alive; the restart attempts stay.
pub start_lem :
    (env : StartEnv) (p : Process) {p' : Process}
    → start env p ≡ (p', none)
    → (is_idle p.status ≡ true)
      × (p'.status ≡ starting)
      × (p'.expected_state ≡ desired_running)
      × (is_process_alive p' ≡ true)
      × (p'.restart_attempts ≡ p.restart_attempts)
      × (p'.spec ≡ p.spec)
      × (p'.runs ≡ record { id = length p.runs; alive = true; cancelled = false } ∷ p.runs)
unfolding start is_process_alive alive_run
start_lem env p h = elim (Bool-cases (is_idle p.status)) [
  | inr e ↦ absurd (ground (arith, e, h))
  | inl e ↦ elim (Option-cases (env.make_log_dir <|> env.open_log)) [
    | inr (x, f) ↦ absurd (ground (arith, e, f, h))
    | inl f ↦ ground (
      arith,
      e,
      f,
      h,
      prepare_lem env
          (record p { expected_state = desired_running; cancel = some (length p.runs) }),
    )
  ]
]

-- A start that fails launches nothing, and leaves the status, the error and the attempts.
pub start_failed-NotStarted :
    (env : StartEnv) (p : Process) {p' : Process} {x : Err}
    → start env p ≡ (p', some x)
    → NotStarted p p'
unfolding start
start_failed-NotStarted env p h = elim (Bool-cases (is_idle p.status)) [
  | inr e ↦ ground (arith, e, h)
  | inl e ↦ elim (Option-cases (env.make_log_dir <|> env.open_log)) [
    | inr (x, f) ↦ ground (arith, e, f, h)
    | inl f ↦ ground (
      arith,
      e,
      f,
      h,
      prepare_lem env
          (record p { expected_state = desired_running; cancel = some (length p.runs) }),
    )
  ]
]

alive-end_run :
    (id now : ℕ) (rs : List Run) → id ≢ now → alive_run now (end_run id rs) ≡ alive_run now rs
unfolding alive_run end_run
alive-end_run id now [] ne = refl
alive-end_run id now (r ∷ rs) ne = ground (arith, alive-end_run id now rs ne)

-- The exit of an earlier command, while the process points to a later one that is alive, marks
-- the process as not running although its command lives on.
pub exit_stale :
    (id now : ℕ) (e : Option Err) (p : Process)
    → id ≢ now
    → p.cmd ≡ started now
    → is_process_alive p ≡ true
    → (is_process_alive (exit id e p) ≡ true) × (is_idle (exit id e p).status ≡ true)
unfolding exit is_process_alive alive_run end_run
exit_stale id now e p ne c a = ground (arith, c, a, alive-end_run id now p.runs ne)

await_exit-spec : (w : Waited) (id : ℕ) (p : Process) → (await_exit w id p).0.spec ≡ p.spec
unfolding await_exit exit
await_exit-spec (arrived e) id p = refl
await_exit-spec (timed_out k) id p = refl

await-spec : (w : Waited) (l : Launched) (p : Process) → (await w l p).0.spec ≡ p.spec
unfolding await
await-spec w no_command p = refl
await-spec w not_started p = refl
await-spec w (started id) p = elim (Bool-cases (has_value p.wait_ch)) [
  | inl e ↦ ground (arith, e)
  | inr e ↦ ground (arith, e, await_exit-spec w id p)
]

-- A stop keeps the spec.
pub stop-spec : (w : Waited) (p : Process) → (stop w p).0.spec ≡ p.spec
unfolding stop signal
stop-spec w p = await-spec w p.cmd (signal p)
