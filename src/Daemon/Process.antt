-- ===== src/Daemon/Process.antt =====
-- internal/daemon/process.go. The mutex is left out: each method is one step, and the goroutines
-- that Start spawns are steps of their own. The log files are not modelled.
pub mod Again
pub mod Health
pub mod Life
use tunneld.Prelude.{
  ℕ, suc, ◌+◌, String, ℤ, pos, Bool, true, false, not, ◌&&◌, ◌||◌, Option, none, some, List, [],
  ◌∷◌, eqb, eq_ℤ, length, if◌then◌else◌,
}
use tunneld.Errors.{Err, Result, ok, err, ◌>>=◌, map_err, already_running, start_failed}
use tunneld.Proto.{TunnelSpec}
use tunneld.Tunnel
use tunneld.Tunnel.{Spec, Status, stopped, starting, running, degraded, failed}
use tunneld.Tunnel.Ports.{PortMapping, Listens, resolve_ports}
use tunneld.Tunnel.Command.{Files, Cmd, build_command}

pub data ExpectedState : Type 0 where
  desired_running desired_stopped desired_disabled : ExpectedState

-- A command that cmd.Start launched: the context that ends it, and whether it still runs.
pub record Run : Type 0 where
  pub id : ℕ
  pub alive : Bool
  pub cancelled : Bool

-- p.cmd: the run that it launched, or none before cmd.Start succeeds.
pub data Launched : Type 0 where
  no_command : Launched
  not_started : Launched
  started : ℕ → Launched

-- `cancel` is the run whose context p.cancel ends. `wait_ch` is the channel of capacity 1, with
-- what was sent on it; nil before the first start. `runs` are the commands launched so far.
pub record Process : Type 0 where
  pub spec : Spec
  pub cmd : Launched
  pub status : Status
  pub last_error : Option Err
  pub cancel : Option ℕ
  pub wait_ch : Option (List (Option Err))
  pub expected_state : ExpectedState
  pub key_dir : String
  pub port_mappings : List PortMapping
  pub restart_attempts : ℕ
  pub runs : List Run

unfoldable pub new_process : Spec → String → Process
new_process spec key_dir = record {
  spec = spec;
  cmd = no_command;
  status = stopped;
  last_error = none;
  cancel = none;
  wait_ch = none;
  expected_state = desired_stopped;
  key_dir = key_dir;
  port_mappings = [];
  restart_attempts = 0;
  runs = [];
}

unfoldable pub increment_attempts : Process → Process
increment_attempts p = record p { restart_attempts = p.restart_attempts + 1 }

unfoldable pub reset_attempts : Process → Process
reset_attempts p = record p { restart_attempts = 0 }

abbrev pub is_idle : Status → Bool
is_idle stopped = true
is_idle failed = true
is_idle _ = false

-- What the operating system answers during one Start; `none` is success.
pub record StartEnv : Type 0 where
  pub make_log_dir : Option Err
  pub open_log : Option Err
  pub ports : Listens
  pub files : Files
  pub stdout : Option Err
  pub stderr : Option Err
  pub launch : Option Err

-- A chain of checks of which the first failure counts.
infixr 20 ◌<|>◌
abbrev pub ◌<|>◌ : Option Err → Option Err → Option Err
none <|> b = b
some e <|> b = some e

-- From the built command on: pipes, cmd.Start, and the fields that a success sets.
launch_command : StartEnv → Process → Process × Option Err
launch_command env p =
    let id = length p.runs in
    elim (env.stdout <|> (env.stderr <|> env.launch)) [
      | some e ↦ (record p { cmd = not_started }, some e)
      | none ↦ (
        record p {
          cmd = started id;
          status = starting;
          last_error = none;
          wait_ch = some [];
          runs = record { id = id; alive = true; cancelled = false } ∷ p.runs;
        },
        none,
      )
    ]

-- BuildCommand on the resolved spec. FromProto has refused a spec without a type.
build : StartEnv → TunnelSpec → Process → Process × Option Err
unfolding launch_command build_command
build env spec p = elim (Tunnel.from_proto spec) [
  | err e ↦ (p, some (start_failed e))
  | ok s ↦ elim (build_command env.files p.key_dir (Tunnel.to_proto s).type) [
    | none ↦ (p, some (start_failed Err.nil_pointer))
    | some (err e) ↦ (p, some e)
    | some (ok c) ↦ launch_command env p
  ]
]

-- The part of Start below the log file.
prepare : StartEnv → Process → Process × Option Err
unfolding build
prepare env p = elim (resolve_ports (Tunnel.to_proto p.spec) env.ports) [
  | err e ↦ (p, some (start_failed e))
  | ok (spec, ms, rest) ↦ build env spec (record p { port_mappings = ms })
]

-- Start. The new context is that of the run to come, `length p.runs`.
unfoldable pub start : StartEnv → Process → Process × Option Err
unfolding prepare
start env p =
    if not (is_idle p.status)
    then (p, some already_running)
    else let p₁ = record p { expected_state = desired_running } in
      elim (env.make_log_dir <|> env.open_log) [
        | some e ↦ (p₁, some (start_failed e))
        | none ↦ prepare env (record p₁ { cancel = some (length p.runs) })
      ]

-- The run `id` is no longer alive.
unfoldable pub end_run : ℕ → List Run → List Run
end_run id [] = []
end_run id (r ∷ rs) = (if eqb r.id id then record r { alive = false } else r) ∷ end_run id rs

-- Its context is cancelled.
unfoldable pub cancel_run : ℕ → List Run → List Run
cancel_run id [] = []
cancel_run id (r ∷ rs) =
    (if eqb r.id id then record r { cancelled = true } else r) ∷ cancel_run id rs

abbrev exit_status : Option Err → Status
exit_status none = stopped
exit_status (some e) = failed

abbrev exit_error : Option Err → Option Err → Option Err
exit_error none old = old
exit_error (some e) old = some e

-- A send on a channel of capacity 1: a full channel keeps what it has, and the sender waits.
abbrev pub send : Option Err → Option (List (Option Err)) → Option (List (Option Err))
send x none = none
send x (some []) = some (x ∷ [])
send x (some (y ∷ ys)) = some (y ∷ ys)

-- The goroutine at the end of Start, when cmd.Wait of the run `id` returns. It writes to the
-- process, whichever run the process has come to by then.
unfoldable pub exit : ℕ → Option Err → Process → Process
unfolding end_run
exit id e p = record p {
  status = exit_status e;
  last_error = exit_error e p.last_error;
  wait_ch = send e p.wait_ch;
  runs = end_run id p.runs;
}

-- A receive from the channel.
abbrev pub receive : Option (List (Option Err)) → Option (List (Option Err))
receive none = none
receive (some []) = some []
receive (some (x ∷ xs)) = some xs

abbrev cancel_of : Option ℕ → List Run → List Run
cancel_of none rs = rs
cancel_of (some id) rs = cancel_run id rs

-- How the wait of Stop ends: the exit of the run arrives, or the timeout; the kill is asked only
-- after a timeout that is not 0, and has an answer.
pub data Waited : Type 0 where
  arrived : Option Err → Waited
  timed_out : Option Err → Waited

-- The process after the cancellation.
signal : Process → Process
unfolding cancel_run
signal p = record p { expected_state = desired_stopped; runs = cancel_of p.cancel p.runs }

-- The select on an empty channel.
await_exit : Waited → ℕ → Process → Process × Option Err
unfolding exit
await_exit (arrived e) id p =
    let p' = exit id e p in (record p' { wait_ch = receive p'.wait_ch }, none)
await_exit (timed_out killed) id p =
    (p, (if eq_ℤ (Tunnel.shutdown_timeout p.spec) (pos 0) then none else killed))

abbrev has_value : Option (List (Option Err)) → Bool
has_value none = false
has_value (some []) = false
has_value (some (x ∷ xs)) = true

-- Nothing is waited for where no command was launched.
await : Waited → Launched → Process → Process × Option Err
unfolding await_exit
await w no_command p = (p, none)
await w not_started p = (p, none)
await w (started id) p =
    if has_value p.wait_ch
    then (record p { wait_ch = receive p.wait_ch }, none)
    else await_exit w id p

unfoldable pub stop : Waited → Process → Process × Option Err
unfolding signal await
stop w p = await w p.cmd (signal p)

unfoldable pub alive_run : ℕ → List Run → Bool
alive_run id [] = false
alive_run id (r ∷ rs) = if eqb r.id id then r.alive else alive_run id rs

is_launched_alive : Launched → List Run → Bool
is_launched_alive no_command rs = false
is_launched_alive not_started rs = false
is_launched_alive (started id) rs = alive_run id rs

-- IsProcessAlive: cmd.ProcessState is nil until cmd.Wait has returned.
unfoldable pub is_process_alive : Process → Bool
unfolding is_launched_alive alive_run
is_process_alive p = is_launched_alive p.cmd p.runs
