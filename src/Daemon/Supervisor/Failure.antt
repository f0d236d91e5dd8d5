-- ===== src/Daemon/Supervisor/Failure.antt =====
-- The goroutine of startAndNotify and handleFailure, of internal/daemon/supervisor.go. The sleep
-- before a restart splits handleFailure in two steps: `handle_failure` says which process to start
-- again and after what delay, and the restart is `start_and_notify`.
pub mod Delay
pub mod Keeps
pub mod Policy
pub mod Recovery
pub mod Timeout
use tunneld.Prelude.{
  ℕ, zero, suc, ◌+◌, ◌<◌, String, ℤ, pos, Bool, true, false, not, ◌&&◌, ◌||◌, Option, none, some,
  List, [], ◌∷◌, GoMap, int32, eq_ℤ, ltb_ℤ, leb_ℤ, ltb, if◌then◌else◌, ◌==◌,
}
use tunneld.Errors.{Err, Result, ok, err, io, wrapped}
use tunneld.Constants.{default_startup_timeout, default_health_interval}
use tunneld.Dependency.{Graphs, dependents_of}
use tunneld.Proto.{RestartPolicySpec, BackoffSpec, as_duration}
use tunneld.Tunnel
use tunneld.Tunnel.{Spec, Status, stopped, running, failed}
use tunneld.Daemon.Process
use tunneld.Daemon.Process.{
  Process, ExpectedState, desired_running, desired_stopped, desired_disabled, Waited,
  increment_attempts, reset_attempts, receive,
}
use tunneld.Daemon.Supervisor.{Supervisor, deref, store, find}

-- The floating-point arithmetic of the delay. `scale d m n` is
-- time.Duration(float64(d) * math.Pow(float64(m), float64(n))), for the bits `m` of a float32.
pub record Floats : Type 0 where
  pub is_positive : ℕ → Bool
  pub two : ℕ
  pub scale : ℤ → ℕ → ℕ → ℤ

module _ (F : Floats) where
  -- if maxDelay > 0 && backoffDelay > maxDelay
  cap_delay : ℤ → ℤ → ℤ
  cap_delay max d = if ltb_ℤ (pos 0) max && ltb_ℤ max d then max else d

  backoff_delay : BackoffSpec → ℤ → ℕ → ℤ
  unfolding cap_delay
  backoff_delay b delay attempts =
      let m = if F.is_positive b.multiplier then b.multiplier else F.two in
      cap_delay (as_duration b.max_delay) (F.scale delay m attempts)

  -- The delay before restart number `attempts + 1`.
  unfoldable pub restart_delay : RestartPolicySpec → ℕ → ℤ
  unfolding backoff_delay
  restart_delay r attempts = elim r.backoff [
    | none ↦ as_duration r.delay
    | some b ↦
        if ltb 0 attempts
        then backoff_delay b (as_duration r.delay) attempts
        else as_duration r.delay
  ]

-- policy == nil || policy.Policy == "never", and the policy otherwise.
unfoldable pub restarts : Option RestartPolicySpec → Option RestartPolicySpec
restarts none = none
restarts (some r) = if r.policy == "never" then none else some r

-- policy.MaxAttempts > 0 && int32(attempts) >= policy.MaxAttempts
unfoldable pub is_exhausted : RestartPolicySpec → ℕ → Bool
is_exhausted r attempts =
    ltb_ℤ (pos 0) r.max_attempts && leb_ℤ r.max_attempts (int32 (pos attempts))

abbrev is_stopped : Status → Bool
is_stopped stopped = true
is_stopped _ = false

abbrev pub is_wanted : ExpectedState → Bool
is_wanted desired_running = true
is_wanted _ = false

module _ {Graph : Type 0} where
  -- The loop over the dependents; the answer of Stop is dropped.
  unfoldable pub stop_dependents :
      (String → Waited) → List String → Supervisor Graph → Supervisor Graph
  stop_dependents waits [] s = s
  stop_dependents waits (d ∷ ds) s = stop_dependents waits ds (elim (find s d) [
    | none ↦ s
    | some (i, p) ↦ if is_stopped p.status then s else store i (Process.stop (waits d) p).0 s
  ])

-- hSpec.GetStartupTimeout and GetInterval, with their defaults.
unfoldable pub startup_timeout : ℤ → ℤ
startup_timeout t = if eq_ℤ t (pos 0) then default_startup_timeout else t

unfoldable pub interval : ℤ → ℤ
interval t = if leb_ℤ t (pos 0) then default_health_interval else t

abbrev is_running : Status → Bool
is_running running = true
is_running _ = false

-- A tick whose check succeeded.
healthy : Process → Process
healthy p =
    if is_running p.status
    then p
    else reset_attempts (record p { status = running; last_error = none })

-- What a monitor meets next. A tick carries the answer of the check and whether the time since
-- the start is over the startup timeout.
pub data MonitorEvent : Type 0 where
  done : MonitorEvent
  exited : MonitorEvent
  tick : Option Err → Bool → MonitorEvent

-- max restart attempts reached
abbrev pub attempts_reached : Err
attempts_reached = io "max restart attempts reached"

module _ (G : Graphs) (F : Floats) where
  open G use {Graph}

  -- The restart policy: the pointer to start again and the delay, or the end of the attempts.
  apply_policy : ℕ → Process → Supervisor Graph → Supervisor Graph × Option (ℕ × ℤ)
  unfolding restarts is_exhausted restart_delay
  apply_policy i p s = elim (restarts (Tunnel.restart_policy p.spec)) [
    | none ↦ (s, none)
    | some r ↦
        if is_exhausted r p.restart_attempts
        then (store i (record p { status = failed; last_error = some attempts_reached }) s, none)
        else (store i (increment_attempts p) s, some (i, restart_delay F r p.restart_attempts))
  ]

  -- A process is read again through its pointer, since a cycle of stops may have changed it.
  pub after_stops : ℕ → Supervisor Graph → Supervisor Graph × Option (ℕ × ℤ)
  unfolding apply_policy
  after_stops i s = elim (deref s i) [ none ↦ (s, none) | some p ↦ apply_policy i p s ]

  -- handleFailure up to the sleep.
  unfoldable pub handle_failure :
      (String → Waited) → String → Supervisor Graph → Supervisor Graph × Option (ℕ × ℤ)
  unfolding stop_dependents after_stops
  handle_failure waits name s = elim (find s name) [
    | none ↦ (s, none)
    | some (i, p) ↦
        if not (is_wanted p.expected_state)
        then (s, none)
        else after_stops i (elim (dependents_of G name s.planner) [
          | err e ↦ s
          | ok ds ↦ stop_dependents waits ds s
        ])
  ]

  -- One round of the loop, for the process `p` at `i`. The Boolean says whether the loop goes on;
  -- a pair asks for a restart.
  unfoldable pub monitor_step :
      (String → Waited)
      → MonitorEvent
      → ℕ
      → Process
      → Supervisor Graph
      → Supervisor Graph × Bool × Option (ℕ × ℤ)
  unfolding healthy reset_attempts
  monitor_step waits done i p s = (s, false, none)
  monitor_step waits exited i p s =
      let s₁ = store i (record p { wait_ch = receive p.wait_ch }) s in
      let (s₂, r) = handle_failure waits (Tunnel.name p.spec) s₁ in (s₂, false, r)
  monitor_step waits (tick none late) i p s = (store i (healthy p) s, true, none)
  monitor_step waits (tick (some e) false) i p s = (s, true, none)
  monitor_step waits (tick (some e) true) i p s =
      let s₁ =
        store i (record p { status = failed; last_error = some (wrapped "health check timeout" e) })
          s in
      let (s₂, r) = handle_failure waits (Tunnel.name p.spec) s₁ in (s₂, false, r)
