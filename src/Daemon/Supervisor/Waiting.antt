-- ===== src/Daemon/Supervisor/Waiting.antt =====
-- WaitHealthy of internal/daemon/supervisor.go.
pub mod Laws
use tunneld.Prelude.{
  String, ℤ, pos, Bool, true, false, Option, none, some, List, [], ◌∷◌, eq_ℤ, is_some, not,
  if◌then◌else◌,
}
use tunneld.Constants.{default_wait_timeout}
use tunneld.Errors.{Err, tunnel_not_found, tunnel_failed, wait_timeout}
use tunneld.Tunnel
use tunneld.Tunnel.{Status, stopped, starting, running, degraded, failed}
use tunneld.Daemon.Process.{Process}
use tunneld.Daemon.Supervisor.{Supervisor, find}
use tunneld.Daemon.Supervisor.Failure.{restarts}

-- What the select of the loop meets, with the status of the process then: the end of the caller's
-- context with its error, or a tick, and whether the deadline is over.
pub data Poll : Type 0 where
  cancelled : Status → Err → Poll
  ticked : Status → Bool → Poll

-- The rest of a tick, behind the return for a running tunnel.
poll_rest : Bool → Status → Bool → Option (Status × Option Err)
poll_rest false failed late = some (failed, some tunnel_failed)
poll_rest restarting status true = some (status, some wait_timeout)
poll_rest restarting status false = none

-- One round; `none` goes on waiting. `restarting` says whether the tunnel has a restart policy.
unfoldable pub poll : Bool → Poll → Option (Status × Option Err)
unfolding poll_rest
poll restarting (cancelled status e) = some (status, some e)
poll restarting (ticked running late) = some (running, none)
poll restarting (ticked status late) = poll_rest restarting status late

-- The loop, over what the select meets. `none`: it still waits when the polls are over.
unfoldable pub poll_all : Bool → List Poll → Option (Status × Option Err)
unfolding poll
poll_all restarting [] = none
poll_all restarting (x ∷ xs) = elim (poll restarting x) [
  | some r ↦ some r
  | none ↦ poll_all restarting xs
]

-- if timeout == 0 { timeout = constants.DefaultWaitTimeout }
unfoldable pub wait_for : ℤ → ℤ
wait_for t = if eq_ℤ t (pos 0) then default_wait_timeout else t

abbrev is_running : Status → Bool
is_running running = true
is_running _ = false

-- The status is none, "" in Go, only where there is no such tunnel.
unfoldable pub wait_healthy :
    {Graph : Type 0} → Supervisor Graph → String → List Poll → Option (Option Status × Option Err)
unfolding poll_all
wait_healthy s name polls = elim (find s name) [
  | none ↦ some (none, some (tunnel_not_found name))
  | some (i, p) ↦
      if is_running p.status
      then some (some running, none)
      else elim (poll_all (is_some (restarts (Tunnel.restart_policy p.spec))) polls) [
        | none ↦ none
        | some (status, e) ↦ some (some status, e)
      ]
]
