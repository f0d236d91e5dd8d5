-- ===== src/Daemon/Process/Health.antt =====
-- EffectiveHealthCheck of internal/daemon/process.go, and internal/health/checker.go.
-- net.SplitHostPort is a parameter, `none` for its error.
use tunneld.Prelude.{
  String, ℤ, pos, not, ◌&&◌, Option, none, some, List, [], ◌∷◌, ◌==◌, eq_ℤ, show, join_host_port,
  if◌then◌else◌,
}
use tunneld.Constants.{default_health_timeout}
use tunneld.Errors.{Err}
use tunneld.Proto.{HealthCheckSpec, as_duration}
use tunneld.Tunnel
use tunneld.Tunnel.Ports.{PortMapping}
use tunneld.Daemon.Process.{Process}

-- The loop over the mappings: the first dynamic one of the host gives the port.
unfoldable pub dynamic_port : String → List PortMapping → Option ℤ
dynamic_port host [] = none
dynamic_port host (m ∷ ms) =
    if m.local_address == host && eq_ℤ m.configured_port (pos 0)
    then some m.actual_port
    else dynamic_port host ms

module _ (split_host_port : String → Option (String × String)) where
  effective : HealthCheckSpec → List PortMapping → HealthCheckSpec
  unfolding dynamic_port
  effective h ms = if h.address == "" then h else elim (split_host_port h.address) [
    | none ↦ h
    | some (host, port) ↦ if not (port == "0") then h else elim (dynamic_port host ms) [
      | none ↦ h
      | some p ↦ record h { address = join_host_port host (show p) }
    ]
  ]

  unfoldable pub effective_health_check : Process → Option HealthCheckSpec
  unfolding effective
  effective_health_check p = elim (Tunnel.health_check p.spec) [
    | none ↦ none
    | some h ↦ some (effective h p.port_mappings)
  ]

-- health.Checker
pub data Checker : Type 0 where
  tcp_checker : String → ℤ → Checker
  none_checker : Checker

-- NewTCPChecker
unfoldable pub new_tcp_checker : HealthCheckSpec → Checker
new_tcp_checker h =
    let t = as_duration h.timeout in
    tcp_checker h.address (if eq_ℤ t (pos 0) then default_health_timeout else t)

-- NewChecker
unfoldable pub new_checker : Option HealthCheckSpec → Checker
unfolding new_tcp_checker
new_checker none = none_checker
new_checker (some h) = if h.type == "tcp" then new_tcp_checker h else none_checker

-- Check, with net.Dialer.DialContext as a parameter; `none` is success.
unfoldable pub check : (String → ℤ → Option Err) → Checker → Option Err
check dial (tcp_checker address timeout) = dial address timeout
check dial none_checker = none
