-- ===== src/Tunnel.antt =====
-- internal/tunnel/spec.go, and the parts of ssh.go and kubectl.go that every tunnel has.
-- The interface `Spec` has two implementations, each of which wraps the message.
pub mod Ports
pub mod Build
pub mod Command
pub mod Wraps
use tunneld.Prelude.{String, ℤ, Option, List}
use tunneld.Errors.{Result, ok, err, unknown_tunnel_type}
use tunneld.Proto.{
  TunnelSpec, SpecType, unset, ssh, kubectl, HealthCheckSpec, RestartPolicySpec, as_duration,
}

pub data Status : Type 0 where
  stopped starting running degraded failed : Status

pub Status-discrete : Discrete Status
Status-discrete = hlevel

-- string(status)
unfoldable pub status_text : Status → String
status_text stopped = "stopped"
status_text starting = "starting"
status_text running = "running"
status_text degraded = "degraded"
status_text failed = "failed"

pub data Spec : Type 0 where
  ssh_spec : TunnelSpec → Spec
  kubectl_spec : TunnelSpec → Spec

-- FromProto
from_type : SpecType → TunnelSpec → Result Spec
from_type unset p = err unknown_tunnel_type
from_type (ssh s) p = ok (ssh_spec p)
from_type (kubectl k) p = ok (kubectl_spec p)

unfoldable pub from_proto : TunnelSpec → Result Spec
unfolding from_type
from_proto p = from_type p.type p

abbrev pub to_proto : Spec → TunnelSpec
to_proto (ssh_spec p) = p
to_proto (kubectl_spec p) = p

abbrev pub type_name : Spec → String
type_name (ssh_spec p) = "ssh"
type_name (kubectl_spec p) = "kubectl"

abbrev pub name : Spec → String
name s = (to_proto s).name

abbrev pub dependencies : Spec → List String
dependencies s = (to_proto s).depends_on

abbrev pub health_check : Spec → Option HealthCheckSpec
health_check s = (to_proto s).health

abbrev pub restart_policy : Spec → Option RestartPolicySpec
restart_policy s = (to_proto s).restart

abbrev pub shutdown_timeout : Spec → ℤ
shutdown_timeout s = as_duration (to_proto s).shutdown_timeout
