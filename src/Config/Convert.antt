-- ===== src/Config/Convert.antt =====
-- FromProto, ToProto and ToSpec of internal/config/config.go.

pub mod RoundTrip
use tunneld.Prelude.{
  String, ℤ, Bool, true, Option, none, some, List, map, ◌==◌, int32, if◌then◌else◌,
}
use tunneld.Errors.{Result, ok, err, ◌>>=◌, ssh_required, kubectl_required, unknown_type}
use tunneld.Proto
use tunneld.Proto.{TunnelSpec, SpecType, as_duration, new_duration}
use tunneld.Config.{
  SshForward, SshConfig, KubectlForward, KubectlConfig, HealthCheckConfig, BackoffConfig,
  RestartPolicyConfig, TunnelConfig,
}
use tunneld.Tunnel
use tunneld.Tunnel.{Spec}

unfoldable pub ssh_forward_of : Proto.SshForward → SshForward
ssh_forward_of f = record {
  listen_address = f.listen_address;
  listen_port = f.listen_port;
  target_host = f.target_host;
  target_port = f.target_port;
}

unfoldable pub kubectl_forward_of : Proto.KubectlForward → KubectlForward
kubectl_forward_of f = record {
  local_address = f.local_address;
  local_port = f.local_port;
  remote_port = f.remote_port;
}

unfoldable pub backoff_of : Option Proto.BackoffSpec → Option BackoffConfig
backoff_of none = none
backoff_of (some b) =
    some (record { multiplier = b.multiplier; max_delay = as_duration b.max_delay })

-- The part of FromProto above the switch, with the fields of the switch left at zero.
base_of : TunnelSpec → Proto.HealthCheckSpec → Proto.RestartPolicySpec → TunnelConfig
unfolding backoff_of
base_of spec h r = record {
  enabled = true;
  type = "";
  depends_on = spec.depends_on;
  ssh = none;
  kubectl = none;
  health = record {
    type = h.type;
    address = h.address;
    interval = as_duration h.interval;
    timeout = as_duration h.timeout;
    startup_timeout = as_duration h.startup_timeout;
  };
  restart = record {
    policy = r.policy;
    delay = as_duration r.delay;
    max_attempts = r.max_attempts;
    backoff = backoff_of r.backoff;
  };
  startup_timeout = as_duration spec.startup_timeout;
  shutdown_timeout = as_duration spec.shutdown_timeout;
}

-- The switch on spec.Type.
with_type : SpecType → TunnelConfig → TunnelConfig
unfolding ssh_forward_of kubectl_forward_of
with_type SpecType.unset tc = tc
with_type (SpecType.ssh s) tc = record tc {
  type = "ssh";
  ssh = some (record {
    user = s.user;
    host = s.host;
    port = s.port;
    identity_key_file = s.identity_key_file;
    identity_key_ref = s.identity_key_ref;
    local_forwards = map ssh_forward_of s.local_forwards;
    options = s.options;
  });
}
with_type (SpecType.kubectl k) tc = record tc {
  type = "kubectl";
  kubectl = some (record {
    kubeconfig_file = k.kubeconfig_file;
    kubeconfig_ref = k.kubeconfig_ref;
    context = k.context;
    namespace = k.namespace;
    resource = k.resource;
    forwards = map kubectl_forward_of k.forwards;
    api_server = k.api_server;
    insecure_skip_tls_verify = k.insecure_skip_tls_verify;
  });
}

-- FromProto reads fields of spec.Health and spec.Restart: a nil pointer panics, `none` here.
from_parts :
    Option Proto.HealthCheckSpec → Option Proto.RestartPolicySpec → TunnelSpec → Option TunnelConfig
unfolding base_of with_type
from_parts none _ spec = none
from_parts (some h) none spec = none
from_parts (some h) (some r) spec = some (with_type spec.type (base_of spec h r))

unfoldable pub from_proto : TunnelSpec → Option TunnelConfig
unfolding from_parts
from_proto spec = from_parts spec.health spec.restart spec

unfoldable pub ssh_forward_to : SshForward → Proto.SshForward
ssh_forward_to f = record {
  listen_address = f.listen_address;
  listen_port = int32 f.listen_port;
  target_host = f.target_host;
  target_port = int32 f.target_port;
}

unfoldable pub kubectl_forward_to : KubectlForward → Proto.KubectlForward
kubectl_forward_to f = record {
  local_address = f.local_address;
  local_port = int32 f.local_port;
  remote_port = int32 f.remote_port;
}

unfoldable pub backoff_to : Option BackoffConfig → Option Proto.BackoffSpec
backoff_to none = none
backoff_to (some b) =
    some (record { multiplier = b.multiplier; max_delay = new_duration b.max_delay })

-- The case "ssh" of the switch on t.Type.
unfoldable pub ssh_to : Option SshConfig → Result SpecType
unfolding ssh_forward_to
ssh_to none = err ssh_required
ssh_to (some s) = ok (
    SpecType.ssh (record {
      user = s.user;
      host = s.host;
      port = int32 s.port;
      identity_key_file = s.identity_key_file;
      local_forwards = map ssh_forward_to s.local_forwards;
      options = s.options;
      identity_key_ref = s.identity_key_ref;
    }))

-- The case "kubectl".
unfoldable pub kubectl_to : Option KubectlConfig → Result SpecType
unfolding kubectl_forward_to
kubectl_to none = err kubectl_required
kubectl_to (some k) = ok (
    SpecType.kubectl (record {
      kubeconfig_ref = k.kubeconfig_ref;
      context = k.context;
      namespace = k.namespace;
      resource = k.resource;
      forwards = map kubectl_forward_to k.forwards;
      api_server = k.api_server;
      insecure_skip_tls_verify = k.insecure_skip_tls_verify;
      kubeconfig_file = k.kubeconfig_file;
    }))

type_to : TunnelConfig → Result SpecType
unfolding ssh_to kubectl_to
type_to t =
    if t.type == "ssh"
    then ssh_to t.ssh
    else if t.type == "kubectl"
    then kubectl_to t.kubectl
    else err (unknown_type t.type)

-- ToProto
unfoldable pub to_proto : TunnelConfig → String → Result TunnelSpec
unfolding type_to backoff_to
to_proto t name = do
  type ← type_to t
  ok (record {
    name = name;
    depends_on = t.depends_on;
    type = type;
    health = some (record {
      type = t.health.type;
      address = t.health.address;
      interval = new_duration t.health.interval;
      timeout = new_duration t.health.timeout;
      startup_timeout = new_duration t.health.startup_timeout;
    });
    restart = some (record {
      policy = t.restart.policy;
      delay = new_duration t.restart.delay;
      max_attempts = int32 t.restart.max_attempts;
      backoff = backoff_to t.restart.backoff;
    });
    startup_timeout = new_duration t.startup_timeout;
    shutdown_timeout = new_duration t.shutdown_timeout;
  })

-- ToSpec
unfoldable pub to_spec : TunnelConfig → String → Result Spec
unfolding to_proto
to_spec t name = do p ← to_proto t name; Tunnel.from_proto p

-- ParseTunnel, with yaml.Unmarshal as a parameter.
unfoldable pub parse_tunnel : (String → Result TunnelConfig) → String → String → Result Spec
unfolding to_spec
parse_tunnel unmarshal name text = do t ← unmarshal text; to_spec t name
