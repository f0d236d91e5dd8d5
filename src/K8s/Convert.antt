-- ===== src/K8s/Convert.antt =====
-- k8s/agent/conversion.go. `thousandth` is the float32 division by 1000, on bit patterns.
pub mod Accepts
use tunneld.Prelude.{ℕ, String, ℤ, Bool, Option, none, some, List, map, is_some, ◌<>◌}
use tunneld.Errors.{Result, ok, err, one_of_required}
use tunneld.Proto
use tunneld.Proto.{ssh, kubectl}
use tunneld.K8s.Types.{
  LocalObjectRef, SecretKeyRef, HealthCheckSpec, BackoffSpec, RestartPolicySpec, SshForward,
  SshSpec, KubectlForward, KubectlSpec, TunnelSpec, Tunnel,
}

unfoldable pub daemon_key_name : String → String → String
daemon_key_name namespace name = namespace <> "--" <> name

unfoldable pub daemon_tunnel_name : String → String → String
daemon_tunnel_name namespace name = namespace <> "--" <> name

-- The reference to a stored key: a named object goes before a secret, "" stands for neither.
unfoldable pub key_ref : String → Option LocalObjectRef → Option SecretKeyRef → String
key_ref namespace (some r) _ = daemon_key_name namespace r.name
key_ref namespace none (some s) = daemon_key_name namespace s.name
key_ref namespace none none = ""

-- toDurationPB
abbrev to_duration_pb : Option ℤ → Option Proto.Duration
to_duration_pb none = none
to_duration_pb (some d) = Proto.new_duration d

abbrev health_to : HealthCheckSpec → Proto.HealthCheckSpec
health_to h = record {
  type = h.type;
  address = h.address;
  interval = to_duration_pb h.interval;
  timeout = to_duration_pb h.timeout;
  startup_timeout = to_duration_pb h.startup_timeout;
}

abbrev option_map {ℓ κ} : {A : Type ℓ} {B : Type κ} → (A → B) → Option A → Option B
option_map f none = none
option_map f (some a) = some (f a)

abbrev backoff_to : (ℤ → ℕ) → BackoffSpec → Proto.BackoffSpec
backoff_to thousandth b = record {
  multiplier = thousandth b.multiplier_milli;
  max_delay = to_duration_pb b.max_delay;
}

abbrev restart_to : (ℤ → ℕ) → RestartPolicySpec → Proto.RestartPolicySpec
restart_to thousandth r = record {
  policy = r.policy;
  delay = to_duration_pb r.delay;
  max_attempts = r.max_attempts;
  backoff = option_map (backoff_to thousandth) r.backoff;
}

abbrev ssh_forward_to : SshForward → Proto.SshForward
ssh_forward_to f = record {
  listen_address = f.listen_address;
  listen_port = f.listen_port;
  target_host = f.target_host;
  target_port = f.target_port;
}

abbrev kubectl_forward_to : KubectlForward → Proto.KubectlForward
kubectl_forward_to f = record {
  local_address = f.local_address;
  local_port = f.local_port;
  remote_port = f.remote_port;
}

abbrev pub ssh_to : String → SshSpec → Proto.SshSpec
ssh_to namespace s = record {
  user = s.user;
  host = s.host;
  port = s.port;
  identity_key_file = "";
  local_forwards = map ssh_forward_to s.local_forwards;
  options = s.options;
  identity_key_ref = key_ref namespace s.identity_key_ref s.identity_key_secret_ref;
}

abbrev pub kubectl_to : String → KubectlSpec → Proto.KubectlSpec
kubectl_to namespace k = record {
  kubeconfig_ref = key_ref namespace k.kubeconfig_ref k.kubeconfig_secret_ref;
  context = k.context;
  namespace = k.namespace;
  resource = k.resource;
  forwards = map kubectl_forward_to k.forwards;
  api_server = k.api_server;
  insecure_skip_tls_verify = k.insecure_skip_tls_verify;
  kubeconfig_file = "";
}

unfoldable pub with_type : (ℤ → ℕ) → Tunnel → Proto.SpecType → Proto.TunnelSpec
with_type thousandth t type = record {
  name = daemon_tunnel_name t.namespace t.name;
  depends_on = map (daemon_tunnel_name t.namespace) t.spec.depends_on;
  type = type;
  health = option_map health_to t.spec.health;
  restart = option_map (restart_to thousandth) t.spec.restart;
  startup_timeout = to_duration_pb t.spec.startup_timeout;
  shutdown_timeout = to_duration_pb t.spec.shutdown_timeout;
}

-- The branch of the type, after the test that one of the two is set.
unfoldable pub type_of : String → Option SshSpec → Option KubectlSpec → Result Proto.SpecType
type_of namespace (some s) none = ok (ssh (ssh_to namespace s))
type_of namespace none (some k) = ok (kubectl (kubectl_to namespace k))
type_of namespace (some _) (some _) = err one_of_required
type_of namespace none none = err one_of_required

-- ToProto
unfoldable pub to_proto : (ℤ → ℕ) → Tunnel → Result Proto.TunnelSpec
unfolding with_type type_of
to_proto thousandth t = elim (type_of t.namespace t.spec.ssh t.spec.kubectl) [
  | ok type ↦ ok (with_type thousandth t type)
  | err e ↦ err e
]
