-- ===== src/Tunnel/Build.antt =====
-- NewSSHSpec and NewKubectlSpec of internal/tunnel/ssh.go and kubectl.go: a spec from Go values.
use tunneld.Prelude.{String, ℤ, Bool, Option, List, map, GoMap, int32}
use tunneld.Proto
use tunneld.Proto.{TunnelSpec, SpecType, HealthCheckSpec, RestartPolicySpec, new_duration}
use tunneld.Tunnel.{Spec, ssh_spec, kubectl_spec}

pub record SshForward : Type 0 where
  pub listen_address : String
  pub listen_port : ℤ
  pub target_host : String
  pub target_port : ℤ

pub record KubectlForward : Type 0 where
  pub local_address : String
  pub local_port : ℤ
  pub remote_port : ℤ

ssh_forward : SshForward → Proto.SshForward
ssh_forward f = record {
  listen_address = f.listen_address;
  listen_port = int32 f.listen_port;
  target_host = f.target_host;
  target_port = int32 f.target_port;
}

kubectl_forward : KubectlForward → Proto.KubectlForward
kubectl_forward f = record {
  local_address = f.local_address;
  local_port = int32 f.local_port;
  remote_port = int32 f.remote_port;
}

-- The arguments that both have.
pub record Common : Type 0 where
  pub name : String
  pub depends_on : List String
  pub health : Option HealthCheckSpec
  pub restart : Option RestartPolicySpec
  pub startup : ℤ
  pub shutdown : ℤ

abbrev message : Common → SpecType → TunnelSpec
message c type = record {
  name = c.name;
  depends_on = c.depends_on;
  type = type;
  health = c.health;
  restart = c.restart;
  startup_timeout = new_duration c.startup;
  shutdown_timeout = new_duration c.shutdown;
}

-- NewSSHSpec
unfoldable pub new_ssh_spec :
    Common → String → String → ℤ → String → String → List SshForward → GoMap String → Spec
unfolding ssh_forward
new_ssh_spec c user host port identity_key_file identity_key_ref forwards options = ssh_spec (
    message c (
      SpecType.ssh (record {
        user = user;
        host = host;
        port = int32 port;
        identity_key_file = identity_key_file;
        local_forwards = map ssh_forward forwards;
        options = options;
        identity_key_ref = identity_key_ref;
      })))

-- NewKubectlSpec
unfoldable pub new_kubectl_spec :
    Common → String → String → String → String → String → List KubectlForward → String → Bool → Spec
unfolding kubectl_forward
new_kubectl_spec c kubeconfig_file kubeconfig_ref context namespace resource forwards api_server
      skip_tls =
    kubectl_spec (
      message c (
        SpecType.kubectl (record {
          kubeconfig_ref = kubeconfig_ref;
          context = context;
          namespace = namespace;
          resource = resource;
          forwards = map kubectl_forward forwards;
          api_server = api_server;
          insecure_skip_tls_verify = skip_tls;
          kubeconfig_file = kubeconfig_file;
        })))
