-- ===== src/Config.antt =====
-- internal/config/config.go: the types of the configuration file, and the operations on a Config.
-- YAML and the file system are parameters.
pub mod Convert
pub mod Validate
use tunneld.Prelude.{
  ℕ, String, ℤ, Bool, Option, none, some, List, ◌==◌, GoMap, lookup, insert, if◌then◌else◌,
}
use tunneld.Errors.{Err, Result, ok, err, ◌>>=◌, path_not_set, not_in_config}

pub record SshForward : Type 0 where
  pub listen_address : String
  pub listen_port : ℤ
  pub target_host : String
  pub target_port : ℤ

pub record SshConfig : Type 0 where
  pub user : String
  pub host : String
  pub port : ℤ
  pub identity_key_file : String
  pub identity_key_ref : String
  pub local_forwards : List SshForward
  pub options : GoMap String

pub record KubectlForward : Type 0 where
  pub local_address : String
  pub local_port : ℤ
  pub remote_port : ℤ

pub record KubectlConfig : Type 0 where
  pub kubeconfig_file : String
  pub kubeconfig_ref : String
  pub context : String
  pub namespace : String
  pub resource : String
  pub forwards : List KubectlForward
  pub api_server : String
  pub insecure_skip_tls_verify : Bool

pub record HealthCheckConfig : Type 0 where
  pub type : String
  pub address : String
  pub interval : ℤ
  pub timeout : ℤ
  pub startup_timeout : ℤ

pub record BackoffConfig : Type 0 where
  pub multiplier : ℕ
  pub max_delay : ℤ

pub record RestartPolicyConfig : Type 0 where
  pub policy : String
  pub delay : ℤ
  pub max_attempts : ℤ
  pub backoff : Option BackoffConfig

pub record TunnelConfig : Type 0 where
  pub enabled : Bool
  pub type : String
  pub depends_on : List String
  pub ssh : Option SshConfig
  pub kubectl : Option KubectlConfig
  pub health : HealthCheckConfig
  pub restart : RestartPolicyConfig
  pub startup_timeout : ℤ
  pub shutdown_timeout : ℤ

pub record Config : Type 0 where
  pub tunnels : GoMap TunnelConfig
  pub file_path : String

-- Load, with os.ReadFile and yaml.Unmarshal as parameters.
unfoldable pub load :
    (String → Result String) → (String → Result (GoMap TunnelConfig)) → String → Result Config
load read_file unmarshal path = do
  text ← read_file path
  tunnels ← unmarshal text
  ok (record { tunnels = tunnels; file_path = path })

-- Save. `write` marshals the Config and writes the file at its path; `none` is success.
unfoldable pub save : (Config → Option Err) → Config → Option Err
save write c = if c.file_path == "" then some path_not_set else write c

-- SetEnabled: the map is changed before the file is written.
unfoldable pub set_enabled : (Config → Option Err) → String → Bool → Config → Config × Option Err
unfolding save
set_enabled write name enabled c = elim (lookup name c.tunnels) [
  | none ↦ (c, some (not_in_config name))
  | some t ↦
      let c' = record c { tunnels = insert name (record t { enabled = enabled }) c.tunnels } in
      (c', save write c')
]
