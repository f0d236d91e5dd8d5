-- ===== src/Proto.antt =====
-- The messages of pkg/api/v1/spec.pb.go that the daemon, its clients and the agent exchange.
-- A pointer to a Duration is an `Option`, `none` for nil.
-- A float32 is its bit pattern. A `oneof` is a data type with a constructor for "not set".
pub mod Durations
use tunneld.Prelude.{ℕ, String, ℤ, pos, Bool, Option, none, some, List, GoMap}
unfoldable pub use Durations.*

pub record SshForward : Type 0 where
  pub listen_address : String
  pub listen_port : ℤ
  pub target_host : String
  pub target_port : ℤ

pub record SshSpec : Type 0 where
  pub user : String
  pub host : String
  pub port : ℤ
  pub identity_key_file : String
  pub local_forwards : List SshForward
  pub options : GoMap String
  pub identity_key_ref : String

pub record KubectlForward : Type 0 where
  pub local_address : String
  pub local_port : ℤ
  pub remote_port : ℤ

pub record KubectlSpec : Type 0 where
  pub kubeconfig_ref : String
  pub context : String
  pub namespace : String
  pub resource : String
  pub forwards : List KubectlForward
  pub api_server : String
  pub insecure_skip_tls_verify : Bool
  pub kubeconfig_file : String

-- isTunnelSpec_Type
pub data SpecType : Type 0 where
  unset : SpecType
  ssh : SshSpec → SpecType
  kubectl : KubectlSpec → SpecType

pub record HealthCheckSpec : Type 0 where
  pub type : String
  pub address : String
  pub interval : Option Duration
  pub timeout : Option Duration
  pub startup_timeout : Option Duration

pub record BackoffSpec : Type 0 where
  pub multiplier : ℕ
  pub max_delay : Option Duration

pub record RestartPolicySpec : Type 0 where
  pub policy : String
  pub delay : Option Duration
  pub max_attempts : ℤ
  pub backoff : Option BackoffSpec

pub record TunnelSpec : Type 0 where
  pub name : String
  pub depends_on : List String
  pub type : SpecType
  pub health : Option HealthCheckSpec
  pub restart : Option RestartPolicySpec
  pub startup_timeout : Option Duration
  pub shutdown_timeout : Option Duration
