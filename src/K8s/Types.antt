-- ===== src/K8s/Types.antt =====
-- k8s/api/v1alpha1: the resources, and the parts of corev1 and metav1 that the sources read.
-- A *metav1.Duration is an `Option` of its nanoseconds. `error` fields hold none for "".
use tunneld.Prelude.{ℕ, String, ℤ, Bool, Option, List, GoMap}
use tunneld.Errors.{Err}

pub record SecretKeyRef : Type 0 where
  pub name : String
  pub key : String

pub record LocalObjectRef : Type 0 where
  pub name : String

pub record HealthCheckSpec : Type 0 where
  pub type : String
  pub address : String
  pub interval : Option ℤ
  pub timeout : Option ℤ
  pub startup_timeout : Option ℤ

pub record BackoffSpec : Type 0 where
  pub multiplier_milli : ℤ
  pub max_delay : Option ℤ

pub record RestartPolicySpec : Type 0 where
  pub policy : String
  pub delay : Option ℤ
  pub max_attempts : ℤ
  pub backoff : Option BackoffSpec

pub record SshForward : Type 0 where
  pub listen_address : String
  pub listen_port : ℤ
  pub target_host : String
  pub target_port : ℤ

pub record SshSpec : Type 0 where
  pub user : String
  pub host : String
  pub port : ℤ
  pub identity_key_ref : Option LocalObjectRef
  pub identity_key_secret_ref : Option SecretKeyRef
  pub local_forwards : List SshForward
  pub options : GoMap String

pub record KubectlForward : Type 0 where
  pub local_address : String
  pub local_port : ℤ
  pub remote_port : ℤ

pub record KubectlSpec : Type 0 where
  pub kubeconfig_ref : Option LocalObjectRef
  pub kubeconfig_secret_ref : Option SecretKeyRef
  pub context : String
  pub namespace : String
  pub resource : String
  pub forwards : List KubectlForward
  pub api_server : String
  pub insecure_skip_tls_verify : Bool

pub record ExposeSpec : Type 0 where
  pub service : Bool
  pub service_name : String
  pub forward_index : ℤ

pub record ResolvedForward : Type 0 where
  pub listen_address : String
  pub configured_port : ℤ
  pub actual_port : ℤ
  pub remote_port : ℤ

pub record TunnelSpec : Type 0 where
  pub depends_on : List String
  pub ssh : Option SshSpec
  pub kubectl : Option KubectlSpec
  pub health : Option HealthCheckSpec
  pub restart : Option RestartPolicySpec
  pub startup_timeout : Option ℤ
  pub shutdown_timeout : Option ℤ
  pub node_selector : GoMap String
  pub expose : Option ExposeSpec

-- `unset` is "".
pub data TunnelPhase : Type 0 where
  unset pending healthy degraded failed stopped : TunnelPhase

-- metav1.Condition. `status` tells ConditionTrue from ConditionFalse.
pub record Condition : Type 0 where
  pub type : String
  pub status : Bool
  pub reason : String
  pub message : Err
  pub last_transition_time : ℕ
  pub observed_generation : ℤ

pub record TunnelStatus : Type 0 where
  pub phase : TunnelPhase
  pub node : String
  pub resolved_forwards : List ResolvedForward
  pub service_ref : Option LocalObjectRef
  pub observed_generation : ℤ
  pub conditions : List Condition
  pub last_error : Option Err

pub record Tunnel : Type 0 where
  pub namespace : String
  pub name : String
  pub generation : ℤ
  pub labels : GoMap String
  pub spec : TunnelSpec
  pub status : TunnelStatus

pub record TunnelGroupMember : Type 0 where
  pub name : String
  pub depends_on : List String
  pub ssh : Option SshSpec
  pub kubectl : Option KubectlSpec
  pub health : Option HealthCheckSpec
  pub restart : Option RestartPolicySpec
  pub startup_timeout : Option ℤ
  pub shutdown_timeout : Option ℤ

pub record TunnelGroupExpose : Type 0 where
  pub tunnel : String
  pub service_name : String
  pub forward_index : ℤ

pub record TunnelGroupSpec : Type 0 where
  pub node_selector : GoMap String
  pub tunnels : List TunnelGroupMember
  pub expose : List TunnelGroupExpose

pub record TunnelGroupMemberStatus : Type 0 where
  pub name : String
  pub phase : TunnelPhase

-- The fields of TunnelGroupStatus that the controller writes.
pub record TunnelGroupStatus : Type 0 where
  pub phase : TunnelPhase
  pub members : List TunnelGroupMemberStatus
  pub observed_generation : ℤ

pub record TunnelGroup : Type 0 where
  pub namespace : String
  pub name : String
  pub generation : ℤ
  pub spec : TunnelGroupSpec
  pub status : TunnelGroupStatus

-- `unset` is "".
pub data TunnelKeyPhase : Type 0 where
  unset pending ready failed : TunnelKeyPhase

pub record TunnelKeySource : Type 0 where
  pub secret_ref : Option SecretKeyRef

-- The fields of TunnelKeyStatus that the controller writes.
pub record TunnelKeyStatus : Type 0 where
  pub phase : TunnelKeyPhase
  pub last_error : Option Err
  pub observed_generation : ℤ

pub record TunnelKey : Type 0 where
  pub namespace : String
  pub name : String
  pub generation : ℤ
  pub source : TunnelKeySource
  pub status : TunnelKeyStatus

-- corev1.Secret
pub record Secret : Type 0 where
  pub name : String
  pub data_of : GoMap (List ℕ)

-- corev1.Node
pub data AddressType : Type 0 where
  internal_ip external_ip other_address : AddressType

pub record NodeAddress : Type 0 where
  pub type : AddressType
  pub address : String

-- corev1.NodeCondition: whether its type is NodeReady, and whether its status is ConditionTrue.
pub record NodeCondition : Type 0 where
  pub is_ready_type : Bool
  pub is_true : Bool

pub record Node : Type 0 where
  pub name : String
  pub labels : GoMap String
  pub conditions : List NodeCondition
  pub addresses : List NodeAddress

-- What client.Get answers: the object, a NotFound error or another error.
pub data Got {ℓ} (A : Type ℓ) : Type ℓ where
  found : A → Got A
  absent : Got A
  failing : Err → Got A

-- ctrl.Result, with an error. `requeue_after` holds nanoseconds.
pub data Outcome : Type 0 where
  done requeue : Outcome
  requeue_after : ℤ → Outcome
  failed_with : Err → Outcome
