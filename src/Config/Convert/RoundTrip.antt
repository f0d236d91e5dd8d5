-- ===== src/Config/Convert/RoundTrip.antt =====
-- A tunnel that goes through ToProto and FromProto, either way, comes back as it was.
use tunneld.Prelude.{
  String, ◌≡◌, refl, ◌⊎◌, inl, inr, true, Option, none, some, List, [], ◌∷◌, map, arith, All,
  eq_iff, ◌==◌, ap, int32-eq, IsInt32,
}
use tunneld.Errors.{Result, ok, err}
use tunneld.Proto
use tunneld.Proto.{
  TunnelSpec, SpecType, HealthCheckSpec, RestartPolicySpec, BackoffSpec, IsInt64, as_duration-new,
  IsExact, new-as_duration-IsExact,
}
use tunneld.Config.{
  SshForward, SshConfig, KubectlForward, KubectlConfig, BackoffConfig, TunnelConfig,
}
use tunneld.Config.Convert.{
  ssh_forward_of, ssh_forward_to, kubectl_forward_of, kubectl_forward_to, backoff_of, backoff_to,
  base_of, with_type, from_proto, to_proto,
}

abbrev SshForwardFits : SshForward → Type 0
SshForwardFits f = IsInt32 f.listen_port × IsInt32 f.target_port

abbrev KubectlForwardFits : KubectlForward → Type 0
KubectlForwardFits f = IsInt32 f.local_port × IsInt32 f.remote_port

ssh_forwards_back :
    (fs : List SshForward) → All SshForwardFits fs → map ssh_forward_of (map ssh_forward_to fs) ≡ fs
unfolding ssh_forward_of ssh_forward_to
ssh_forwards_back [] h = refl
ssh_forwards_back (f ∷ fs) ((l, t), h) =
    ground (arith, int32-eq f.listen_port l, int32-eq f.target_port t, ssh_forwards_back fs h)

kubectl_forwards_back :
    (fs : List KubectlForward)
    → All KubectlForwardFits fs
    → map kubectl_forward_of (map kubectl_forward_to fs) ≡ fs
unfolding kubectl_forward_of kubectl_forward_to
kubectl_forwards_back [] h = refl
kubectl_forwards_back (f ∷ fs) ((l, t), h) =
    ground (arith, int32-eq f.local_port l, int32-eq f.remote_port t, kubectl_forwards_back fs h)

abbrev pub BackoffFits : Option BackoffConfig → Type 0
BackoffFits none = Unit
BackoffFits (some b) = IsInt64 b.max_delay

backoff_back : (b : Option BackoffConfig) → BackoffFits b → backoff_of (backoff_to b) ≡ b
unfolding backoff_of backoff_to
backoff_back none h = refl
backoff_back (some b) h = ground (arith, as_duration-new b.max_delay h)

-- The durations of a tunnel are int64 in Go.
abbrev pub DurationsFit : TunnelConfig → Type 0
DurationsFit t =
    IsInt64 t.startup_timeout
    × IsInt64 t.shutdown_timeout
    × IsInt64 t.health.interval
    × IsInt64 t.health.timeout
    × IsInt64 t.health.startup_timeout
    × IsInt64 t.restart.delay
    × BackoffFits t.restart.backoff

-- The `ssh` section fits the message, and is the only section.
abbrev pub IsSsh : TunnelConfig → Type 0
IsSsh t =
    (s : SshConfig) × (t.ssh ≡ some s)
    × (t.type ≡ "ssh")
    × (t.kubectl ≡ none)
    × IsInt32 s.port
    × All SshForwardFits s.local_forwards

abbrev pub IsKubectl : TunnelConfig → Type 0
IsKubectl t =
    (k : KubectlConfig) × (t.kubectl ≡ some k)
    × (t.type ≡ "kubectl")
    × (t.ssh ≡ none)
    × All KubectlForwardFits k.forwards

-- What a message can carry: an enabled tunnel with one section and numbers in range.
pub record IsPortable (t : TunnelConfig) : Type 0 where
  pub enabled : t.enabled ≡ true
  pub attempts : IsInt32 t.restart.max_attempts
  pub durations : DurationsFit t
  pub section : IsSsh t ⊎ IsKubectl t

abbrev pub read_back : Result TunnelSpec → Option TunnelConfig
read_back (ok p) = from_proto p
read_back (err e) = none

from_to_ssh :
    (t : TunnelConfig) (n : String)
    → t.enabled ≡ true
    → IsInt32 t.restart.max_attempts
    → DurationsFit t
    → IsSsh t
    → read_back (to_proto t n) ≡ some t
unfolding to_proto from_proto
from_to_ssh t n en at (su, sh, hi, ht, hs, rd, bo) (s, e, ty, ku, port, fw) = ground (
  arith,
  eq_iff t.type "ssh",
  int32-eq t.restart.max_attempts at,
  int32-eq s.port port,
  ssh_forwards_back s.local_forwards fw,
  backoff_back t.restart.backoff bo,
  as_duration-new t.startup_timeout su,
  as_duration-new t.shutdown_timeout sh,
  as_duration-new t.health.interval hi,
  as_duration-new t.health.timeout ht,
  as_duration-new t.health.startup_timeout hs,
  as_duration-new t.restart.delay rd,
)

from_to_kubectl :
    (t : TunnelConfig) (n : String)
    → t.enabled ≡ true
    → IsInt32 t.restart.max_attempts
    → DurationsFit t
    → IsKubectl t
    → read_back (to_proto t n) ≡ some t
unfolding to_proto from_proto
from_to_kubectl t n en at (su, sh, hi, ht, hs, rd, bo) (k, e, ty, se, fw) = ground (
  arith,
  ap (λ (x : String). x == "ssh") ty,
  eq_iff t.type "kubectl",
  int32-eq t.restart.max_attempts at,
  kubectl_forwards_back k.forwards fw,
  backoff_back t.restart.backoff bo,
  as_duration-new t.startup_timeout su,
  as_duration-new t.shutdown_timeout sh,
  as_duration-new t.health.interval hi,
  as_duration-new t.health.timeout ht,
  as_duration-new t.health.startup_timeout hs,
  as_duration-new t.restart.delay rd,
)

-- An enabled tunnel with exactly the section of its type, whose ports and attempts fit an int32 and
-- whose durations fit an int64, is converted without an error, and FromProto gives the same tunnel back.
pub from_proto-to_proto :
    (t : TunnelConfig) (n : String) → IsPortable t → read_back (to_proto t n) ≡ some t
from_proto-to_proto t n v = elim v.section [
  | inl s ↦ from_to_ssh t n v.enabled v.attempts v.durations s
  | inr k ↦ from_to_kubectl t n v.enabled v.attempts v.durations k
]

ssh_forwards_forth :
    (fs : List Proto.SshForward)
    → All (λ f. IsInt32 f.listen_port × IsInt32 f.target_port) fs
    → map ssh_forward_to (map ssh_forward_of fs) ≡ fs
unfolding ssh_forward_of ssh_forward_to
ssh_forwards_forth [] h = refl
ssh_forwards_forth (f ∷ fs) ((l, t), h) =
    ground (arith, int32-eq f.listen_port l, int32-eq f.target_port t, ssh_forwards_forth fs h)

kubectl_forwards_forth :
    (fs : List Proto.KubectlForward)
    → All (λ f. IsInt32 f.local_port × IsInt32 f.remote_port) fs
    → map kubectl_forward_to (map kubectl_forward_of fs) ≡ fs
unfolding kubectl_forward_of kubectl_forward_to
kubectl_forwards_forth [] h = refl
kubectl_forwards_forth (f ∷ fs) ((l, t), h) =
    ground (arith, int32-eq f.local_port l, int32-eq f.remote_port t, kubectl_forwards_forth fs h)

-- The numbers of a message are int32 in Go.
abbrev pub TypeFits : SpecType → Type 0
TypeFits SpecType.unset = ⊥
TypeFits (SpecType.ssh s) =
    IsInt32 s.port × All (λ f. IsInt32 f.listen_port × IsInt32 f.target_port) s.local_forwards
TypeFits (SpecType.kubectl k) = All (λ f. IsInt32 f.local_port × IsInt32 f.remote_port) k.forwards

abbrev pub BackoffSet : Option BackoffSpec → Type 0
BackoffSet none = Unit
BackoffSet (some b) = IsExact b.max_delay

-- A message with a type, a health check and a restart policy, whose durations are not nil, normal
-- (less than a second of nanoseconds, with the sign of the seconds) and in the range of an int64.
pub record IsComplete (p : TunnelSpec) (h : HealthCheckSpec) (r : RestartPolicySpec) : Type 0 where
  pub health : p.health ≡ some h
  pub restart : p.restart ≡ some r
  pub type : TypeFits p.type
  pub attempts : IsInt32 r.max_attempts
  pub startup : IsExact p.startup_timeout
  pub shutdown : IsExact p.shutdown_timeout
  pub interval : IsExact h.interval
  pub timeout : IsExact h.timeout
  pub health_startup : IsExact h.startup_timeout
  pub delay : IsExact r.delay
  pub backoff : BackoffSet r.backoff

backoff_forth : (b : Option BackoffSpec) → BackoffSet b → backoff_to (backoff_of b) ≡ b
unfolding backoff_of backoff_to
backoff_forth none h = refl
backoff_forth (some b) h = ground (arith, new-as_duration-IsExact b.max_delay h)

abbrev pub send_again : Option TunnelConfig → String → Option (Result TunnelSpec)
send_again none n = none
send_again (some t) n = some (to_proto t n)

from_proto_lem :
    (p : TunnelSpec) (h : HealthCheckSpec) (r : RestartPolicySpec) {type : SpecType}
    → p.health ≡ some h
    → p.restart ≡ some r
    → p.type ≡ type
    → from_proto p ≡ some (with_type type (base_of p h r))
unfolding from_proto
from_proto_lem p h r eh er et = rw (eh, er, et) refl

forth :
    (type : SpecType) (p : TunnelSpec) (h : HealthCheckSpec) (r : RestartPolicySpec)
    → p.type ≡ type
    → TypeFits type
    → IsComplete p h r
    → send_again (from_proto p) p.name ≡ some (ok p)
unfolding from_proto to_proto
forth SpecType.unset p h r e fits v = absurd fits
forth (SpecType.ssh s) p h r e (port, fw) v = rw (from_proto_lem p h r v.health v.restart e) (
    ground (
      arith,
      int32-eq s.port port,
      int32-eq r.max_attempts v.attempts,
      ssh_forwards_forth s.local_forwards fw,
      backoff_forth r.backoff v.backoff,
      new-as_duration-IsExact p.startup_timeout v.startup,
      new-as_duration-IsExact p.shutdown_timeout v.shutdown,
      new-as_duration-IsExact h.interval v.interval,
      new-as_duration-IsExact h.timeout v.timeout,
      new-as_duration-IsExact h.startup_timeout v.health_startup,
      new-as_duration-IsExact r.delay v.delay,
    ))
forth (SpecType.kubectl k) p h r e fw v = rw (from_proto_lem p h r v.health v.restart e) (
    ground (
      arith,
      int32-eq r.max_attempts v.attempts,
      kubectl_forwards_forth k.forwards fw,
      backoff_forth r.backoff v.backoff,
      new-as_duration-IsExact p.startup_timeout v.startup,
      new-as_duration-IsExact p.shutdown_timeout v.shutdown,
      new-as_duration-IsExact h.interval v.interval,
      new-as_duration-IsExact h.timeout v.timeout,
      new-as_duration-IsExact h.startup_timeout v.health_startup,
      new-as_duration-IsExact r.delay v.delay,
    ))

-- A message that is complete is read without a panic, and ToProto under its name gives it back.
pub to_proto-from_proto :
    (p : TunnelSpec) (h : HealthCheckSpec) (r : RestartPolicySpec)
    → IsComplete p h r
    → send_again (from_proto p) p.name ≡ some (ok p)
to_proto-from_proto p h r v = forth p.type p h r refl v.type v
