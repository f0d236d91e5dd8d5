-- ===== src/Tunnel/Wraps.antt =====
-- FromProto of internal/tunnel/spec.go wraps the message, which ToProto gives back.
use text.Mathlib.TextEquality.{IsScalar-prop}
use tunneld.Prelude.{String, ◌≡◌, ap, arith}
use tunneld.Errors.{ok}
use tunneld.Proto.{TunnelSpec, SpecType, unset, ssh, kubectl}
use tunneld.Tunnel
use tunneld.Tunnel.{Spec, from_type}

from_type-ok :
    (type : SpecType) (p : TunnelSpec) {s : Spec} → from_type type p ≡ ok s → Tunnel.to_proto s ≡ p
unfolding from_type
from_type-ok unset p h = absurd (ground (arith, h))
from_type-ok (ssh x) p {s} h =
    let e : s ≡ Tunnel.ssh_spec p = ground (arith, h) in ap Tunnel.to_proto e
from_type-ok (kubectl x) p {s} h =
    let e : s ≡ Tunnel.kubectl_spec p = ground (arith, h) in ap Tunnel.to_proto e

pub from_proto-ok : (p : TunnelSpec) {s : Spec} → Tunnel.from_proto p ≡ ok s → Tunnel.to_proto s ≡ p
unfolding Tunnel.from_proto
from_proto-ok p h = from_type-ok p.type p h

String-IsSet : IsSet String
String-IsSet = hlevel IsScalar-prop

pub Spec-IsSet : IsSet Spec
Spec-IsSet = hlevel (String-IsSet, IsScalar-prop)
