-- ===== src/K8s/Convert/Accepts.antt =====
-- Which Tunnels the agent can send to the daemon.
use tunneld.Prelude.{◌≡◌, ◌↔◌, ℕ, ℤ, true, arith, Option-cases, inl, inr}
use tunneld.Errors.{ok}
use tunneld.Proto
use tunneld.K8s.Types.{Tunnel}
use tunneld.K8s.Convert.{ssh_to, kubectl_to, type_of, with_type, to_proto}
use tunneld.K8s.Scheduling.{has_one_type}

-- The agent converts exactly the Tunnels that the controller does not fail: both ask for one of
-- ssh and kubectl.
pub to_proto-has_one_type :
    (thousandth : ℤ → ℕ) (t : Tunnel)
    → ((p : Proto.TunnelSpec) × (to_proto thousandth t ≡ ok p)) ↔ (has_one_type t ≡ true)
unfolding to_proto type_of has_one_type
to_proto-has_one_type thousandth t = elim (Option-cases t.spec.ssh) [
  | inl e ↦ elim (Option-cases t.spec.kubectl) [
    | inl f ↦ (λ (p, h). absurd (ground (arith, e, f, h)), λ h. absurd (ground (arith, e, f, h)))
    | inr (k, f) ↦ (
      λ h. ground (arith, e, f),
      λ h.
          (with_type thousandth t (Proto.kubectl (kubectl_to t.namespace k)), ground (arith, e, f)),
    )
  ]
  | inr (s, e) ↦ elim (Option-cases t.spec.kubectl) [
    | inl f ↦ (
      λ h. ground (arith, e, f),
      λ h. (with_type thousandth t (Proto.ssh (ssh_to t.namespace s)), ground (arith, e, f)),
    )
    | inr (k, f) ↦
        (λ (p, h). absurd (ground (arith, e, f, h)), λ h. absurd (ground (arith, e, f, h)))
  ]
]
