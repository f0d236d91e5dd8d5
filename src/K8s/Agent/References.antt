-- ===== src/K8s/Agent/References.antt =====
-- The key that the agent uploads is the one that the pushed spec names.
use tunneld.Prelude.{
  ◌≡◌, ℕ, ℤ, String, Option, none, some, List, lookup, arith, Option-cases, inl, inr,
}
use tunneld.Errors.{ok}
use tunneld.Proto
use tunneld.K8s.Types.{SecretKeyRef, LocalObjectRef, Tunnel, TunnelKey, found}
use tunneld.K8s.Convert.{key_ref, daemon_key_name, type_of, with_type, to_proto}
use tunneld.K8s.Keys.Settled.{Got-cases}
use tunneld.K8s.Agent.{World, read_secret, read_tunnel_key, key_of_refs, kubectl_key, resolve_key}

-- The key that a message names.
abbrev pub reference : Proto.SpecType → String
reference Proto.SpecType.unset = ""
reference (Proto.SpecType.ssh s) = s.identity_key_ref
reference (Proto.SpecType.kubectl k) = k.kubeconfig_ref

-- An object that is read has the name that was asked for.
abbrev pub KeepsNames : World → Type 0
KeepsNames w = (n : String) (k : TunnelKey) → w.get_key n ≡ found k → k.name ≡ n

read_secret_lem :
    (w : World) (n m : String) (ref : SecretKeyRef) (c : List ℕ)
    → read_secret w n ref ≡ ok (some (m, c))
    → m ≡ n
unfolding read_secret
read_secret_lem w n m ref c h = elim (Got-cases (w.get_secret ref.name)) [
  | inl e ↦ absurd (ground (arith, e, h))
  | inr (inl (x, e)) ↦ absurd (ground (arith, e, h))
  | inr (inr (s, e)) ↦ elim (Option-cases (lookup ref.key s.data_of)) [
    | inl f ↦ absurd (ground (arith, e, f, h))
    | inr (d, f) ↦ ground (arith, e, f, h)
  ]
]

read_tunnel_key_lem :
    (w : World) (namespace m : String) (ref : LocalObjectRef) (c : List ℕ)
    → KeepsNames w
    → read_tunnel_key w namespace ref ≡ ok (some (m, c))
    → m ≡ daemon_key_name namespace ref.name
unfolding read_tunnel_key
read_tunnel_key_lem w namespace m ref c names h = elim (Got-cases (w.get_key ref.name)) [
  | inl e ↦ absurd (ground (arith, e, h))
  | inr (inl (x, e)) ↦ absurd (ground (arith, e, h))
  | inr (inr (k, e)) ↦ elim (Option-cases k.source.secret_ref) [
    | inl f ↦ absurd (ground (arith, e, f, h))
    | inr (s, f) ↦ ground (
      arith,
      names ref.name k e,
      read_secret_lem w (daemon_key_name namespace k.name) m s c (ground (arith, e, f, h)),
    )
  ]
]

-- The branches of one kind of tunnel, where nothing else gives a key.
key_of_refs_lem :
    (w : World) (namespace m : String) (r : Option LocalObjectRef) (s : Option SecretKeyRef)
    (c : List ℕ)
    → KeepsNames w
    → key_of_refs w namespace r s (ok none) ≡ ok (some (m, c))
    → m ≡ key_ref namespace r s
unfolding key_of_refs key_ref
key_of_refs_lem w namespace m (some r) s c names h = read_tunnel_key_lem w namespace m r c names h
key_of_refs_lem w namespace m none (some s) c names h =
    read_secret_lem w (daemon_key_name namespace s.name) m s c h
key_of_refs_lem w namespace m none none c names h = absurd (ground (arith, h))

-- If reading a TunnelKey gives one of the name that was asked for, the key that resolveKey finds
-- for a Tunnel that converts is stored under the name to which the converted spec refers.
pub resolve_key-to_proto :
    (f : ℤ → ℕ) (w : World) (t : Tunnel) (m : String) (c : List ℕ) (p : Proto.TunnelSpec)
    → KeepsNames w
    → resolve_key w t ≡ ok (some (m, c))
    → to_proto f t ≡ ok p
    → m ≡ reference p.type
unfolding resolve_key to_proto type_of kubectl_key with_type
resolve_key-to_proto f w t m c p names h q = elim (Option-cases t.spec.ssh) [
  | inl e ↦ elim (Option-cases t.spec.kubectl) [
    | inl g ↦ absurd (ground (arith, e, g, q))
    | inr (k, g) ↦ ground (
      arith,
      e,
      g,
      q,
      key_of_refs_lem w t.namespace m k.kubeconfig_ref k.kubeconfig_secret_ref c names
          (ground (arith, e, g, h)),
    )
  ]
  | inr (s, e) ↦ elim (Option-cases t.spec.kubectl) [
    | inl g ↦ ground (
      arith,
      e,
      g,
      q,
      key_of_refs_lem w t.namespace m s.identity_key_ref s.identity_key_secret_ref c names
          (ground (arith, e, g, h)),
    )
    | inr (k, g) ↦ absurd (ground (arith, e, g, q))
  ]
]
