-- ===== src/Tunnel/Ports/Laws.antt =====
-- What port resolution does to a spec, and how its mappings relate to the keys that the conflict
-- checks compare.
use tunneld.Prelude.{
  String, ℤ, pos, ◌≡◌, ◌⊎◌, Bool, true, false, Option, none, some, List, [], ◌∷◌, map, arith, eq_ℤ,
  show, join_host_port, All,
}
use tunneld.Errors.{ok, >>=-eq-ok}
use tunneld.Proto.{TunnelSpec, SshForward, KubectlForward, SpecType, unset, ssh, kubectl}
use tunneld.Tunnel.Ports.{
  PortMapping, Listens, listen_on, actual_port, resolve_ssh, resolve_kubectl, resolve_type,
  resolve_ports, ssh_keys, kubectl_keys, keys_of_type, local_port_keys, wrap,
}

-- The key of a mapping: its address with the port that was really taken.
abbrev pub mapping_key : PortMapping → String
mapping_key m = join_host_port m.local_address (show m.actual_port)

abbrev pub is_zero : Option ℤ → Bool
is_zero none = false
is_zero (some p) = eq_ℤ p (pos 0)

-- The system never hands out port 0.
abbrev pub NonZero : Listens → Type 0
NonZero = All (λ o. is_zero o ≡ false)

-- One call of `actual_port`: the port is not 0, and it is the configured one unless that is 0.
actual_port_lem :
    (addr : String) (c : ℤ) (ports : Listens) {p : ℤ} {rest : Listens}
    → NonZero ports
    → wrap (actual_port addr c ports) ≡ ok (p, rest)
    → (eq_ℤ p (pos 0) ≡ false) × NonZero rest × ((eq_ℤ c (pos 0) ≡ true) ⊎ (p ≡ c))
unfolding actual_port
actual_port_lem addr c [] nz h = ground arith
actual_port_lem addr c (none ∷ ports) nz h = ground arith
actual_port_lem addr c (some q ∷ ports) nz h = ground arith

ssh-keys-resolve :
    (fs : List SshForward) (ports : Listens) {fs' : List SshForward} {ms : List PortMapping}
    {rest : Listens}
    → NonZero ports
    → resolve_ssh fs ports ≡ ok (fs', ms, rest)
    → ssh_keys fs' ≡ map mapping_key ms
unfolding resolve_ssh ssh_keys
ssh-keys-resolve [] ports nz h = ground arith
ssh-keys-resolve (f ∷ fs) ports nz h =
    let ((p, ports'), e₁, h₁) =
      >>=-eq-ok (wrap (actual_port (listen_on f.listen_address) f.listen_port ports)) _ h in
    let ((fs₀, ms₀, r₀), e₂, h₂) = >>=-eq-ok (resolve_ssh fs ports') _ h₁ in
    let (nonzero, nz', _) =
      actual_port_lem (listen_on f.listen_address) f.listen_port ports nz e₁ in
    let ih = ssh-keys-resolve fs ports' nz' e₂ in ground arith

kubectl-keys-resolve :
    (fs : List KubectlForward) (ports : Listens) {fs' : List KubectlForward} {ms : List PortMapping}
    {rest : Listens}
    → NonZero ports
    → resolve_kubectl fs ports ≡ ok (fs', ms, rest)
    → kubectl_keys fs' ≡ map mapping_key ms
unfolding resolve_kubectl kubectl_keys
kubectl-keys-resolve [] ports nz h = ground arith
kubectl-keys-resolve (f ∷ fs) ports nz h =
    let ((p, ports'), e₁, h₁) =
      >>=-eq-ok (wrap (actual_port (listen_on f.local_address) f.local_port ports)) _ h in
    let ((fs₀, ms₀, r₀), e₂, h₂) = >>=-eq-ok (resolve_kubectl fs ports') _ h₁ in
    let (nonzero, nz', _) = actual_port_lem (listen_on f.local_address) f.local_port ports nz e₁ in
    let ih = kubectl-keys-resolve fs ports' nz' e₂ in ground arith

keys-resolve_type :
    (t : SpecType) (ports : Listens) {t' : SpecType} {ms : List PortMapping} {rest : Listens}
    → NonZero ports
    → resolve_type t ports ≡ ok (t', ms, rest)
    → keys_of_type t' ≡ map mapping_key ms
unfolding resolve_type keys_of_type
keys-resolve_type unset ports nz h = ground arith
keys-resolve_type (ssh s) ports nz h =
    let ((fs, ms₀, r), e, h₁) = >>=-eq-ok (resolve_ssh s.local_forwards ports) _ h in
    let keys = ssh-keys-resolve s.local_forwards ports nz e in ground arith
keys-resolve_type (kubectl k) ports nz h =
    let ((fs, ms₀, r), e, h₁) = >>=-eq-ok (resolve_kubectl k.forwards ports) _ h in
    let keys = kubectl-keys-resolve k.forwards ports nz e in ground arith

-- When resolution succeeds and the system hands out no port 0, the mappings that clients are shown
-- are exactly the addresses, in order, that the resolved spec claims.
pub keys-resolve_ports :
    (spec : TunnelSpec) (ports : Listens) {spec' : TunnelSpec} {ms : List PortMapping}
    {rest : Listens}
    → NonZero ports
    → resolve_ports spec ports ≡ ok (spec', ms, rest)
    → local_port_keys spec' ≡ map mapping_key ms
unfolding resolve_ports local_port_keys
keys-resolve_ports spec ports nz h =
    let ((t, ms₀, r), e, h₁) = >>=-eq-ok (resolve_type spec.type ports) _ h in
    let keys = keys-resolve_type spec.type ports nz e in ground arith
