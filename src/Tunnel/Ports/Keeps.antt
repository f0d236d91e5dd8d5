-- ===== src/Tunnel/Ports/Keeps.antt =====
-- What port resolution leaves as it was, and when it succeeds.
use tunneld.Prelude.{
  String, ℤ, pos, ◌≡◌, refl, ◌⊎◌, inl, inr, true, none, some, List, [], ◌∷◌, map, arith, eq_ℤ, All,
  elem, if◌then◌else◌, Bool-cases, suc, ℕ, ◌≤◌, length, is_some,
}
use tunneld.Errors.{ok, >>=-eq-ok}
use tunneld.Proto.{TunnelSpec, SshForward, KubectlForward, SpecType, unset, ssh, kubectl}
use tunneld.Tunnel.Ports.{
  PortMapping, Listens, listen_on, allocate_port, actual_port, resolve_ssh, resolve_kubectl,
  resolve_type, resolve_ports, ssh_keys, kubectl_keys, keys_of_type, local_port_keys, wrap,
}

-- A port that is not 0 stays.
actual_port_keeps :
    (addr : String) (c : ℤ) (ports : Listens) {p : ℤ} {rest : Listens}
    → wrap (actual_port addr c ports) ≡ ok (p, rest)
    → (eq_ℤ c (pos 0) ≡ true) ⊎ (p ≡ c)
unfolding actual_port
actual_port_keeps addr c [] h = ground arith
actual_port_keeps addr c (none ∷ ports) h = ground arith
actual_port_keeps addr c (some q ∷ ports) h = ground arith

-- What the mappings of ssh forwards say of the forwards, and which keys are still claimed.
ssh_keeps :
    (fs : List SshForward) (ports : Listens) {fs' : List SshForward} {ms : List PortMapping}
    {rest : Listens}
    → resolve_ssh fs ports ≡ ok (fs', ms, rest)
    → (map (λ m. m.configured_port) ms ≡ map (λ f. f.listen_port) fs)
      × (map (λ m. m.remote_port) ms ≡ map (λ f. f.target_port) fs)
      × ((k : String) → elem k (ssh_keys fs) ≡ true → elem k (ssh_keys fs') ≡ true)
unfolding resolve_ssh ssh_keys elem
ssh_keeps [] ports h = (ground arith, ground arith, λ k e. ground arith)
ssh_keeps (f ∷ fs) ports h =
    let ((p, ports'), e₁, h₁) =
      >>=-eq-ok (wrap (actual_port (listen_on f.listen_address) f.listen_port ports)) _ h in
    let ((fs₀, ms₀, r₀), e₂, h₂) = >>=-eq-ok (resolve_ssh fs ports') _ h₁ in
    let same = actual_port_keeps (listen_on f.listen_address) f.listen_port ports e₁ in
    let (cs, rs, ks) = ssh_keeps fs ports' e₂ in
    (ground arith, ground arith, λ k e. ground (arith, ks k))

kubectl_keeps :
    (fs : List KubectlForward) (ports : Listens) {fs' : List KubectlForward} {ms : List PortMapping}
    {rest : Listens}
    → resolve_kubectl fs ports ≡ ok (fs', ms, rest)
    → (map (λ m. m.configured_port) ms ≡ map (λ f. f.local_port) fs)
      × (map (λ m. m.remote_port) ms ≡ map (λ f. f.remote_port) fs)
      × ((k : String) → elem k (kubectl_keys fs) ≡ true → elem k (kubectl_keys fs') ≡ true)
unfolding resolve_kubectl kubectl_keys elem
kubectl_keeps [] ports h = (ground arith, ground arith, λ k e. ground arith)
kubectl_keeps (f ∷ fs) ports h =
    let ((p, ports'), e₁, h₁) =
      >>=-eq-ok (wrap (actual_port (listen_on f.local_address) f.local_port ports)) _ h in
    let ((fs₀, ms₀, r₀), e₂, h₂) = >>=-eq-ok (resolve_kubectl fs ports') _ h₁ in
    let same = actual_port_keeps (listen_on f.local_address) f.local_port ports e₁ in
    let (cs, rs, ks) = kubectl_keeps fs ports' e₂ in
    (ground arith, ground arith, λ k e. ground (arith, ks k))

-- The configured and the remote ports of a spec's forwards, in order.
abbrev pub configured_ports : SpecType → List ℤ
configured_ports unset = []
configured_ports (ssh s) = map (λ f. f.listen_port) s.local_forwards
configured_ports (kubectl k) = map (λ f. f.local_port) k.forwards

abbrev pub remote_ports : SpecType → List ℤ
remote_ports unset = []
remote_ports (ssh s) = map (λ f. f.target_port) s.local_forwards
remote_ports (kubectl k) = map (λ f. f.remote_port) k.forwards

type_keeps :
    (t : SpecType) (ports : Listens) {t' : SpecType} {ms : List PortMapping} {rest : Listens}
    → resolve_type t ports ≡ ok (t', ms, rest)
    → (map (λ m. m.configured_port) ms ≡ configured_ports t)
      × (map (λ m. m.remote_port) ms ≡ remote_ports t)
      × ((k : String) → elem k (keys_of_type t) ≡ true → elem k (keys_of_type t') ≡ true)
unfolding resolve_type keys_of_type
type_keeps unset ports h = (ground arith, ground arith, λ k e. ground arith)
type_keeps (ssh s) ports h =
    let ((fs, ms₀, r), e, h₁) = >>=-eq-ok (resolve_ssh s.local_forwards ports) _ h in
    let (cs, rs, ks) = ssh_keeps s.local_forwards ports e in
    (ground arith, ground arith, λ k e. ground (arith, ks k))
type_keeps (kubectl c) ports h =
    let ((fs, ms₀, r), e, h₁) = >>=-eq-ok (resolve_kubectl c.forwards ports) _ h in
    let (cs, rs, ks) = kubectl_keeps c.forwards ports e in
    (ground arith, ground arith, λ k e. ground (arith, ks k))

-- When resolution succeeds there is one mapping for each forward, in order, with the configured
-- and the remote port of that forward, and every key that the spec claimed is still claimed.
pub resolve_ports_keeps :
    (spec : TunnelSpec) (ports : Listens) {spec' : TunnelSpec} {ms : List PortMapping}
    {rest : Listens}
    → resolve_ports spec ports ≡ ok (spec', ms, rest)
    → (map (λ m. m.configured_port) ms ≡ configured_ports spec.type)
      × (map (λ m. m.remote_port) ms ≡ remote_ports spec.type)
      × ((k : String)
          → elem k (local_port_keys spec) ≡ true
          → elem k (local_port_keys spec') ≡ true)
unfolding resolve_ports local_port_keys
resolve_ports_keeps spec ports h =
    let ((t, ms₀, r), e, h₁) = >>=-eq-ok (resolve_type spec.type ports) _ h in
    let (cs, rs, ks) = type_keeps spec.type ports e in
    (ground arith, ground arith, λ k e. ground (arith, ks k))

-- How many forwards ask for a dynamic port.
abbrev pub dynamic : List ℤ → ℕ
dynamic [] = 0
dynamic (p ∷ ps) = if eq_ℤ p (pos 0) then suc (dynamic ps) else dynamic ps

abbrev pub Granted : Listens → Type 0
Granted = All (λ o. is_some o ≡ true)

actual_port_total :
    (addr : String) (c : ℤ) (ports : Listens) (n : ℕ)
    → Granted ports
    → (if eq_ℤ c (pos 0) then suc n else n) ≤ length ports
    → (p : ℤ) × (rest : Listens) × (wrap (actual_port addr c ports) ≡ ok (p, rest))
      × Granted rest
      × (n ≤ length rest)
unfolding actual_port allocate_port
actual_port_total addr c [] n g h = (c, [], ground arith, tt, ground arith)
actual_port_total addr c (none ∷ ports) n g h = absurd (ground arith)
actual_port_total addr c (some q ∷ ports) n g h = elim (Bool-cases (eq_ℤ c (pos 0))) [
  | inl z ↦ (q, ports, rw z, g.1, ground arith)
  | inr z ↦ (c, some q ∷ ports, rw z, g, ground arith)
]

ssh_total :
    (fs : List SshForward) (ports : Listens)
    → Granted ports
    → dynamic (map (λ f. f.listen_port) fs) ≤ length ports
    → (r : List SshForward × List PortMapping × Listens) × (resolve_ssh fs ports ≡ ok r)
unfolding resolve_ssh
ssh_total [] ports g h = (([], [], ports), refl)
ssh_total (f ∷ fs) ports g h =
    let (p, ports', e, g', h') =
      actual_port_total (listen_on f.listen_address) f.listen_port ports
        (dynamic (map (λ (f : SshForward). f.listen_port) fs)) g h in
    let ((fs', ms, rest), e') = ssh_total fs ports' g' h' in
    (
      (
        record f { listen_port = p } ∷ fs',
        record {
          local_address = listen_on f.listen_address;
          configured_port = f.listen_port;
          actual_port = p;
          remote_port = f.target_port;
        }
            ∷ ms,
        rest,
      ),
      ground arith,
    )

kubectl_total :
    (fs : List KubectlForward) (ports : Listens)
    → Granted ports
    → dynamic (map (λ f. f.local_port) fs) ≤ length ports
    → (r : List KubectlForward × List PortMapping × Listens) × (resolve_kubectl fs ports ≡ ok r)
unfolding resolve_kubectl
kubectl_total [] ports g h = (([], [], ports), refl)
kubectl_total (f ∷ fs) ports g h =
    let (p, ports', e, g', h') =
      actual_port_total (listen_on f.local_address) f.local_port ports
        (dynamic (map (λ (f : KubectlForward). f.local_port) fs)) g h in
    let ((fs', ms, rest), e') = kubectl_total fs ports' g' h' in
    (
      (
        record f { local_port = p } ∷ fs',
        record {
          local_address = listen_on f.local_address;
          configured_port = f.local_port;
          actual_port = p;
          remote_port = f.remote_port;
        }
            ∷ ms,
        rest,
      ),
      ground arith,
    )

type_total :
    (t : SpecType) (ports : Listens)
    → Granted ports
    → dynamic (configured_ports t) ≤ length ports
    → (r : SpecType × List PortMapping × Listens) × (resolve_type t ports ≡ ok r)
unfolding resolve_type
type_total unset ports g h = ((unset, [], ports), refl)
type_total (ssh s) ports g h =
    let ((fs, ms, rest), e) = ssh_total s.local_forwards ports g h in
    ((ssh (record s { local_forwards = fs }), ms, rest), ground arith)
type_total (kubectl k) ports g h =
    let ((fs, ms, rest), e) = kubectl_total k.forwards ports g h in
    ((kubectl (record k { forwards = fs }), ms, rest), ground arith)

-- Resolution succeeds if the system grants as many ports as the spec has dynamic forwards.
pub resolve_ports_total :
    (spec : TunnelSpec) (ports : Listens)
    → Granted ports
    → dynamic (configured_ports spec.type) ≤ length ports
    → (r : TunnelSpec × List PortMapping × Listens) × (resolve_ports spec ports ≡ ok r)
unfolding resolve_ports
resolve_ports_total spec ports g h =
    let ((t, ms, rest), e) = type_total spec.type ports g h in
    ((record spec { type = t }, ms, rest), ground arith)
