-- ===== src/Tunnel/Ports.antt =====
-- internal/tunnel/ports.go. `allocatePort` asks the operating system: the model reads the ports
-- that it hands out from a list, `none` for a failed net.Listen, and leaves what it did not use.
-- The error of a failed listen is the message that wraps it.
pub mod Laws
pub mod Keeps
use tunneld.Prelude.{
  String, ℤ, pos, Option, none, some, List, [], ◌∷◌, ◌==◌, eq_ℤ, show, join_host_port,
  if◌then◌else◌,
}
use tunneld.Constants.{default_listen_address}
use tunneld.Errors.{io, Result, ok, err, port_alloc, ◌>>=◌}
use tunneld.Proto.{TunnelSpec, SshForward, KubectlForward, SpecType, unset, ssh, kubectl}

pub record PortMapping : Type 0 where
  pub local_address : String
  pub configured_port : ℤ
  pub actual_port : ℤ
  pub remote_port : ℤ

-- if addr == "" { addr = constants.DefaultListenAddress }
abbrev pub listen_on : String → String
listen_on addr = if addr == "" then default_listen_address else addr

-- What net.Listen answers to the calls to come.
abbrev pub Listens : Type 0
Listens = List (Option ℤ)

unfoldable pub allocate_port : String → Listens → Result (ℤ × Listens)
allocate_port addr [] = err (io "no port")
allocate_port addr (none ∷ rest) = err (io "listen failed")
allocate_port addr (some p ∷ rest) = ok (p, rest)

-- The port that a forward gets: its own, or one of the system's for 0.
unfoldable pub actual_port : String → ℤ → Listens → Result (ℤ × Listens)
unfolding allocate_port
actual_port addr configured ports =
    if eq_ℤ configured (pos 0) then allocate_port addr ports else ok (configured, ports)

abbrev wrap {ℓ} : {A : Type ℓ} → Result A → Result A
wrap (ok a) = ok a
wrap (err e) = err (port_alloc e)

-- The loop over ssh.LocalForwards.
unfoldable pub resolve_ssh :
    List SshForward → Listens → Result (List SshForward × List PortMapping × Listens)
unfolding actual_port
resolve_ssh [] ports = ok ([], [], ports)
resolve_ssh (f ∷ fs) ports = do
  (actual, ports') ← wrap (actual_port (listen_on f.listen_address) f.listen_port ports)
  (fs', ms, rest) ← resolve_ssh fs ports'
  ok (
    record f { listen_port = actual } ∷ fs',
    record {
      local_address = listen_on f.listen_address;
      configured_port = f.listen_port;
      actual_port = actual;
      remote_port = f.target_port;
    }
        ∷ ms,
    rest,
  )

-- The loop over kc.Forwards.
unfoldable pub resolve_kubectl :
    List KubectlForward → Listens → Result (List KubectlForward × List PortMapping × Listens)
unfolding actual_port
resolve_kubectl [] ports = ok ([], [], ports)
resolve_kubectl (f ∷ fs) ports = do
  (actual, ports') ← wrap (actual_port (listen_on f.local_address) f.local_port ports)
  (fs', ms, rest) ← resolve_kubectl fs ports'
  ok (
    record f { local_port = actual } ∷ fs',
    record {
      local_address = listen_on f.local_address;
      configured_port = f.local_port;
      actual_port = actual;
      remote_port = f.remote_port;
    }
        ∷ ms,
    rest,
  )

resolve_type : SpecType → Listens → Result (SpecType × List PortMapping × Listens)
unfolding resolve_ssh resolve_kubectl
resolve_type unset ports = ok (unset, [], ports)
resolve_type (ssh s) ports = do
  (fs, ms, rest) ← resolve_ssh s.local_forwards ports
  ok (ssh (record s { local_forwards = fs }), ms, rest)
resolve_type (kubectl k) ports = do
  (fs, ms, rest) ← resolve_kubectl k.forwards ports
  ok (kubectl (record k { forwards = fs }), ms, rest)

-- ResolvePortsInProto, with the ports that are left.
unfoldable pub resolve_ports :
    TunnelSpec → Listens → Result (TunnelSpec × List PortMapping × Listens)
unfolding resolve_type
resolve_ports spec ports = do
  (type, ms, rest) ← resolve_type spec.type ports
  ok (record spec { type = type }, ms, rest)

-- The key of a forward on a port that is not 0.
port_key : String → ℤ → List String → List String
port_key addr port keys =
    if eq_ℤ port (pos 0) then keys else join_host_port (listen_on addr) (show port) ∷ keys

unfoldable pub ssh_keys : List SshForward → List String
unfolding port_key
ssh_keys [] = []
ssh_keys (f ∷ fs) = port_key f.listen_address f.listen_port (ssh_keys fs)

unfoldable pub kubectl_keys : List KubectlForward → List String
unfolding port_key
kubectl_keys [] = []
kubectl_keys (f ∷ fs) = port_key f.local_address f.local_port (kubectl_keys fs)

keys_of_type : SpecType → List String
unfolding ssh_keys kubectl_keys
keys_of_type unset = []
keys_of_type (ssh s) = ssh_keys s.local_forwards
keys_of_type (kubectl k) = kubectl_keys k.forwards

-- LocalPortKeys
unfoldable pub local_port_keys : TunnelSpec → List String
unfolding keys_of_type
local_port_keys spec = keys_of_type spec.type
