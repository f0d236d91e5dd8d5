-- ===== src/Tunnel/Command.antt =====
-- BuildCommand of internal/tunnel/ssh.go and kubectl.go: the program and its arguments.
-- filepath.Join, os.Stat and os.Open are the file system's, a parameter.
pub mod Kubectl
pub mod Reads
use tunneld.Prelude.{
  String, pos, Bool, true, false, not, ◌&&◌, List, [], ◌∷◌, ◌++◌, ◌==◌, ◌<>◌, eq_ℤ, show, GoMap,
  Option, none, some, if◌then◌else◌,
}
use tunneld.Errors.{Err, Result, ok, err, key_not_found, key_not_readable}
use tunneld.Proto.{SshForward, SshSpec, KubectlForward, KubectlSpec, SpecType, unset, ssh, kubectl}
use tunneld.Tunnel.Ports.{listen_on}

-- exec.Cmd: its path and its arguments
pub record Cmd : Type 0 where
  pub path : String
  pub args : List String

-- What BuildCommand asks of the file system; `none` is success.
pub record Files : Type 0 where
  pub join : String → String → String
  pub stat : String → Option Err
  pub open_file : String → Option Err

-- The file, or the key of that name under keyDir, or "".
unfoldable pub key_path : Files → String → String → String → String
key_path fs key_dir file ref =
    if not (file == "") then file else if not (ref == "") then fs.join key_dir ref else ""

check_key : Files → String → Option Err
check_key fs path = if path == "" then none else elim (fs.stat path) [
  | some e ↦ some (key_not_found path e)
  | none ↦ elim (fs.open_file path) [ some e ↦ some (key_not_readable path e) | none ↦ none ]
]

unfoldable pub has_option : String → GoMap String → Bool
has_option key [] = false
has_option key ((k, v) ∷ rest) = if k == key then true else has_option key rest

option_args : GoMap String → List String
option_args [] = []
option_args ((k, v) ∷ rest) = "-o" ∷ (k <> "=" <> v) ∷ option_args rest

forward_args : List SshForward → List String
forward_args [] = []
forward_args (f ∷ fs) =
    "-L"
    ∷ (listen_on f.listen_address
        <> ":"
        <> show f.listen_port
        <> ":"
        <> f.target_host
        <> ":"
        <> show f.target_port)
    ∷ forward_args fs

when : Bool → List String → List String
when b xs = if b then xs else []

-- The arguments of ssh, once the key is there.
unfoldable pub ssh_args : String → SshSpec → List String
unfolding has_option option_args forward_args when
ssh_args identity s =
    ("-N" ∷ "-o" ∷ "BatchMode=yes" ∷ [])
    ++ (when (not (has_option "StrictHostKeyChecking" s.options))
          ("-o" ∷ "StrictHostKeyChecking=accept-new" ∷ [])
        ++ (when (not (eq_ℤ s.port (pos 0)) && not (eq_ℤ s.port (pos 22))) ("-p" ∷ show s.port ∷ [])
            ++ (when (not (identity == "")) ("-i" ∷ identity ∷ [])
                ++ (option_args s.options
                    ++ (forward_args s.local_forwards
                        ++ (if not (s.user == "") then s.user <> "@" <> s.host else s.host)
                          ∷ [])))))

unfoldable pub build_ssh : Files → String → SshSpec → Result Cmd
unfolding key_path check_key ssh_args
build_ssh fs key_dir s =
    let identity = key_path fs key_dir s.identity_key_file s.identity_key_ref in
    elim (check_key fs identity) [
      | some e ↦ err e
      | none ↦ ok (record { path = "ssh"; args = ssh_args identity s })
    ]

pair_args : List KubectlForward → List String
pair_args [] = []
pair_args (f ∷ fs) = (show f.local_port <> ":" <> show f.remote_port) ∷ pair_args fs

-- Only the first forward names the address.
address_args : List KubectlForward → List String
address_args [] = []
address_args (f ∷ fs) =
    if not (f.local_address == "") then "--address" ∷ f.local_address ∷ [] else []

unfoldable pub kubectl_args : String → KubectlSpec → List String
unfolding pair_args address_args when
kubectl_args kubeconfig k =
    when (not (kubeconfig == "")) ("--kubeconfig" ∷ kubeconfig ∷ [])
    ++ (when (not (k.context == "")) ("--context" ∷ k.context ∷ [])
        ++ (when (not (k.api_server == "")) ("--server" ∷ k.api_server ∷ [])
            ++ (when k.insecure_skip_tls_verify ("--insecure-skip-tls-verify=true" ∷ [])
                ++ (when (not (k.namespace == "")) ("-n" ∷ k.namespace ∷ [])
                    ++ ("port-forward"
                        ∷ (address_args k.forwards ++ (k.resource ∷ pair_args k.forwards)))))))

unfoldable pub build_kubectl : Files → String → KubectlSpec → Result Cmd
unfolding key_path kubectl_args
build_kubectl fs key_dir k = ok (record {
  path = "kubectl";
  args = kubectl_args (key_path fs key_dir k.kubeconfig_file k.kubeconfig_ref) k;
})

-- BuildCommand of the spec that FromProto makes: GetSsh and GetKubectl are not nil there.
unfoldable pub build_command : Files → String → SpecType → Option (Result Cmd)
unfolding build_ssh build_kubectl
build_command fs key_dir unset = none
build_command fs key_dir (ssh s) = some (build_ssh fs key_dir s)
build_command fs key_dir (kubectl k) = some (build_kubectl fs key_dir k)
