-- ===== src/Examples/Forwarding.antt =====
-- The command line of kubectl for a tunnel with two forwards.
use tunneld.Prelude.{◌≡◌, refl, String, pos, true, some, [], ◌∷◌}
use tunneld.Proto.{KubectlSpec}
use tunneld.Tunnel.Command.{kubectl_args}
use tunneld.Tunnel.Command.Kubectl.{read, read-kubectl_args}

abbrev web : KubectlSpec
web = record {
  kubeconfig_file = "";
  kubeconfig_ref = "config";
  context = "staging";
  namespace = "web";
  resource = "svc/web";
  forwards =
      record { local_address = "127.0.0.1"; local_port = pos 8080; remote_port = pos 80 }
      ∷ record { local_address = "127.0.0.2"; local_port = pos 8443; remote_port = pos 443 }
      ∷ [];
  api_server = "";
  insecure_skip_tls_verify = true;
}

read-kubectl_args_example :
    read (kubectl_args "/keys/config" web)
    ≡ some (record {
      kubeconfigs = "/keys/config" ∷ [];
      contexts = "staging" ∷ [];
      servers = [];
      insecure = true;
      namespaces = "web" ∷ [];
      addresses = "127.0.0.1" ∷ [];
      positional = "port-forward" ∷ "svc/web" ∷ "8080:80" ∷ "8443:443" ∷ [];
    })
unfolding tunneld.Prelude.show
read-kubectl_args_example = read-kubectl_args "/keys/config" web refl (refl, (refl, tt))
