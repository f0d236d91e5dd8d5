-- ===== src/Examples/Configured.antt =====
-- Messages and configurations.
use tunneld.Prelude.{
  ◌≡◌, ◌↔◌, refl, String, pos, true, none, some, List, [], ◌∷◌, map, elem, arith, inl,
}
use tunneld.Errors.{ok}
use tunneld.Proto.{TunnelSpec, SshSpec, IsExact, nanoseconds}
use tunneld.Tunnel.Ports.{PortMapping, Listens, resolve_ports, local_port_keys}
use tunneld.Tunnel.Ports.Laws.{mapping_key, keys-resolve_ports}
use tunneld.Tunnel.Ports.Keeps.{
  configured_ports, remote_ports, resolve_ports_keeps, resolve_ports_total,
}
use tunneld.Config.{TunnelConfig, Config, SshConfig}
use tunneld.Config.Convert.{to_proto, from_proto}
use tunneld.Config.Convert.RoundTrip.{
  IsPortable, IsComplete, read_back, send_again, from_proto-to_proto, to_proto-from_proto,
}
use tunneld.Config.Validate.{validate}
use tunneld.Config.Validate.Ports.{AllDistinct, Converts, claimed, validate_iff}
use tunneld.Examples.Samples.{second, one_second, policy, health, message}

-- A tunnel whose one forward takes a dynamic port.
abbrev dynamic_message : TunnelSpec
dynamic_message = message "db" [] (pos 0)

abbrev one_port : Listens
one_port = some (pos 40001) ∷ []

abbrev mappings : List PortMapping
mappings =
    record {
      local_address = "127.0.0.1";
      configured_port = pos 0;
      actual_port = pos 40001;
      remote_port = pos 5432;
    }
    ∷ []

resolved : resolve_ports dynamic_message one_port ≡ ok (message "db" [] (pos 40001), mappings, [])
unfolding resolve_ports
resolved = refl

keys-resolve_ports_example :
    local_port_keys (message "db" [] (pos 40001)) ≡ map mapping_key mappings
keys-resolve_ports_example = keys-resolve_ports dynamic_message one_port (refl, tt) resolved

resolve_ports_keeps_example :
    (map (λ m. m.configured_port) mappings ≡ configured_ports dynamic_message.type)
    × (map (λ m. m.remote_port) mappings ≡ remote_ports dynamic_message.type)
    × ((k : String)
        → elem k (local_port_keys dynamic_message) ≡ true
        → elem k (local_port_keys (message "db" [] (pos 40001))) ≡ true)
resolve_ports_keeps_example = resolve_ports_keeps dynamic_message one_port resolved

resolve_ports_total_example :
    (r : TunnelSpec × List PortMapping × Listens) × (resolve_ports dynamic_message one_port ≡ ok r)
resolve_ports_total_example = resolve_ports_total dynamic_message one_port (refl, tt) (ground arith)

abbrev section : SshConfig
section = record {
  user = "me";
  host = "bastion";
  port = pos 22;
  identity_key_file = "";
  identity_key_ref = "id";
  local_forwards =
      record {
        listen_address = "127.0.0.1";
        listen_port = pos 5432;
        target_host = "db";
        target_port = pos 5432;
      }
      ∷ [];
  options = [];
}

abbrev pub tunnel : TunnelConfig
tunnel = record {
  enabled = true;
  type = "ssh";
  depends_on = [];
  ssh = some section;
  kubectl = none;
  health = record {
    type = "tcp";
    address = "";
    interval = second;
    timeout = second;
    startup_timeout = second;
  };
  restart = record { policy = "always"; delay = second; max_attempts = pos 3; backoff = none };
  startup_timeout = second;
  shutdown_timeout = second;
}

tunnel-IsPortable : IsPortable tunnel
tunnel-IsPortable = record {
  enabled = refl;
  attempts = ground arith;
  durations =
      (ground arith, ground arith, ground arith, ground arith, ground arith, ground arith, tt);
  section = inl (section, refl, refl, refl, ground arith, ((ground arith, ground arith), tt));
}

from_proto-to_proto_example : read_back (to_proto tunnel "db") ≡ some tunnel
from_proto-to_proto_example = from_proto-to_proto tunnel "db" tunnel-IsPortable

abbrev complete : TunnelSpec
complete = message "db" [] (pos 5432)

second-IsExact : IsExact (some one_second)
unfolding nanoseconds
second-IsExact = (ground arith, ground arith)

complete-IsComplete : IsComplete complete health policy
complete-IsComplete = record {
  health = refl;
  restart = refl;
  type = (ground arith, ((ground arith, ground arith), tt));
  attempts = ground arith;
  startup = second-IsExact;
  shutdown = second-IsExact;
  interval = second-IsExact;
  timeout = second-IsExact;
  health_startup = second-IsExact;
  delay = second-IsExact;
  backoff = second-IsExact;
}

to_proto-from_proto_example : send_again (from_proto complete) "db" ≡ some (ok complete)
to_proto-from_proto_example = to_proto-from_proto complete health policy complete-IsComplete

abbrev config : Config
config = record { tunnels = ("db", tunnel) ∷ []; file_path = "tunneld.yaml" }

validate_iff_example :
    (validate config ≡ none)
    ↔ (Converts (("db", tunnel) ∷ []) × AllDistinct (claimed (("db", tunnel) ∷ [])))
validate_iff_example = validate_iff config

abbrev login : SshSpec
login = record {
  user = "me";
  host = "bastion";
  port = pos 2222;
  identity_key_file = "";
  local_forwards =
      record {
        listen_address = "";
        listen_port = pos 5432;
        target_host = "db";
        target_port = pos 5432;
      }
      ∷ [];
  options = ("Compression", "yes") ∷ [];
  identity_key_ref = "id";
}
