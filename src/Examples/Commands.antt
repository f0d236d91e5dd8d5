-- ===== src/Examples/Commands.antt =====
-- A configuration with one tunnel, on the client and on the daemon.
use mathlib.Core.Path.{subst}
use mathlib.Core.List.{Perm}
use tunneld.Prelude.{
  ℕ, suc, ◌≡◌, refl, String, ◌<>◌, pos, Bool, true, false, Option, none, some, List, [], ◌∷◌, ◌⊎◌,
  GoMap, lookup, HasUniqueKeys, Memᴰ, arith, is_empty, elem, if◌then◌else◌, ◌==◌,
}
use tunneld.Errors.{Err, ok, err}
use tunneld.Proto.{TunnelSpec, SpecType}
use tunneld.Config.{Config, TunnelConfig, load}
use tunneld.Config.Validate.{to_specs}
use tunneld.Dependency.{plan, new_planner}
use tunneld.Dependency.Plan.{values}
use tunneld.Dependency.Laws.{Before}
use tunneld.Tunnel
use tunneld.Tunnel.{Spec}
use tunneld.Daemon.Supervisor.{Supervisor}
use tunneld.Daemon.Supervisor.Steps.Registry.{registry}
use tunneld.Cmd.Daemon.{Files, RunEnv, validate, run}
use tunneld.Cmd.Daemon.Accepted.{validate-run}
use tunneld.Cmd.Client.{Server}
use tunneld.Cmd.Client.Slurp.{LocalFiles, slurp_keys, key_file}
use tunneld.Cmd.Client.Slurp.Laws.{Slurped, slurp_keys-Slurped}
use tunneld.Cmd.Client.Load.{ClientFiles, load_cmd}
use tunneld.Cmd.Client.Load.Laws.{AllLoaded, IsOrdered, load_cmd-AllLoaded}
use tunneld.Examples.Samples.{working, message}
use tunneld.Examples.Graph.{Digraph, digraphs, digraphs-laws}
use tunneld.Examples.Configured.{tunnel}

abbrev tunnels : GoMap TunnelConfig
tunnels = ("db", tunnel) ∷ []

abbrev files : Files
files = record {
  read_file = λ path. ok "db: …";
  unmarshal = λ content. ok tunnels;
  is_not_exist = λ e. false;
}

abbrev config : Config
config = record { tunnels = tunnels; file_path = "tunnels.yaml" }

abbrev env : RunEnv
env = record { key_files = []; tunnel_files = []; listen = none; starts = λ name. working }

loaded : load files.read_file files.unmarshal "tunnels.yaml" ≡ ok config
unfolding load
loaded = refl

one_key : HasUniqueKeys tunnels
unfolding lookup
one_key = (refl, tt)

unique :
    (c : Config)
    → load files.read_file files.unmarshal "tunnels.yaml" ≡ ok c
    → HasUniqueKeys c.tunnels
unfolding load
unique c h =
    let e : config ≡ c = ground (arith, h) in
    subst (λ (x : Config). HasUniqueKeys x.tunnels) e one_key

accepted : (validate digraphs files "tunnels.yaml").code ≡ 0
unfolding validate load tunneld.Config.Validate.validate tunneld.Config.Convert.to_spec
    Tunnel.from_proto tunneld.Tunnel.Ports.local_port_keys tunneld.Prelude.int32 lookup
    tunneld.Dependency.plan tunneld.Dependency.new_planner to_specs tunneld.Prelude.insert
    tunneld.Dependency.connect_deps tunneld.Dependency.Laws.range_from
accepted = refl

validate-run_example :
    (c : Config) × (specs : GoMap Spec) × (s : Supervisor Digraph) × (load files.read_file
        files.unmarshal "tunnels.yaml"
      ≡ ok c)
    × (to_specs c ≡ ok specs)
    × (run digraphs files env "tunnels.yaml" "/keys" "/tunnels" false ≡ ok s)
    × ((n : String) → registry s n ≡ lookup n specs)
validate-run_example =
    validate-run digraphs digraphs-laws files env "tunnels.yaml" "/keys" "/tunnels" unique refl
      accepted

-- A home directory with one key.
abbrev local : LocalFiles
local = record {
  home = "/home/me";
  join = λ dir path. dir <> path;
  base = λ path. "id_rsa";
  read_file = λ path. if path == "/home/me/.ssh/id_rsa" then ok (1 ∷ []) else err (Err.io path);
}

abbrev ssh_with : String → String → SpecType
ssh_with file ref = SpecType.ssh (record {
  user = "me";
  host = "bastion";
  port = pos 22;
  identity_key_file = file;
  local_forwards = [];
  options = [];
  identity_key_ref = ref;
})

abbrev with_file : TunnelSpec
with_file = record (message "db" [] (pos 0)) { type = ssh_with "~/.ssh/id_rsa" "" }

abbrev with_ref : TunnelSpec
with_ref = record with_file { type = ssh_with "" "id_rsa" }

slurped : slurp_keys local with_file ≡ ok (with_ref, ("id_rsa", 1 ∷ []) ∷ [])
unfolding slurp_keys
slurped = refl

slurp_keys-Slurped_example :
    Slurped local with_file.type with_ref.type (("id_rsa", 1 ∷ []) ∷ [])
    × (key_file with_ref.type ≡ "")
    × (slurp_keys local with_ref ≡ ok (with_ref, []))
    × (with_ref.name ≡ with_file.name)
    × (with_ref.depends_on ≡ with_file.depends_on)
slurp_keys-Slurped_example = slurp_keys-Slurped local with_file slurped

-- A server that counts the calls.
abbrev counting : Server ℕ
counting = record {
  dial = none;
  create = λ req w. (suc w, none);
  delete = λ name w. (suc w, none);
  start = λ name w. (suc w, none);
  stop = λ name w. (suc w, none);
  enable = λ name w. (suc w, none);
  disable = λ name w. (suc w, none);
  status = λ name w. ok [];
  wait = λ name timeout w. (suc w, ok ("running", []));
  add_key = λ name content w. (suc w, none);
  list_keys = λ w. ok [];
  delete_key = λ name w. (suc w, none);
}

abbrev client_files : ClientFiles
client_files = record {
  local = local;
  read_file = λ path. ok "db: …";
  unmarshal = λ content. ok tunnels;
  unmarshal_tunnel = λ content. ok tunnel;
}

load_code : (load_cmd counting digraphs client_files true "tunnels.yaml" 0).1.code ≡ 0
unfolding load_cmd load to_specs tunneld.Config.Convert.to_spec Tunnel.from_proto
    tunneld.Dependency.plan tunneld.Dependency.new_planner tunneld.Prelude.insert
    tunneld.Dependency.connect_deps tunneld.Dependency.Laws.range_from slurp_keys
load_code = refl

load_cmd-AllLoaded_example :
    (c : Config) × (specs : GoMap Spec) × (order : List Spec) × (load client_files.read_file
        client_files.unmarshal "tunnels.yaml"
      ≡ ok c)
    × (to_specs c ≡ ok specs)
    × ((plan digraphs (new_planner digraphs specs)).1 ≡ ok order)
    × Perm order (values specs)
    × AllLoaded counting local true order 0
        (load_cmd counting digraphs client_files true "tunnels.yaml" 0).0
    × IsOrdered specs order
load_cmd-AllLoaded_example =
    load_cmd-AllLoaded counting digraphs digraphs-laws client_files true "tunnels.yaml" 0 load_code
