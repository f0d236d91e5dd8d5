-- ===== src/Examples/Published.antt =====
-- A cluster whose objects of each kind are a map, and a Tunnel that it exposes.
use tunneld.Prelude.{
  pos, String, Bool, true, false, Option, none, some, [], ◌∷◌, GoMap, lookup, insert, delete,
}
use tunneld.Errors.{Err, Result, ok, err}
use tunneld.K8s.Types.{Tunnel, TunnelPhase, Node, AddressType, found}
use tunneld.K8s.Scheduling.{World}
use tunneld.K8s.Client.{Objects}
use tunneld.K8s.Services.{Service, Endpoints, Cluster}

abbrev Store : Type 0
Store = GoMap Service × GoMap Endpoints

abbrev written :
    {A : Type 0} → (GoMap A → Store) → Store → GoMap A → String → Result A → Store × Option Err
written back st m n (ok a) = (back (insert n a m), none)
written back st m n (err e) = (st, some e)

abbrev services : Objects Store Service
services = record {
  get = λ st n. lookup n st.0;
  blank = λ n. record { labels = []; type = ""; selector = none; ports = [] };
  create_or_update = λ st n f.
      written (λ m. (m, st.1)) st st.0 n
        (f (elim (lookup n st.0) [
          | none ↦ record { labels = []; type = ""; selector = none; ports = [] }
          | some a ↦ a
        ]));
  delete = λ st n. ((delete n st.0, st.1), none);
}

abbrev endpoints : Objects Store Endpoints
endpoints = record {
  get = λ st n. lookup n st.1;
  blank = λ n. record { labels = []; subsets = [] };
  create_or_update = λ st n f.
      written (λ m. (st.0, m)) st st.1 n
        (f (elim (lookup n st.1) [ none ↦ record { labels = []; subsets = [] } | some a ↦ a ]));
  delete = λ st n. ((st.0, delete n st.1), none);
}

abbrev pub cluster : Cluster Store
cluster = record {
  services = services;
  endpoints = endpoints;
  own_service = λ s. ok s;
  own_endpoints = λ e. ok e;
}

abbrev exposed : Tunnel
exposed = record {
  namespace = "prod";
  name = "db";
  generation = pos 1;
  labels = [];
  spec = record {
    depends_on = [];
    ssh = none;
    kubectl = some (record {
      kubeconfig_ref = none;
      kubeconfig_secret_ref = none;
      context = "";
      namespace = "";
      resource = "svc/db";
      forwards = record { local_address = ""; local_port = pos 0; remote_port = pos 80 } ∷ [];
      api_server = "";
      insecure_skip_tls_verify = false;
    });
    health = none;
    restart = none;
    startup_timeout = none;
    shutdown_timeout = none;
    node_selector = [];
    expose = some (record { service = true; service_name = ""; forward_index = pos 0 });
  };
  status = record {
    phase = TunnelPhase.healthy;
    node = "node-1";
    resolved_forwards =
        record {
          listen_address = "";
          configured_port = pos 0;
          actual_port = pos 40001;
          remote_port = pos 80;
        }
        ∷ [];
    service_ref = none;
    observed_generation = pos 1;
    conditions = [];
    last_error = none;
  };
}

abbrev matches : GoMap String → GoMap String → Bool
matches selector labels = true

abbrev before : String → String → Bool
before a b = false

abbrev host : Node
host = record {
  name = "node-1";
  labels = [];
  conditions = record { is_ready_type = true; is_true = true } ∷ [];
  addresses = record { type = AddressType.internal_ip; address = "10.0.0.1" } ∷ [];
}

abbrev seen : World
seen = record {
  now = 0;
  get_tunnel = found exposed;
  list_nodes = ok [];
  get_node = λ n. found host;
  patch = λ u. none;
}
