-- ===== src/Examples/Adding.antt =====
-- A tunnel that is added to an empty supervisor, and what the API then shows of it.
use tunneld.Prelude.{pos, true, [], arith, lookup}
use tunneld.Dependency.{new_planner}
use tunneld.Daemon.Supervisor.{Supervisor, find}
use tunneld.Daemon.Supervisor.Operations.{add_tunnel}
use tunneld.Daemon.Supervisor.Invariant.{IsValid}
use tunneld.Daemon.Supervisor.Operations.Conflicts.{add_tunnel-IsValid}
use tunneld.Examples.Samples.{working, saving, spec}
use tunneld.Examples.Graph.{Digraph, digraphs}

abbrev pub fresh : Supervisor Digraph
fresh = record {
  planner = new_planner digraphs [];
  heap = [];
  processes = [];
  config = record { tunnels = []; file_path = "" };
  key_dir = "/keys";
  tunnels_dir = "/tunnels";
  has_ctx = true;
  monitors = [];
  key_files = [];
  tunnel_files = [];
}

fresh-IsValid : IsValid fresh
unfolding lookup find
fresh-IsValid = (
  (λ n i l. absurd (ground (arith, l))),
  (λ n m i j p q key ne f. absurd (ground (arith, f))),
  (λ n i p f. absurd (ground (arith, f))),
)

abbrev pub extended : Supervisor Digraph
extended = (add_tunnel digraphs saving working (spec "db" [] (pos 5432)) true fresh).0

pub extended-IsValid : IsValid extended
extended-IsValid =
    add_tunnel-IsValid digraphs saving working (spec "db" [] (pos 5432)) true fresh fresh-IsValid

add_tunnel-IsValid_example : IsValid extended
add_tunnel-IsValid_example =
    add_tunnel-IsValid digraphs saving working (spec "db" [] (pos 5432)) true fresh fresh-IsValid
