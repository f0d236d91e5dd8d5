-- ===== src/Dependency.antt =====
-- internal/dependency/planner.go. The graphs and their algorithms are those of the module
-- github.com/BrunoSilvaFreire/gographs: the interface `Graphs` has what the planner calls.
pub mod Laws
pub mod Plan
use tunneld.Prelude.{
  ℕ, String, Option, none, some, List, [], ◌∷◌, GoMap, lookup, insert, delete, Bool, ◌==◌, eqb,
  if◌then◌else◌,
}
use tunneld.Errors.{
  Err, nil_pointer, cycle_detected, missing_tunnel, tunnel_not_found, Result, ok, err, ◌>>=◌,
}
use tunneld.Tunnel
use tunneld.Tunnel.{Spec}

-- pkg.AdjacencyList[tunnel.Spec, struct{}], algorithms.TopologicalSort and algorithms.Flood. An
-- operation that changes a graph returns the new one. `cycle_detected` stands for
-- pkg.ErrCycleDetected.
pub record Graphs : Type 1 where
  pub Graph : Type 0
  pub new : Graph
  pub add_vertex : Spec → Graph → ℕ × Graph
  pub connect : ℕ → ℕ → Graph → Result Graph
  pub vertex : ℕ → Graph → Option Spec
  pub topological_sort : Graph → Result (List ℕ)
  pub flood : ℕ → Graph → List ℕ

pub record Planner (Graph : Type 0) : Type 0 where
  pub specs : GoMap Spec
  pub graph : Graph
  pub indices : GoMap ℕ

module _ (G : Graphs) where
  open G use {Graph, new, add_vertex, connect, vertex, topological_sort, flood}

  -- NewPlanner
  unfoldable pub new_planner : GoMap Spec → Planner Graph
  new_planner specs = record { specs = specs; graph = new; indices = [] }

  -- AddSpec
  unfoldable pub add_spec : Spec → Planner Graph → Planner Graph
  add_spec s p = record p { specs = insert (Tunnel.name s) s p.specs }

  -- RemoveSpec: the graph and the indices stay.
  unfoldable pub remove_spec : String → Planner Graph → Planner Graph
  remove_spec name p = record p { specs = delete name p.specs }

  -- The loop that adds a vertex for each spec.
  unfoldable pub add_vertices : GoMap Spec → Graph → GoMap ℕ → Graph × GoMap ℕ
  add_vertices [] g ix = (g, ix)
  add_vertices ((name, s) ∷ rest) g ix =
      let (i, g') = add_vertex s g in add_vertices rest g' (insert name i ix)

  -- p.indices[name], 0 if the name is missing
  unfoldable pub index_of : String → GoMap ℕ → ℕ
  index_of name ix = elim (lookup name ix) [ none ↦ 0 | some i ↦ i ]

  -- The loop over spec.Dependencies(); the edges added before an error stay in the graph.
  unfoldable pub connect_deps : String → ℕ → List String → GoMap ℕ → Graph → Graph × Option Err
  connect_deps name to [] ix g = (g, none)
  connect_deps name to (d ∷ ds) ix g = elim (lookup d ix) [
    | none ↦ (g, some (missing_tunnel name d))
    | some from ↦ elim (connect from to g) [
      | err e ↦ (g, some e)
      | ok g' ↦ connect_deps name to ds ix g'
    ]
  ]

  -- The loop that adds the edges, dependency to dependent.
  unfoldable pub connect_all : GoMap Spec → GoMap ℕ → Graph → Graph × Option Err
  unfolding index_of
  connect_all [] ix g = (g, none)
  connect_all ((name, s) ∷ rest) ix g =
      let (g', e) = connect_deps name (index_of name ix) (Tunnel.dependencies s) ix g in
      elim e [ some x ↦ (g', some x) | none ↦ connect_all rest ix g' ]

  -- The loop that reads the sorted vertices; a vertex that is not there is a nil pointer.
  unfoldable pub collect : List ℕ → Graph → Result (List Spec)
  collect [] g = ok []
  collect (i ∷ is) g = elim (vertex i g) [
    | none ↦ err nil_pointer
    | some s ↦ collect is g >>= λ rest. ok (s ∷ rest)
  ]

  sorted : Graph → Option Err → Result (List Spec)
  unfolding collect
  sorted g (some e) = err e
  sorted g none = do order ← topological_sort g; collect order g

  -- The graph is built anew, and stays in the planner also when there is an error.
  unfoldable pub plan : Planner Graph → Planner Graph × Result (List Spec)
  unfolding add_vertices connect_all sorted
  plan p =
      let (g, ix) = add_vertices p.specs new [] in
      let (g', e) = connect_all p.specs ix g in (record p { graph = g'; indices = ix }, sorted g' e)

  -- The loop over Flood, without the start itself.
  unfoldable pub names_of : ℕ → List ℕ → Graph → Result (List String)
  names_of start [] g = ok []
  names_of start (i ∷ is) g =
      let rest = names_of start is g in
      if eqb i start then rest else elim (vertex i g) [
        | none ↦ err nil_pointer
        | some s ↦ rest >>= λ names. ok (Tunnel.name s ∷ names)
      ]

  -- DependentsOf
  unfoldable pub dependents_of : String → Planner Graph → Result (List String)
  unfolding names_of
  dependents_of name p = elim (lookup name p.indices) [
    | none ↦ err (tunnel_not_found name)
    | some start ↦ names_of start (flood start p.graph) p.graph
  ]
