-- ===== src/Dependency/Plan.antt =====
-- A plan lists every spec once, each behind all its dependencies.
mod Indices
mod Edges
use mathlib.Core.List.{
  Perm, filter_map, filter_map-append, filter_map-cons-some, filter_map-cons-none, append-nil,
  append_assoc,
}
use mathlib.Core.List.Perm
use mathlib.Core.List.Memᴰ
use mathlib.Core.Path.{subst}
use tunneld.Prelude.{
  HasUniqueKeys, ℕ, zero, suc, ◌+◌, ◌<◌, String, ◌≡◌, refl, sym, ap, String-cases, ◌∙◌, Bool,
  Option, none, some, List, [], ◌∷◌, ◌++◌, map, arith, GoMap, lookup, insert, lookup-insert, All,
  All-Mem, length, length-append, get_elem?, Memᴰ, eq_iff, ◌==◌, if◌then◌else◌, Option-cases,
  Bool-cases, inl, inr,
}
use tunneld.Errors.{Err, Result, ok, err, ◌>>=◌, >>=-eq-ok, Result-cases, nil_pointer}
use tunneld.Tunnel
use tunneld.Tunnel.{Spec}
use tunneld.Dependency.{
  Graphs, Planner, add_vertices, index_of, connect_deps, connect_all, collect, sorted, plan,
}
use tunneld.Dependency.Laws.{GraphLaws, Before, range_from}
pub use Indices.*
use Edges.*

module _ (G : Graphs) (laws : GraphLaws G) where
  open G use {Graph, new, connect, topological_sort}
  open laws use {
    vertices, edges, vertices-new, index-add_vertex, vertices-add_vertex, vertices-connect,
    edges-connect, vertex_lem, sort_perm, sort_ordered,
  }

  collect_step :
      (i : ℕ) (is : List ℕ) (g : Graph) {s : Spec}
      → G.vertex i g ≡ some s
      → collect G (i ∷ is) g ≡ (collect G is g >>= λ rest. ok (s ∷ rest))
  unfolding collect
  collect_step i is g e = ground (arith, e)

  -- Reading the sorted vertices.
  collect-eq :
      (order : List ℕ) (g : Graph) {r : List Spec}
      → collect G order g ≡ ok r
      → r ≡ filter_map (get_elem? (vertices g)) order
  unfolding collect filter_map
  collect-eq [] g h = ground arith
  collect-eq (i ∷ is) g h = elim (Option-cases (G.vertex i g)) [
    | inl e ↦ absurd (ground (arith, e))
    | inr (s, e) ↦
        let (r', e', h') =
          >>=-eq-ok (collect G is g) (λ rest. ok (s ∷ rest)) (rw (collect_step i is g e) at h) in
        let at_i = sym (vertex_lem i g) ∙ e in
        let ih = collect-eq is g e' in
        ground (arith, at_i, ih, h', filter_map-cons-some (get_elem? (vertices g)) i is at_i)
  ]

  -- An order on indices is one on the specs that they lead to.
  Before-filter_map :
      (vs : List Spec) (order : List ℕ) {i j : ℕ} {s t : Spec}
      → get_elem? vs i ≡ some s
      → get_elem? vs j ≡ some t
      → Before i j order
      → Before s t (filter_map (get_elem? vs) order)
  Before-filter_map vs order {i} {j} {s} {t} ei ej (front, bs, e, later) = (
    filter_map (get_elem? vs) front,
    filter_map (get_elem? vs) bs,
    ap (filter_map (get_elem? vs)) e
        ∙ filter_map-append (get_elem? vs) front (i ∷ bs)
        ∙ ap (λ (l : List Spec). filter_map (get_elem? vs) front ++ l)
            (filter_map-cons-some (get_elem? vs) i bs ei),
    Memᴰ-filter_map vs bs ej later,
  )

  sorted-ok :
      (g : Graph) (e : Option Err) {r : List Spec}
      → sorted G g e ≡ ok r
      → (e ≡ none)
        × ((order : List ℕ) × (topological_sort g ≡ ok order) × (collect G order g ≡ ok r))
  unfolding sorted
  sorted-ok g (some x) h = absurd (ground arith)
  sorted-ok g none h = (refl, >>=-eq-ok (topological_sort g) (λ order. collect G order g) h)

  -- What a successful plan leaves: the graph has the specs for vertices and their dependencies for
  -- edges, and the result is a sort of it.
  record Planned (m : GoMap Spec) (r : List Spec) : Type 0 where
    g : Graph
    ix : GoMap ℕ
    order : List ℕ
    full : vertices g ≡ values m
    indexed : (k : String) (j : ℕ) → offset k m ≡ some j → lookup k ix ≡ some j
    missing : (k : String) → lookup k m ≡ none → lookup k ix ≡ none
    edged : AllEdges G laws ix g m
    sorting : topological_sort g ≡ ok order
    result : r ≡ filter_map (get_elem? (values m)) order

  plan-Planned :
      (p : Planner Graph) {r : List Spec}
      → HasUniqueKeys p.specs
      → (plan G p).1 ≡ ok r
      → Planned p.specs r
  unfolding plan lookup
  plan-Planned p {r} u h =
      let g₀ = (add_vertices G p.specs new []).0 in
      let ix = (add_vertices G p.specs new []).1 in
      let g' = (connect_all G p.specs ix g₀).0 in
      let (none_left, (order, sorting, collected)) =
        sorted-ok g' (connect_all G p.specs ix g₀).1 h in
      let c = connect_all_lem G laws p.specs ix g₀ none_left in
      let all =
        c.same
        ∙ vertices-add_vertices G laws p.specs new []
        ∙ ap (λ (l : List Spec). l ++ values p.specs) vertices-new in
      record {
        g = g';
        ix = ix;
        order = order;
        full = all;
        indexed = λ k j o.
            index_found G laws p.specs new [] k j u o
            ∙ ap some (omega (arith, ap (length {A = Spec}) vertices-new));
        missing = λ k e. index_keeps G laws p.specs new [] k e;
        edged = c.edged;
        sorting = sorting;
        result =
            collect-eq order g' collected
            ∙ ap (λ (l : List Spec). filter_map (get_elem? l) order) all;
      }

-- For graphs with the documented laws, a plan of a map with unique keys is a permutation of the
-- planner's specs.
pub plan-perm :
    (G : Graphs) (laws : GraphLaws G) (p : Planner G.Graph) (r : List Spec)
    → HasUniqueKeys p.specs
    → (plan G p).1 ≡ ok r
    → Perm r (values p.specs)
plan-perm G laws p r u h =
    let w = plan-Planned G laws p u h in
    let sorts =
      subst (λ l. Perm w.order (range_from 0 (length l))) w.full (laws.sort_perm w.g w.sorting) in
    let mapped = Perm.filter_map (get_elem? (values p.specs)) sorts in
    subst (λ l. Perm l (values p.specs)) (sym w.result)
      (subst (Perm (filter_map (get_elem? (values p.specs)) w.order))
        (filter_map-range_from [] (values p.specs)) mapped)

-- For graphs with the documented laws, in a plan of a map with unique keys every dependency of a
-- spec is the name of a spec of the planner, which stands before.
pub plan_ordered :
    (G : Graphs) (laws : GraphLaws G) (p : Planner G.Graph) (r : List Spec)
    → HasUniqueKeys p.specs
    → (plan G p).1 ≡ ok r
    → (n : String) (s : Spec) (d : String) → Memᴰ (n, s) p.specs
    → Memᴰ d (Tunnel.dependencies s)
    → (t : Spec) × (lookup d p.specs ≡ some t) × Before t s r
unfolding index_of
plan_ordered G laws p r u h n s d in_map dep =
    let w = plan-Planned G laws p u h in
    let (jn, on, gn) = get-offset n p.specs (lookup-Memᴰ p.specs u in_map) in
    let Edged = λ (b : String × Spec).
      HasEdges G laws w.ix w.g (index_of G b.0 w.ix) (Tunnel.dependencies b.1) in
    let Edge = λ (x : String).
      (from : ℕ) × (lookup x w.ix ≡ some from) × Memᴰ (from, index_of G n w.ix) (laws.edges w.g) in
    let (from, found, edge) =
      All-Mem Edge (Tunnel.dependencies s) (All-Mem Edged p.specs w.edged in_map) dep in
    elim (Option-cases (lookup d p.specs)) [
      | inl out ↦ absurd (ground (arith, w.missing d out))
      | inr (t, known) ↦
          let (jd, od, gd) = get-offset d p.specs known in
          let from_jd : from ≡ jd = ground (arith, w.indexed d jd od) in
          let to_jn : index_of G n w.ix ≡ jn = ground (arith, w.indexed n jn on) in
          let before =
            subst (λ i. Before i jn w.order) from_jd
              (subst (λ j. Before from j w.order) to_jn
                (laws.sort_ordered w.g from (index_of G n w.ix) w.sorting edge)) in
          (
            t,
            known,
            subst (Before t s) (sym w.result)
                (Before-filter_map G laws (values p.specs) w.order gd gn before),
          )
    ]
