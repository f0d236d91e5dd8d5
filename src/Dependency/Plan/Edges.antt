-- ===== src/Dependency/Plan/Edges.antt =====
-- The edges that Plan adds.

use mathlib.Core.Path.{subst}
use tunneld.Prelude.{
  ℕ, String, ◌≡◌, refl, sym, ◌∙◌, none, some, List, [], ◌∷◌, arith, GoMap, lookup, All, Memᴰ,
  Option-cases, inl, inr,
}
use tunneld.Errors.{ok, Result-cases}
use tunneld.Tunnel
use tunneld.Tunnel.{Spec}
use tunneld.Dependency.{Graphs, index_of, connect_deps, connect_all}
use tunneld.Dependency.Laws.{GraphLaws}

module _ (G : Graphs) (laws : GraphLaws G) where
  open G use {Graph, new, connect, topological_sort}
  open laws use {
    vertices, edges, vertices-new, index-add_vertex, vertices-add_vertex, vertices-connect,
    edges-connect, vertex_lem, sort_perm, sort_ordered,
  }

  -- What the edges of a spec's dependencies are, once they are all there.
  abbrev pub HasEdges : GoMap ℕ → Graph → ℕ → List String → Type 0
  HasEdges ix g to = All (λ d. (from : ℕ) × (lookup d ix ≡ some from) × Memᴰ (from, to) (edges g))

  pub HasEdges-mono :
      (ix : GoMap ℕ) (g g' : Graph) (to : ℕ) (ds : List String)
      → ((e : ℕ × ℕ) → Memᴰ e (edges g) → Memᴰ e (edges g'))
      → HasEdges ix g to ds
      → HasEdges ix g' to ds
  HasEdges-mono ix g g' to [] up h = tt
  HasEdges-mono ix g g' to (d ∷ ds) up ((from, l, m), h) =
      ((from, l, up (from, to) m), HasEdges-mono ix g g' to ds up h)

  pub record Connects (ix : GoMap ℕ) (to : ℕ) (ds : List String) (g g' : Graph) : Type 0 where
    pub same : vertices g' ≡ vertices g
    pub grows : (e : ℕ × ℕ) → Memᴰ e (edges g) → Memᴰ e (edges g')
    pub edged : HasEdges ix g' to ds

  pub connect_deps_step :
      (name : String) (to : ℕ) (d : String) (ds : List String) (ix : GoMap ℕ) (g : Graph) {from : ℕ}
      {g' : Graph}
      → lookup d ix ≡ some from
      → connect from to g ≡ ok g'
      → connect_deps G name to (d ∷ ds) ix g ≡ connect_deps G name to ds ix g'
  unfolding connect_deps
  connect_deps_step name to d ds ix g e e' = ground (arith, e, e')

  pub connect_deps_lem :
      (name : String) (to : ℕ) (ds : List String) (ix : GoMap ℕ) (g : Graph)
      → (connect_deps G name to ds ix g).1 ≡ none
      → Connects ix to ds g (connect_deps G name to ds ix g).0
  unfolding connect_deps
  connect_deps_lem name to [] ix g h = record { same = refl; grows = λ e m. m; edged = tt }
  connect_deps_lem name to (d ∷ ds) ix g h = elim (Option-cases (lookup d ix)) [
    | inl e ↦ absurd (ground arith)
    | inr (from, e) ↦ elim (Result-cases (connect from to g)) [
      | inr (x, e') ↦ absurd (ground arith)
      | inl (g₁, e') ↦
          let step = connect_deps_step name to d ds ix g e e' in
          let c = connect_deps_lem name to ds ix g₁ (rw step at h) in
          let new_edge = edges-connect from to g e' in
          let up = λ (x : ℕ × ℕ) (m : Memᴰ x (edges g)).
            c.grows x (subst (Memᴰ x) (sym new_edge) (Memᴰ.tail m)) in
          rw step (record {
            same = c.same ∙ vertices-connect from to g e';
            grows = up;
            edged = (
              (
                from,
                e,
                c.grows (from, to) (subst (Memᴰ (from, to)) (sym new_edge) (Memᴰ.head refl)),
              ),
              c.edged,
            );
          })
    ]
  ]

  -- The edges of every spec of the map.
  abbrev pub AllEdges : GoMap ℕ → Graph → GoMap Spec → Type 0
  AllEdges ix g = All (λ b. HasEdges ix g (index_of G b.0 ix) (Tunnel.dependencies b.1))

  pub connect_all_step :
      (n : String) (s : Spec) (m : GoMap Spec) (ix : GoMap ℕ) (g : Graph)
      → (connect_deps G n (index_of G n ix) (Tunnel.dependencies s) ix g).1 ≡ none
      → connect_all G ((n, s) ∷ m) ix g
        ≡ connect_all G m ix (connect_deps G n (index_of G n ix) (Tunnel.dependencies s) ix g).0
  unfolding connect_all
  connect_all_step n s m ix g e = ground (arith, e)

  pub record ConnectsAll (ix : GoMap ℕ) (m : GoMap Spec) (g g' : Graph) : Type 0 where
    pub same : vertices g' ≡ vertices g
    pub grows : (e : ℕ × ℕ) → Memᴰ e (edges g) → Memᴰ e (edges g')
    pub edged : AllEdges ix g' m

  pub connect_all_lem :
      (m : GoMap Spec) (ix : GoMap ℕ) (g : Graph)
      → (connect_all G m ix g).1 ≡ none
      → ConnectsAll ix m g (connect_all G m ix g).0
  unfolding connect_all
  connect_all_lem [] ix g h = record { same = refl; grows = λ e m. m; edged = tt }
  connect_all_lem ((n, s) ∷ m) ix g h =
      elim (Option-cases (connect_deps G n (index_of G n ix) (Tunnel.dependencies s) ix g).1) [
        | inr (x, e) ↦ absurd (ground (arith, e))
        | inl e ↦
            let to = index_of G n ix in
            let g₁ = (connect_deps G n to (Tunnel.dependencies s) ix g).0 in
            let c = connect_deps_lem n to (Tunnel.dependencies s) ix g e in
            let step = connect_all_step n s m ix g e in
            let rest = connect_all_lem m ix g₁ (rw step at h) in
            let g' = (connect_all G m ix g₁).0 in
            let done : ConnectsAll ix ((n, s) ∷ m) g g' = record {
              same = rest.same ∙ c.same;
              grows = λ x p. rest.grows x (c.grows x p);
              edged = (
                HasEdges-mono ix g₁ g' to (Tunnel.dependencies s) rest.grows c.edged,
                rest.edged,
              );
            } in
            subst (λ r. ConnectsAll ix ((n, s) ∷ m) g r.0) (sym step) done
      ]
