-- ===== src/Dependency/Laws.antt =====
-- What gographs documents of the operations that the planner calls, as laws over two views of a
-- graph: its vertices in the order in which they were added, and its edges.
use mathlib.Core.List.{Perm}
use tunneld.Prelude.{ℕ, zero, suc, ◌<◌, ◌≡◌, List, [], ◌∷◌, ◌++◌, length, get_elem?, Memᴰ}
use tunneld.Errors.{ok}
use tunneld.Tunnel.{Spec}
use tunneld.Dependency.{Graphs}

-- from, from + 1, …: n numbers
unfoldable pub range_from : ℕ → ℕ → List ℕ
range_from from zero = []
range_from from (suc n) = from ∷ range_from (suc from) n

-- `x` stands in the list before `y`.
abbrev pub Before {ℓ} : {A : Type ℓ} → A → A → List A → Type ℓ
Before {A} x y xs =
    (before : List A) × (after : List A) × (xs ≡ before ++ (x ∷ after)) × Memᴰ y after

pub record GraphLaws (G : Graphs) : Type 0 where
  pub vertices : G.Graph → List Spec
  pub edges : G.Graph → List (ℕ × ℕ)
  pub vertices-new : vertices G.new ≡ []
  -- A new vertex gets the next index.
  pub index-add_vertex : (s : Spec) (g : G.Graph) → (G.add_vertex s g).0 ≡ length (vertices g)
  pub vertices-add_vertex :
      (s : Spec) (g : G.Graph) → vertices (G.add_vertex s g).1 ≡ vertices g ++ s ∷ []
  -- A connection between two vertices succeeds, and adds its edge.
  pub connect_total :
      (i j : ℕ) (g : G.Graph)
      → i < length (vertices g)
      → j < length (vertices g)
      → (g' : G.Graph) × (G.connect i j g ≡ ok g')
  pub vertices-connect :
      (i j : ℕ) (g : G.Graph) {g' : G.Graph} → G.connect i j g ≡ ok g' → vertices g' ≡ vertices g
  pub edges-connect :
      (i j : ℕ) (g : G.Graph) {g' : G.Graph} → G.connect i j g ≡ ok g' → edges g' ≡ (i, j) ∷ edges g
  pub vertex_lem : (i : ℕ) (g : G.Graph) → G.vertex i g ≡ get_elem? (vertices g) i
  -- A sort lists every vertex once, and the source of each edge before its target.
  pub sort_perm :
      (g : G.Graph) {order : List ℕ}
      → G.topological_sort g ≡ ok order
      → Perm order (range_from 0 (length (vertices g)))
  pub sort_ordered :
      (g : G.Graph) {order : List ℕ} (i j : ℕ)
      → G.topological_sort g ≡ ok order
      → Memᴰ (i, j) (edges g)
      → Before i j order
