-- ===== src/Examples/Graph.antt =====
-- A graph as a list of vertices and a list of edges, whose sort is the order of the indices where
-- every edge goes upwards, with the laws that the planner relies on.
use mathlib.Core.List.{Perm}
use mathlib.Core.List.Perm
use tunneld.Prelude.{
  ℕ, zero, suc, ◌+◌, ◌<◌, ◌≤◌, ◌≡◌, refl, ap, Bool, true, false, List, [], ◌∷◌, ◌++◌, length,
  get_elem?, Memᴰ, ltb, eqb, if◌then◌else◌, arith, Bool-cases, inl, inr,
}
use tunneld.Errors.{Err, Result, ok, err, cycle_detected}
use tunneld.Tunnel.{Spec}
use tunneld.Dependency.{Graphs}
use tunneld.Dependency.Laws.{GraphLaws, Before, range_from}

pub record Digraph : Type 0 where
  pub vertices : List Spec
  pub edges : List (ℕ × ℕ)

-- Every edge goes from a smaller index to a larger one below `n`.
abbrev pub goes_up : ℕ → List (ℕ × ℕ) → Bool
goes_up n [] = true
goes_up n ((i, j) ∷ es) = if ltb i j then (if ltb j n then goes_up n es else false) else false

abbrev pub connect : ℕ → ℕ → Digraph → Result Digraph
connect i j g =
    if ltb i (length g.vertices)
    then if ltb j (length g.vertices)
      then ok (record g { edges = (i, j) ∷ g.edges })
      else err (Err.io "out of range")
    else err (Err.io "out of range")

abbrev pub topological_sort : Digraph → Result (List ℕ)
topological_sort g =
    if goes_up (length g.vertices) g.edges
    then ok (range_from 0 (length g.vertices))
    else err cycle_detected

abbrev pub targets : ℕ → List (ℕ × ℕ) → List ℕ
targets i [] = []
targets i ((j, k) ∷ es) = let rest = targets i es in if eqb i j then k ∷ rest else rest

abbrev pub digraphs : Graphs
digraphs = record {
  Graph = Digraph;
  new = record { vertices = []; edges = [] };
  add_vertex = λ s g. (length g.vertices, record g { vertices = g.vertices ++ s ∷ [] });
  connect = connect;
  vertex = λ i g. get_elem? g.vertices i;
  topological_sort = topological_sort;
  flood = λ i g. i ∷ targets i g.edges;
}

goes_up-Memᴰ :
    (n i j : ℕ) (es : List (ℕ × ℕ)) → goes_up n es ≡ true → Memᴰ (i, j) es → (i < j) × (j < n)
goes_up-Memᴰ n i j [] h m = elim m [ ]
goes_up-Memᴰ n i j ((a, b) ∷ es) h (Memᴰ.head e) =
    let e₀ : i ≡ a = ap (λ (x : ℕ × ℕ). x.0) e in
    let e₁ : j ≡ b = ap (λ (x : ℕ × ℕ). x.1) e in ground (arith, h, e₀, e₁)
goes_up-Memᴰ n i j ((a, b) ∷ es) h (Memᴰ.tail m) = goes_up-Memᴰ n i j es (ground (arith, h)) m

Memᴰ-range_from : (from n j : ℕ) → from ≤ j → j < from + n → Memᴰ j (range_from from n)
unfolding range_from
Memᴰ-range_from from zero j a b = absurd (ground (arith, a, b))
Memᴰ-range_from from (suc n) j a b = elim (Bool-cases (eqb from j)) [
  | inl e ↦ Memᴰ.head (ground (arith, e))
  | inr e ↦ Memᴰ.tail (Memᴰ-range_from (suc from) n j (ground (arith, a, e)) (ground (arith, b)))
]

Before-range_from :
    (from n i j : ℕ) → from ≤ i → i < j → j < from + n → Before i j (range_from from n)
unfolding range_from
Before-range_from from zero i j a b c = absurd (ground (arith, a, b, c))
Before-range_from from (suc n) i j a b c = elim (Bool-cases (eqb from i)) [
  | inl e ↦
      let same : from ≡ i = ground (arith, e) in
      (
        [],
        range_from (suc from) n,
        ap (λ k. k ∷ range_from (suc from) n) same,
        Memᴰ-range_from (suc from) n j (ground (arith, a, b, same)) (ground (arith, c)),
      )
  | inr e ↦
      let (front, after, q, m) =
        Before-range_from (suc from) n i j (ground (arith, a, e)) b (ground (arith, c)) in
      (from ∷ front, after, ap (λ l. from ∷ l) q, m)
]

connect-vertices : (i j : ℕ) (g g' : Digraph) → connect i j g ≡ ok g' → g'.vertices ≡ g.vertices
connect-vertices i j g g' h = ground (arith, h)

connect-edges : (i j : ℕ) (g g' : Digraph) → connect i j g ≡ ok g' → g'.edges ≡ (i, j) ∷ g.edges
connect-edges i j g g' h = ground (arith, h)

sort-up :
    (g : Digraph) (order : List ℕ)
    → topological_sort g ≡ ok order
    → (goes_up (length g.vertices) g.edges ≡ true) × (order ≡ range_from 0 (length g.vertices))
sort-up g order h = elim (Bool-cases (goes_up (length g.vertices) g.edges)) [
  | inl e ↦ ground (arith, e, h)
  | inr e ↦ absurd (ground (arith, e, h))
]

sort-perm :
    (g : Digraph) (order : List ℕ)
    → topological_sort g ≡ ok order
    → Perm order (range_from 0 (length g.vertices))
sort-perm g order h = rw (sort-up g order h).1 (Perm.refl (range_from 0 (length g.vertices)))

sort-ordered :
    (g : Digraph) (order : List ℕ) (i j : ℕ)
    → topological_sort g ≡ ok order
    → Memᴰ (i, j) g.edges
    → Before i j order
sort-ordered g order i j h m =
    let (up, same) = sort-up g order h in
    let (a, b) = goes_up-Memᴰ (length g.vertices) i j g.edges up m in
    rw same (Before-range_from 0 (length g.vertices) i j (ground arith) a (ground (arith, b)))

pub digraphs-laws : GraphLaws digraphs
digraphs-laws = record {
  vertices = λ g. g.vertices;
  edges = λ g. g.edges;
  vertices-new = refl;
  index-add_vertex = λ s g. refl;
  vertices-add_vertex = λ s g. refl;
  connect_total = λ i j g a b. (record g { edges = (i, j) ∷ g.edges }, ground (arith, a, b));
  vertices-connect = λ i j g {g'} h. connect-vertices i j g g' h;
  edges-connect = λ i j g {g'} h. connect-edges i j g g' h;
  vertex_lem = λ i g. refl;
  sort_perm = λ g {order} h. sort-perm g order h;
  sort_ordered = λ g {order} i j h m. sort-ordered g order i j h m;
}
