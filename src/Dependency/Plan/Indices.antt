-- ===== src/Dependency/Plan/Indices.antt =====
-- The vertices that Plan adds, and the index that each name gets.
use mathlib.Core.List.{
  filter_map, filter_map-cons-some, filter_map-cons-none, append-nil, append_assoc,
}
use mathlib.Core.List.Memᴰ
use mathlib.Core.Path.{subst}
use tunneld.Prelude.{
  HasUniqueKeys, ℕ, suc, ◌+◌, String, ◌≡◌, refl, sym, ap, String-cases, ◌∙◌, Option, none, some,
  List, [], ◌∷◌, ◌++◌, map, arith, GoMap, lookup, insert, lookup-insert, length, length-append,
  get_elem?, Memᴰ, eq_iff, ◌==◌, if◌then◌else◌, Option-cases, Bool-cases, inl, inr,
}
use tunneld.Tunnel.{Spec}
use tunneld.Dependency.{Graphs, add_vertices}
use tunneld.Dependency.Laws.{GraphLaws, range_from}

abbrev pub values : GoMap Spec → List Spec
values m = map (λ b. b.1) m

abbrev pub suc_some : Option ℕ → Option ℕ
suc_some none = none
suc_some (some i) = some (suc i)

-- Where a name stands in the map.
pub offset : String → GoMap Spec → Option ℕ
offset k [] = none
offset k ((n, s) ∷ m) = if n == k then some 0 else suc_some (offset k m)

pub offset-suc :
    (k : String) (m : GoMap Spec) (j : ℕ)
    → suc_some (offset k m) ≡ some j
    → (i : ℕ) × (offset k m ≡ some i) × (j ≡ suc i)
offset-suc k m j h = elim (Option-cases (offset k m)) [
  | inl e ↦ (0, absurd (ground arith), absurd (ground arith))
  | inr (i, e) ↦ (i, e, ground arith)
]

-- The place of a name has its spec.
pub get-offset :
    (k : String) (m : GoMap Spec) {s : Spec}
    → lookup k m ≡ some s
    → (j : ℕ) × (offset k m ≡ some j) × (get_elem? (values m) j ≡ some s)
unfolding offset lookup
get-offset k [] h = (0, ground arith, ground arith)
get-offset k ((n, t) ∷ m) h = elim (Bool-cases (n == k)) [
  | inl e ↦ (0, rw e refl, ground arith)
  | inr e ↦ let (j, o, g) = get-offset k m (rw e at h) in (suc j, ground arith, g)
]

pub lookup-Memᴰ :
    (m : GoMap Spec) {n : String} {s : Spec} → HasUniqueKeys m → Memᴰ (n, s) m → lookup n m ≡ some s
unfolding lookup
lookup-Memᴰ [] u h = absurd (Memᴰ.not-nil h)
lookup-Memᴰ ((k, t) ∷ m) {n} {s} (new, u) h = elim (Memᴰ.cases_cons h) [
  | inl e ↦
      ground
        (arith, eq_iff k n, ap (λ (b : String × Spec). b.0) e, ap (λ (b : String × Spec). b.1) e)
  | inr later ↦ ground (arith, lookup-Memᴰ m u later, eq_iff k n)
]

pub Memᴰ-filter_map :
    (vs : List Spec) (is : List ℕ) {j : ℕ} {t : Spec}
    → get_elem? vs j ≡ some t
    → Memᴰ j is
    → Memᴰ t (filter_map (get_elem? vs) is)
unfolding filter_map
Memᴰ-filter_map vs [] e m = absurd (Memᴰ.not-nil m)
Memᴰ-filter_map vs (i ∷ is) {j} {t} e m = elim (Memᴰ.cases_cons m) [
  | inl same ↦
      subst (Memᴰ t)
        (sym
          (filter_map-cons-some (get_elem? vs) i is (subst (λ k. get_elem? vs k ≡ some t) same e)))
        (Memᴰ.head refl)
  | inr later ↦ elim (Option-cases (get_elem? vs i)) [
    | inl out ↦
        subst (Memᴰ t) (sym (filter_map-cons-none (get_elem? vs) i is out))
          (Memᴰ-filter_map vs is e later)
    | inr (s, found) ↦
        subst (Memᴰ t) (sym (filter_map-cons-some (get_elem? vs) i is found))
          (Memᴰ.tail (Memᴰ-filter_map vs is e later))
  ]
]

pub get-middle :
    (vs : List Spec) (w : Spec) (ws : List Spec) → get_elem? (vs ++ (w ∷ ws)) (length vs) ≡ some w
get-middle [] w ws = refl
get-middle (v ∷ vs) w ws = get-middle vs w ws

-- All the vertices, read in the order of their indices.
pub filter_map-range_from :
    (vs ws : List Spec)
    → filter_map (get_elem? (vs ++ ws)) (range_from (length vs) (length ws)) ≡ ws
unfolding filter_map range_from
filter_map-range_from vs [] = refl
filter_map-range_from vs (w ∷ ws) =
    let shift = append_assoc vs (w ∷ []) ws in
    let one_more = length-append vs (w ∷ []) in
    let ih =
      subst (λ l. filter_map (get_elem? l) (range_from (length (vs ++ w ∷ [])) (length ws)) ≡ ws)
        shift (filter_map-range_from (vs ++ w ∷ []) ws) in
    let next : suc (length vs) ≡ length (vs ++ w ∷ []) = omega (arith, one_more) in
    filter_map-cons-some (get_elem? (vs ++ (w ∷ ws))) (length vs)
      (range_from (suc (length vs)) (length ws)) (get-middle vs w ws)
    ∙ ap (λ (l : List Spec). w ∷ l)
        (subst (λ k. filter_map (get_elem? (vs ++ (w ∷ ws))) (range_from k (length ws)) ≡ ws)
          (sym next) ih)

module _ (G : Graphs) (laws : GraphLaws G) where
  open G use {Graph, new, connect, topological_sort}
  open laws use {
    vertices, edges, vertices-new, index-add_vertex, vertices-add_vertex, vertices-connect,
    edges-connect, vertex_lem, sort_perm, sort_ordered,
  }

  pub vertices-add_vertices :
      (m : GoMap Spec) (g : Graph) (ix : GoMap ℕ)
      → vertices (add_vertices G m g ix).0 ≡ vertices g ++ values m
  unfolding add_vertices
  vertices-add_vertices [] g ix = simp append-nil
  vertices-add_vertices ((n, s) ∷ m) g ix =
      let (i, g') = G.add_vertex s g in
      vertices-add_vertices m g' (insert n i ix)
      ∙ rw vertices-add_vertex (append_assoc (vertices g) (s ∷ []) (values m))

  -- A name that is not in the map keeps the index that it had.
  pub index_keeps :
      (m : GoMap Spec) (g : Graph) (ix : GoMap ℕ) (k : String)
      → lookup k m ≡ none
      → lookup k (add_vertices G m g ix).1 ≡ lookup k ix
  unfolding add_vertices lookup
  index_keeps [] g ix k h = refl
  index_keeps ((n, s) ∷ m) g ix k h =
      let (i, g') = G.add_vertex s g in
      ground (arith, index_keeps m g' (insert n i ix) k, lookup-insert n k i ix)

  pub index_found :
      (m : GoMap Spec) (g : Graph) (ix : GoMap ℕ) (k : String) (j : ℕ)
      → HasUniqueKeys m
      → offset k m ≡ some j
      → lookup k (add_vertices G m g ix).1 ≡ some (length (vertices g) + j)
  unfolding add_vertices offset
  index_found [] g ix k j u h = ground arith
  index_found ((n, s) ∷ m) g ix k j (new, u) h =
      let g' = (G.add_vertex s g).1 in
      let ix' = insert n (G.add_vertex s g).0 ix in
      let kept = λ (none_left : lookup k m ≡ none). index_keeps m g' ix' k none_left in
      let more =
        ap (length {A = Spec}) (vertices-add_vertex s g) ∙ length-append (vertices g) (s ∷ []) in
      elim (String-cases n k) [
        | inl e ↦ ground (
          arith,
          eq_iff n k,
          kept (subst (λ x. lookup x m ≡ none) e new),
          lookup-insert n k (G.add_vertex s g).0 ix,
          index-add_vertex s g,
        )
        | inr e ↦
            let (j', o, below) = offset-suc k m j (rw e at h) in
            index_found m g' ix' k j' u o ∙ ap some (omega (arith, more, below))
      ]
