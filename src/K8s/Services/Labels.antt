-- ===== src/K8s/Services/Labels.antt =====
-- The labels and ports of the objects that the controllers write.
use tunneld.Prelude.{
  HasUniqueKeys, ◌≡◌, refl, String, none, some, [], ◌∷◌, GoMap, lookup, insert, lookup-insert,
  arith, Bool-cases, inl, inr, ◌==◌, eq_iff,
}
use tunneld.K8s.Services.{merge_labels}

-- A merge has the labels of the second map, whose keys are unique, and where it has none, those
-- of the first.
pub lookup-merge_labels :
    (a b : GoMap String) (k : String)
    → HasUniqueKeys b
    → lookup k (merge_labels a b) ≡ (elim (lookup k b) [ none ↦ lookup k a | some v ↦ some v ])
unfolding merge_labels lookup
lookup-merge_labels a [] k u = refl
lookup-merge_labels a ((j, v) ∷ b) k (n, u) = elim (Bool-cases (j == k)) [
  | inl e ↦
      ground
        (arith, e, n, lookup-merge_labels (insert j v a) b k u, lookup-insert j k v a, eq_iff j k)
  | inr e ↦
      ground
        (arith, e, n, lookup-merge_labels (insert j v a) b k u, lookup-insert j k v a, eq_iff j k)
]
