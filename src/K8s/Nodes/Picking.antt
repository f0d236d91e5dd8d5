-- ===== src/K8s/Nodes/Picking.antt =====
-- What the scheduler picks.
use tunneld.Prelude.{
  ◌≡◌, refl, String, Bool, true, false, ◌&&◌, none, some, List, [], ◌∷◌, GoMap, Memᴰ, ◌⊎◌, inl, inr,
  arith, Bool-cases,
}
use tunneld.Errors.{Err, io, ok, err}
use tunneld.K8s.Types.{Node}
use tunneld.K8s.Nodes.{is_node_ready, choose, pick_node, node_internal_ip}

module _ (matches : GoMap String → GoMap String → Bool) (before : String → String → Bool) where
  -- Ready, and matched by the selector.
  unfoldable pub is_eligible : GoMap String → Node → Bool
  is_eligible selector n = matches selector n.labels && is_node_ready n

  -- No eligible node of the list stands before `n`.
  abbrev pub IsFirst : GoMap String → Node → List Node → Type 0
  IsFirst selector n nodes =
      (m : Node) → Memᴰ m nodes → is_eligible selector m ≡ true → before m.name n.name ≡ false

  module _ (irreflexive : (a : String) → before a a ≡ false)
      (transitive : (a b c : String)
        → before a b ≡ true
        → before b c ≡ true
        → before a c ≡ true) where
    asymmetric : (a b : String) → before b a ≡ true → before a b ≡ false
    asymmetric a b h = elim (Bool-cases (before a b)) [
      | inr z ↦ z
      | inl z ↦ absurd (ground (arith, irreflexive a, transitive a b a z h))
    ]

    -- What the loop makes of the node chosen so far.
    choose-some :
        (selector : GoMap String) (c : Node) (nodes : List Node)
        → (n : Node) × (choose matches before selector (some c) nodes ≡ some n)
          × ((n ≡ c)
              ⊎ (Memᴰ n nodes × (is_eligible selector n ≡ true) × (before n.name c.name ≡ true)))
          × IsFirst selector n nodes
    unfolding choose is_eligible
    choose-some selector c [] = (c, refl, inl refl, λ m h. elim h [ ])
    choose-some selector c (n ∷ ns) = elim (Bool-cases (is_eligible selector n)) [
      | inr e ↦
          let (r, q, d, f) = choose-some selector c ns in
          (
            r,
            ground (arith, e, q),
            elim d [ inl x ↦ inl x | inr (x, y, z) ↦ inr (Memᴰ.tail x, y, z) ],
            λ m h. elim h [
              | Memᴰ.head x ↦ λ y. absurd (ground (arith, x, y, e))
              | Memᴰ.tail h' ↦ f m h'
            ],
          )
      | inl e ↦ elim (Bool-cases (before n.name c.name)) [
        | inl b ↦
            let (r, q, d, f) = choose-some selector n ns in
            (
              r,
              ground (arith, e, b, q),
              inr (elim d [
                | inl x ↦ (Memᴰ.head x, ground (arith, x, e), ground (arith, x, b))
                | inr (x, y, z) ↦ (Memᴰ.tail x, y, transitive r.name n.name c.name z b)
              ]),
              λ m h. elim h [
                | Memᴰ.head x ↦ λ y. elim d [
                  | inl w ↦ ground (arith, x, w, irreflexive n.name)
                  | inr (u, v, w) ↦ asymmetric m.name r.name (ground (arith, x, w))
                ]
                | Memᴰ.tail h' ↦ f m h'
              ],
            )
        | inr b ↦
            let (r, q, d, f) = choose-some selector c ns in
            (
              r,
              ground (arith, e, b, q),
              elim d [ inl x ↦ inl x | inr (x, y, z) ↦ inr (Memᴰ.tail x, y, z) ],
              λ m h. elim h [
                | Memᴰ.head x ↦ λ y. elim d [
                  | inl w ↦ ground (arith, x, w, b)
                  | inr (u, v, w) ↦ elim (Bool-cases (before m.name r.name)) [
                    | inr z ↦ z
                    | inl z ↦ absurd (ground (arith, x, b, transitive m.name r.name c.name z w))
                  ]
                ]
                | Memᴰ.tail h' ↦ f m h'
              ],
            )
      ]
    ]

    -- With no node chosen so far.
    choose-none :
        (selector : GoMap String) (nodes : List Node)
        → ((choose matches before selector none nodes ≡ none)
            × ((m : Node) → Memᴰ m nodes → is_eligible selector m ≡ false))
          ⊎ ((n : Node) × (choose matches before selector none nodes ≡ some n)
              × Memᴰ n nodes
              × (is_eligible selector n ≡ true)
              × IsFirst selector n nodes)
    unfolding choose is_eligible
    choose-none selector [] = inl (refl, λ m h. elim h [ ])
    choose-none selector (n ∷ ns) = elim (Bool-cases (is_eligible selector n)) [
      | inl e ↦
          let (r, q, d, f) = choose-some selector n ns in
          inr (
            r,
            ground (arith, e, q),
            elim d [ inl x ↦ Memᴰ.head x | inr (x, y, z) ↦ Memᴰ.tail x ],
            elim d [ inl x ↦ ground (arith, x, e) | inr (x, y, z) ↦ y ],
            λ m h. elim h [
              | Memᴰ.head x ↦ λ y. elim d [
                | inl w ↦ ground (arith, x, w, irreflexive n.name)
                | inr (u, v, w) ↦ asymmetric m.name r.name (ground (arith, x, w))
              ]
              | Memᴰ.tail h' ↦ f m h'
            ],
          )
      | inr e ↦ elim (choose-none selector ns) [
        | inl (q, f) ↦ inl (
          ground (arith, e, q),
          λ m h. elim h [ Memᴰ.head x ↦ ground (arith, x, e) | Memᴰ.tail h' ↦ f m h' ],
        )
        | inr (r, q, x, y, f) ↦ inr (
          r,
          ground (arith, e, q),
          Memᴰ.tail x,
          y,
          λ m h. elim h [
            | Memᴰ.head w ↦ λ y'. absurd (ground (arith, w, y', e))
            | Memᴰ.tail h' ↦ f m h'
          ],
        )
      ]
    ]

    -- For an irreflexive and transitive order on names, pickNode either fails and no node of the
    -- list is ready and matches, or gives the name and the address of such a node, before which
    -- no other one stands.
    pub pick_node_lem :
        (selector : GoMap String) (nodes : List Node)
        → (((e : Err) × (pick_node matches before (ok nodes) selector ≡ err e))
            × ((m : Node) → Memᴰ m nodes → is_eligible selector m ≡ false))
          ⊎ ((n : Node) × (pick_node matches before (ok nodes) selector
                ≡ ok (n.name, node_internal_ip n))
              × Memᴰ n nodes
              × (is_eligible selector n ≡ true)
              × IsFirst selector n nodes)
    unfolding pick_node
    pick_node_lem selector nodes = elim (choose-none selector nodes) [
      | inl (q, f) ↦ inl ((io "no Ready node matches selector", ground (arith, q)), f)
      | inr (n, q, x, y, f) ↦ inr (n, ground (arith, q), x, y, f)
    ]
