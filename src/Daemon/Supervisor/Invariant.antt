-- ===== src/Daemon/Supervisor/Invariant.antt =====
-- The invariant of the supervisor of internal/daemon/supervisor.go, and the changes of a state
-- that keep it: none, a new process, and a write to a process that is there.
use tunneld.Prelude.{
  ℕ, zero, suc, ◌≡◌, refl, sym, ◌≢◌, ◌<◌, ◌⊎◌, inl, inr, String, ◌==◌, eq_iff, true, false, some,
  List, [], ◌∷◌, ◌++◌, arith, Bool-cases, Option-cases, get_elem?, get_elem?-set, set, length,
  length-append, length-set, lookup, lookup-insert, insert, elem, eqb,
}
use tunneld.Tunnel
use tunneld.Tunnel.{Spec}
use tunneld.Tunnel.Ports.{local_port_keys}
use tunneld.Daemon.Process.{Process}
use tunneld.Daemon.Supervisor.{Supervisor, deref, find}

-- The keys that a running process keeps from others.
abbrev pub keys_of : Process → List String
keys_of p = local_port_keys (Tunnel.to_proto p.spec)

module _ {Graph : Type 0} where
  -- Every name points to a process.
  abbrev pub HasPointers : Supervisor Graph → Type 0
  HasPointers s = (n : String) (i : ℕ) → lookup n s.processes ≡ some i → i < length s.heap

  -- Every name points to a process whose spec has that name.
  abbrev pub HasNames : Supervisor Graph → Type 0
  HasNames s = (n : String) (i : ℕ) (p : Process) → find s n ≡ some (i, p) → Tunnel.name p.spec ≡ n

  -- No address of one tunnel is an address of another.
  abbrev pub HasNoConflicts : Supervisor Graph → Type 0
  HasNoConflicts s =
      (n m : String) (i j : ℕ) (p q : Process) (key : String)
      → n ≢ m
      → find s n ≡ some (i, p)
      → find s m ≡ some (j, q)
      → elem key (keys_of p) ≡ true
      → elem key (keys_of q) ≡ false

  abbrev pub IsValid : Supervisor Graph → Type 0
  IsValid s = HasPointers s × HasNoConflicts s × HasNames s

  -- The addresses of the spec are those of no tunnel.
  abbrev pub IsFree : Supervisor Graph → Spec → Type 0
  IsFree s spec =
      (n : String) (i : ℕ) (p : Process) (key : String)
      → find s n ≡ some (i, p)
      → elem key (keys_of p) ≡ true
      → elem key (local_port_keys (Tunnel.to_proto spec)) ≡ false

  -- A state with one more process, for the spec.
  abbrev pub Added : Spec → Supervisor Graph → Supervisor Graph → Type 0
  Added spec s s' =
      (s'.processes ≡ insert (Tunnel.name spec) (length s.heap) s.processes)
      × (p : Process) × (s'.heap ≡ s.heap ++ p ∷ [])
      × (p.spec ≡ spec)

  -- A state with the same processes.
  abbrev pub Unchanged : Supervisor Graph → Supervisor Graph → Type 0
  Unchanged s s' = (s'.processes ≡ s.processes) × (s'.heap ≡ s.heap) × (s'.monitors ≡ s.monitors)

  pub find-inv :
      (s : Supervisor Graph) (n : String) (i : ℕ) (p : Process)
      → find s n ≡ some (i, p)
      → (lookup n s.processes ≡ some i) × (deref s i ≡ some p)
  unfolding find
  find-inv s n i p h = elim (Option-cases (lookup n s.processes)) [
    | inl e ↦ absurd (ground (arith, e, h))
    | inr (j, e) ↦ elim (Option-cases (deref s j)) [
      | inl f ↦ absurd (ground (arith, e, f, h))
      | inr (q, f) ↦ ground (arith, e, f, h)
    ]
  ]

pub get_elem?-append :
    (xs ys : List Process) (i : ℕ) → i < length xs → get_elem? (xs ++ ys) i ≡ get_elem? xs i
get_elem?-append [] ys i h = absurd (ground (arith, h))
get_elem?-append (x ∷ xs) ys zero h = refl
get_elem?-append (x ∷ xs) ys (suc i) h = get_elem?-append xs ys i (ground (arith, h))

pub get_elem?-last :
    (xs : List Process) (y : Process) → get_elem? (xs ++ y ∷ []) (length xs) ≡ some y
get_elem?-last [] y = refl
get_elem?-last (x ∷ xs) y = get_elem?-last xs y

pub get_elem?-some :
    (xs : List Process) (i : ℕ) {p : Process} → get_elem? xs i ≡ some p → i < length xs
get_elem?-some [] i h = absurd (ground (arith, h))
get_elem?-some (x ∷ xs) zero h = ground arith
get_elem?-some (x ∷ xs) (suc i) h = ground (arith, get_elem?-some xs i h)

pub Unchanged-IsValid :
    {Graph : Type 0} (s s' : Supervisor Graph) → Unchanged s s' → IsValid s → IsValid s'
unfolding find
Unchanged-IsValid s s' (a, b, c) (v, w, z) = (
  (λ n i l. ground (arith, b, v n i (rw (sym a) l))),
  (λ n m i j p q key ne f g k. w n m i j p q key ne (rw (sym a, sym b) f) (rw (sym a, sym b) g) k),
  (λ n i p f. z n i p (rw (sym a, sym b) f)),
)

module _ {Graph : Type 0} (spec : Spec) (s s' : Supervisor Graph) where
  -- What a name finds after an addition.
  pub find-Added :
      Added spec s s'
      → HasPointers s
      → (n : String) (i : ℕ) (p : Process) → find s' n ≡ some (i, p)
      → ((n ≡ Tunnel.name spec) × (p.spec ≡ spec)) ⊎ (find s n ≡ some (i, p))
  unfolding find
  find-Added (a, q, b, c) v n i p h =
      let (l, d) = find-inv s' n i p h in
      elim (Bool-cases (Tunnel.name spec == n)) [
        | inl e ↦
            let l' : length s.heap ≡ i =
              ground
                (arith, a, l, e, lookup-insert (Tunnel.name spec) n (length s.heap) s.processes) in
            let d' : get_elem? (s.heap ++ q ∷ []) i ≡ some p = rw (sym b) d in
            inl (
              ground (arith, e, eq_iff (Tunnel.name spec) n),
              ground (arith, c, l', d', get_elem?-last s.heap q),
            )
        | inr e ↦
            let l' : lookup n s.processes ≡ some i =
              ground
                (arith, a, l, e, lookup-insert (Tunnel.name spec) n (length s.heap) s.processes) in
            let d' : get_elem? (s.heap ++ q ∷ []) i ≡ some p = rw (sym b) d in
            inr (ground (arith, l', d', get_elem?-append s.heap (q ∷ []) i (v n i l')))
      ]

  pub Added-HasPointers : Added spec s s' → HasPointers s → HasPointers s'
  Added-HasPointers (a, q, b, c) v n i l = elim (Bool-cases (Tunnel.name spec == n)) [
    | inl e ↦ ground (
      arith,
      a,
      b,
      l,
      e,
      lookup-insert (Tunnel.name spec) n (length s.heap) s.processes,
      length-append s.heap (q ∷ []),
    )
    | inr e ↦
        let l' : lookup n s.processes ≡ some i =
          ground (arith, a, l, e, lookup-insert (Tunnel.name spec) n (length s.heap) s.processes) in
        ground (arith, b, v n i l', length-append s.heap (q ∷ []))
  ]

  Added-HasNoConflicts :
      Added spec s s' → IsFree s spec → HasPointers s → HasNoConflicts s → HasNoConflicts s'
  Added-HasNoConflicts a free v w n m i j p r key ne f g k = elim (find-Added a v n i p f) [
    | inl (x, y) ↦ elim (find-Added a v m j r g) [
      | inl (x', y') ↦ absurd (ne (ground (arith, x, x')))
      | inr g' ↦ elim (Bool-cases (elem key (keys_of r))) [
        | inr z ↦ z
        | inl z ↦ ground (arith, y, k, free m j r key g' z)
      ]
    ]
    | inr f' ↦ elim (find-Added a v m j r g) [
      | inl (x', y') ↦ ground (arith, y', free n i p key f' k)
      | inr g' ↦ w n m i j p r key ne f' g' k
    ]
  ]

  -- A new process whose addresses are free keeps the invariant.
  pub Added-IsValid : Added spec s s' → IsFree s spec → IsValid s → IsValid s'
  Added-IsValid a free (v, w, z) = (
    Added-HasPointers a v,
    Added-HasNoConflicts a free v w,
    (λ n i p f. elim (find-Added a v n i p f) [
      | inl (x, y) ↦ ground (arith, x, y)
      | inr f' ↦ z n i p f'
    ]),
  )

module _ {Graph : Type 0} (s s' : Supervisor Graph) (i : ℕ) (p q : Process) where
  -- A write through a pointer of a process with the same spec, which adds no name.
  abbrev pub Written : Type 0
  Written =
      (deref s i ≡ some p)
      × (s'.heap ≡ set s.heap i q)
      × (q.spec ≡ p.spec)
      × ((n : String) (j : ℕ) → lookup n s'.processes ≡ some j → lookup n s.processes ≡ some j)

  -- What a name finds after the write, it found before, with the same spec.
  pub find-Written :
      Written
      → (n : String) (j : ℕ) (r : Process) → find s' n ≡ some (j, r)
      → (r' : Process) × ((find s n ≡ some (j, r')) × (r'.spec ≡ r.spec))
  unfolding find
  find-Written (d, h, same, sub) n j r f =
      let (l, e) = find-inv s' n j r f in
      let l' = sub n j l in
      let e' : get_elem? (set s.heap i q) j ≡ some r = rw (sym h) e in
      let lt = get_elem?-some s.heap i d in
      elim (Bool-cases (eqb i j)) [
        | inl x ↦ (
          p,
          (ground (arith, d, l', x), ground (arith, same, x, e', get_elem?-set s.heap i j q lt)),
        )
        | inr x ↦ (r, (ground (arith, l', x, e', get_elem?-set s.heap i j q lt), refl))
      ]

  pub Written-IsValid : Written → IsValid s → IsValid s'
  unfolding find
  Written-IsValid (d, h, same, sub) (v, w, z) =
      let found = λ (n : String) (j : ℕ) (r : Process) (f : find s' n ≡ some (j, r)).
        find-Written (d, h, same, sub) n j r f in
      (
        (λ n j l. ground (arith, h, length-set s.heap i q, v n j (sub n j l))),
        (λ n m j k a b key ne f g x.
            let (a', (fa, ea)) = found n j a f in
            let (b', (fb, eb)) = found m k b g in
            ground (arith, w n m j k a' b' key ne fa fb, ea, eb, x)),
        (λ n j r f. let (r', (f', e)) = found n j r f in ground (arith, z n j r' f', e)),
      )

  -- A write that keeps the names keeps the invariant.
  pub store-IsValid :
      deref s i ≡ some p
      → s'.heap ≡ set s.heap i q
      → q.spec ≡ p.spec
      → s'.processes ≡ s.processes
      → IsValid s
      → IsValid s'
  store-IsValid d h same e v = Written-IsValid (d, h, same, λ n j l. rw (sym e) l) v
