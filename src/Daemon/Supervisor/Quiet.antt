-- ===== src/Daemon/Supervisor/Quiet.antt =====
-- The changes of the supervisor of internal/daemon/supervisor.go that keep its tunnels: the names
-- and the specs of the processes. Most operations make no other.
pub mod Calls
use tunneld.Prelude.{
  ℕ, zero, suc, ◌≡◌, refl, ap, sym, ◌<◌, String, none, some, List, [], ◌∷◌, map, arith, Option,
  Option-cases, inl, inr, get_elem?, set, length, lookup,
}
use tunneld.Tunnel.{Spec}
use tunneld.Daemon.Process.{Process}
use tunneld.Daemon.Supervisor.{Supervisor, deref, store, find}
use tunneld.Daemon.Supervisor.Invariant.{IsValid, find-inv, get_elem?-some}

abbrev pub specs_of : List Process → List Spec
specs_of ps = map (λ p. p.spec) ps

specs_of-set :
    (ps : List Process) (i : ℕ) (q : Process) {p : Process}
    → get_elem? ps i ≡ some p
    → q.spec ≡ p.spec
    → specs_of (set ps i q) ≡ specs_of ps
specs_of-set [] i q h e = refl
specs_of-set (x ∷ ps) zero q h e = ground (arith, h, e)
specs_of-set (x ∷ ps) (suc i) q h e = ap (λ l. x.spec ∷ l) (specs_of-set ps i q h e)

pub get_elem?-total :
    (ps : List Process) (i : ℕ) → i < length ps → (p : Process) × (get_elem? ps i ≡ some p)
get_elem?-total [] i h = absurd (ground (arith, h))
get_elem?-total (x ∷ ps) zero h = (x, refl)
get_elem?-total (x ∷ ps) (suc i) h = get_elem?-total ps i (ground (arith, h))

-- Where one list of processes has a process, another with the same specs has one too.
get_elem?-specs_of :
    (ps qs : List Process) (i : ℕ) {p : Process}
    → specs_of ps ≡ specs_of qs
    → get_elem? ps i ≡ some p
    → (q : Process) × (get_elem? qs i ≡ some q) × (q.spec ≡ p.spec)
get_elem?-specs_of [] qs i e h = absurd (ground (arith, h))
get_elem?-specs_of (x ∷ ps) [] i e h = absurd (ground (arith, e))
get_elem?-specs_of (x ∷ ps) (y ∷ qs) zero e h = (y, refl, ground (arith, e, h))
get_elem?-specs_of (x ∷ ps) (y ∷ qs) (suc i) e h = get_elem?-specs_of ps qs i (ground (arith, e)) h

module _ {Graph : Type 0} where
  -- The same names, which point to processes of the same specs.
  abbrev pub Quiet : Supervisor Graph → Supervisor Graph → Type 0
  Quiet s s' = (s'.processes ≡ s.processes) × (specs_of s'.heap ≡ specs_of s.heap)

  pub Quiet-trans : (s t u : Supervisor Graph) → Quiet s t → Quiet t u → Quiet s u
  Quiet-trans s t u (a, b) (c, d) = (ground (arith, a, c), ground (arith, b, d))

  -- A write to a process that keeps its spec.
  pub store-Quiet :
      (s s' : Supervisor Graph) (i : ℕ) (p q : Process)
      → deref s i ≡ some p
      → q.spec ≡ p.spec
      → s'.heap ≡ set s.heap i q
      → s'.processes ≡ s.processes
      → Quiet s s'
  store-Quiet s s' i p q d e h k = (k, ground (arith, h, specs_of-set s.heap i q d e))

  pub deref-Quiet :
      (s s' : Supervisor Graph) (i : ℕ) {p : Process}
      → Quiet s s'
      → deref s i ≡ some p
      → (p' : Process) × (deref s' i ≡ some p') × (p'.spec ≡ p.spec)
  deref-Quiet s s' i (a, b) d = get_elem?-specs_of s.heap s'.heap i (sym b) d

  pub find-Quiet :
      (s s' : Supervisor Graph)
      → Quiet s s'
      → (n : String) (i : ℕ) (p : Process) → find s' n ≡ some (i, p)
      → (q : Process) × (find s n ≡ some (i, q)) × (q.spec ≡ p.spec)
  unfolding find
  find-Quiet s s' (a, b) n i p f =
      let (l, d) = find-inv s' n i p f in
      let (q, e, same) = get_elem?-specs_of s'.heap s.heap i b d in
      (q, ground (arith, a, l, e), same)

  pub Quiet-IsValid : (s s' : Supervisor Graph) → Quiet s s' → IsValid s → IsValid s'
  unfolding find
  Quiet-IsValid s s' (a, b) (v, w, z) =
      let found = find-Quiet s s' (a, b) in
      (
        (λ n i l.
            let (p, e) = get_elem?-total s.heap i (v n i (rw (sym a) l)) in
            let (q, d, same) = deref-Quiet s s' i (a, b) e in get_elem?-some s'.heap i d),
        (λ n m i j p q key ne f g x.
            let (p', fp, ep) = found n i p f in
            let (q', fq, eq) = found m j q g in
            ground (arith, w n m i j p' q' key ne fp fq, ep, eq, x)),
        (λ n i p f. let (p', fp, ep) = found n i p f in ground (arith, z n i p' fp, ep)),
      )
