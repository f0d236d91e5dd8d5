-- ===== src/Daemon/Supervisor/Operations/Adding.antt =====
-- AddTunnel: what a failure leaves, and the invariant that no two tunnels share a local port.
use tunneld.Prelude.{
  ℕ, ◌≡◌, refl, ◌⊎◌, inl, inr, String, ◌==◌, eq_iff, Bool, true, false, not, ◌&&◌, none, some, List,
  [], ◌∷◌, ◌++◌, arith, Bool-cases, Option-cases, set, length, GoMap, lookup, elem, ap, is_some,
}
use tunneld.Errors.{Result-cases}
use tunneld.Config.Convert
use tunneld.Dependency.{Graphs, plan, add_spec}
use tunneld.Tunnel
use tunneld.Tunnel.{Spec}
use tunneld.Daemon.Process.{Process, new_process, StartEnv, start}
use tunneld.Daemon.Process.Life.{start_lem, start_failed-NotStarted}
use tunneld.Daemon.Supervisor.Invariant.{keys_of, Added, Unchanged}
use tunneld.Daemon.Supervisor.{
  Supervisor, deref, clash, clashing_key, conflict_in, start_and_notify, register,
}
use tunneld.Daemon.Supervisor.Operations.{SaveEnv, save_tunnel, persist, admit, enrol}

clash-false : (key : String) (nks : List String) → clash key nks ≡ false → elem key nks ≡ false
unfolding clash elem
clash-false key [] h = refl
clash-false key (nk ∷ nks) h = ground (arith, h, eq_iff key nk, eq_iff nk key, clash-false key nks)

clashing_key-none :
    (key : String) (keys new_keys : List String)
    → clashing_key keys new_keys ≡ none
    → elem key keys ≡ true
    → elem key new_keys ≡ false
unfolding clashing_key elem
clashing_key-none key [] new_keys h m = absurd (ground (arith, m))
clashing_key-none key (k ∷ keys) new_keys h m = elim (Bool-cases (clash k new_keys)) [
  | inl c ↦ absurd (ground (arith, h, c))
  | inr c ↦
      ground (
        arith,
        h,
        c,
        m,
        eq_iff k key,
        clash-false k new_keys c,
        clashing_key-none key keys new_keys,
      )
]

module _ {Graph : Type 0} where
  pub conflict_in-none :
      (s : Supervisor Graph) (spec : Spec) (new_keys : List String) (m : GoMap ℕ) (n : String)
      (i : ℕ) (p : Process) (key : String)
      → conflict_in s spec new_keys m ≡ none
      → lookup n m ≡ some i
      → deref s i ≡ some p
      → elem key (keys_of p) ≡ true
      → elem key new_keys ≡ false
  unfolding conflict_in lookup
  conflict_in-none s spec new_keys [] n i p key h l d m = absurd (ground (arith, l))
  conflict_in-none s spec new_keys ((k, j) ∷ rest) n i p key h l d m =
      elim (Option-cases (deref s j)) [
        | inl e ↦ absurd (ground (arith, h, e))
        | inr (q, e) ↦ elim (Option-cases (clashing_key (keys_of q) new_keys)) [
          | inr (x, f) ↦ absurd (ground (arith, h, e, f))
          | inl f ↦ elim (Bool-cases (k == n)) [
            | inl g ↦ ground (arith, l, g, d, e, m, clashing_key-none key (keys_of q) new_keys f)
            | inr g ↦
                conflict_in-none s spec new_keys rest n i p key (ground (arith, h, e, f))
                  (ground (arith, l, g)) d m
          ]
        ]
      ]

pub set-append :
    (xs : List Process) (y v : Process) → set (xs ++ y ∷ []) (length xs) v ≡ xs ++ v ∷ []
set-append [] y v = refl
set-append (x ∷ xs) y v = ap (λ l. x ∷ l) (set-append xs y v)

-- A start keeps the spec, whether or not it succeeds.
pub start-spec : (env : StartEnv) (p : Process) → (start env p).0.spec ≡ p.spec
start-spec env p = elim (Option-cases (start env p).1) [
  | inl e ↦
      let h : start env p ≡ ((start env p).0, none) = ground (arith, e) in
      ground (arith, start_lem env p h)
  | inr (x, e) ↦
      let h : start env p ≡ ((start env p).0, some x) = ground (arith, e) in
      ground (arith, start_failed-NotStarted env p h)
]

module _ (G : Graphs) where
  open G use {Graph}

  pub admit_lem :
      (spec : Spec) (s : Supervisor Graph)
      → Unchanged s (admit G spec s).0
        × ((admit G spec s).0.has_ctx ≡ s.has_ctx)
        × ((admit G spec s).0.key_dir ≡ s.key_dir)
  unfolding admit
  admit_lem spec s = ground (arith, Result-cases (plan G (add_spec G spec s.planner)).1)

  save_tunnel_lem :
      (env : SaveEnv) (spec : Spec) (s : Supervisor Graph)
      → Unchanged s (save_tunnel env spec s).0 × ((save_tunnel env spec s).0.planner ≡ s.planner)
  unfolding save_tunnel
  save_tunnel_lem env spec s = elim (Option-cases env.make_dir) [
    | inr (x, e) ↦ ground (arith, e)
    | inl e ↦ elim (Option-cases (Convert.from_proto (Tunnel.to_proto spec))) [
      | inl f ↦ ground (arith, e, f)
      | inr (t, f) ↦ ground (arith, e, f, Option-cases (env.marshal t), Option-cases env.write)
    ]
  ]

  pub persist_lem :
      (env : SaveEnv) (b : Bool) (spec : Spec) (s : Supervisor Graph)
      → Unchanged s (persist env b spec s).0 × ((persist env b spec s).0.planner ≡ s.planner)
  unfolding persist
  persist_lem env b spec s = elim (Bool-cases (b && not (s.tunnels_dir == ""))) [
    | inr f ↦ ground (arith, f)
    | inl f ↦ ground (arith, f, save_tunnel_lem env spec s)
  ]

  pub enrol_lem :
      (env : StartEnv) (spec : Spec) (s : Supervisor Graph)
      → (Unchanged s (enrol G env spec s).0 × (is_some (enrol G env spec s).1 ≡ true))
        ⊎ Added spec s (enrol G env spec s).0
  unfolding enrol register new_process start_and_notify
  enrol_lem env spec s = elim (Option-cases (admit G spec s).1) [
    | inr (x, e) ↦ inl (ground (arith, e, admit_lem spec s))
    | inl e ↦
        let s₁ = (admit G spec s).0 in
        let np = new_process spec s₁.key_dir in
        let u = admit_lem spec s in
        elim (Bool-cases s₁.has_ctx) [
          | inr c ↦ inr (ground (arith, e, c, u), np, ground (arith, e, c, u), refl)
          | inl c ↦ elim (Option-cases (start env np).1) [
            | inl f ↦ inr (
              ground (arith, e, c, u, f),
              (start env np).0,
              ground (arith, e, c, u, f, set-append s₁.heap np (start env np).0),
              start-spec env np,
            )
            | inr (x, f) ↦ inr (
              ground (arith, e, c, u, f),
              (start env np).0,
              ground (arith, e, c, u, f, set-append s₁.heap np (start env np).0),
              start-spec env np,
            )
          ]
        ]
  ]
