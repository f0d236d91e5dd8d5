-- ===== src/Daemon/Supervisor/Starts.antt =====
-- Run of internal/daemon/supervisor.go: the tunnels that it starts.
use tunneld.Prelude.{
  ℕ, ◌≡◌, refl, inl, inr, String, true, false, none, some, List, [], ◌∷◌, ◌++◌, arith, Option-cases,
  length, GoMap, lookup, elem, eq_iff,
}
use tunneld.Errors.{Result-cases}
use tunneld.Config.Validate.{claim}
use tunneld.Config.Validate.Specs.{keys_of_specs}
use tunneld.Config.Validate.Ports.{AllDistinct, Unclaimed, claim-ok, claim-total}
use tunneld.Dependency.{Graphs, plan}
use tunneld.Tunnel
use tunneld.Tunnel.{Spec}
use tunneld.Tunnel.Ports.{local_port_keys}
use tunneld.Daemon.Process
use tunneld.Daemon.Process.{Process, StartEnv, new_process}
use tunneld.Daemon.Supervisor.{
  Supervisor, find, register, start_and_notify, claim_specs, start_specs, run,
}
use tunneld.Daemon.Supervisor.Invariant.{
  IsValid, Added, keys_of, Added-IsValid, find-Added, Unchanged-IsValid,
}
use tunneld.Daemon.Supervisor.Operations.Adding.{start-spec, set-append}

elem-append :
    (k : String) (xs ys : List String)
    → elem k (xs ++ ys) ≡ false
    → (elem k xs ≡ false) × (elem k ys ≡ false)
unfolding elem
elem-append k [] ys h = (refl, h)
elem-append k (x ∷ xs) ys h = ground (arith, elem-append k xs ys)

-- What stands in the first of two parts of distinct texts is not in the second.
AllDistinct-append :
    (xs ys : List String)
    → AllDistinct (xs ++ ys)
    → AllDistinct ys × ((k : String) → elem k xs ≡ true → elem k ys ≡ false)
unfolding elem
AllDistinct-append [] ys d = (d, λ k h. absurd (ground (arith, h)))
AllDistinct-append (x ∷ xs) ys (f, d) =
    let (e, apart) = AllDistinct-append xs ys d in
    (e, λ k h. ground (arith, h, eq_iff x k, eq_iff k x, apart k, elem-append x xs ys f))

module _ {Graph : Type 0} where
  -- A new process, started or not.
  pub register-Added :
      (env : StartEnv) (spec : Spec) (s : Supervisor Graph)
      → Added spec s
          (start_and_notify env (length s.heap) (new_process spec s.key_dir) (register spec s)).0
  unfolding register new_process start_and_notify
  register-Added env spec s =
      let np = new_process spec s.key_dir in
      let p = (Process.start env np).0 in
      (
        ground (arith, Option-cases (Process.start env np).1),
        p,
        ground (arith, Option-cases (Process.start env np).1, set-append s.heap np p),
        start-spec env np,
      )

module _ (G : Graphs) where
  open G use {Graph}

  -- The first loop of Run accepts exactly the specs whose addresses are distinct.
  pub claim_specs-AllDistinct :
      (specs : List Spec) (seen : GoMap String)
      → claim_specs G specs seen ≡ none
      → AllDistinct (keys_of_specs specs) × Unclaimed seen (keys_of_specs specs)
  unfolding claim_specs
  claim_specs-AllDistinct [] seen h = (tt, tt)
  claim_specs-AllDistinct (spec ∷ specs) seen h =
      elim (Result-cases (claim (Tunnel.name spec) (local_port_keys (Tunnel.to_proto spec)) seen)) [
        | inr (x, e) ↦ absurd (ground (arith, e, h))
        | inl (seen', e) ↦
            let (d, u) = claim_specs-AllDistinct specs seen' (ground (arith, e, h)) in
            claim-ok (Tunnel.name spec) (local_port_keys (Tunnel.to_proto spec))
              (keys_of_specs specs) seen e d u
      ]

  pub AllDistinct-claim_specs :
      (specs : List Spec) (seen : GoMap String)
      → AllDistinct (keys_of_specs specs)
      → Unclaimed seen (keys_of_specs specs)
      → claim_specs G specs seen ≡ none
  unfolding claim_specs
  AllDistinct-claim_specs [] seen d u = refl
  AllDistinct-claim_specs (spec ∷ specs) seen d u =
      let (seen', e, d', u') =
        claim-total (Tunnel.name spec) (local_port_keys (Tunnel.to_proto spec))
          (keys_of_specs specs) seen d u in
      ground (arith, e, AllDistinct-claim_specs specs seen' d' u')

  start_specs-IsValid :
      (envs : String → StartEnv) (specs : List Spec) (s : Supervisor Graph)
      → AllDistinct (keys_of_specs specs)
      → ((n : String) (i : ℕ) (p : Process) (key : String)
          → find s n ≡ some (i, p)
          → elem key (keys_of p) ≡ true
          → elem key (keys_of_specs specs) ≡ false)
      → IsValid s
      → IsValid (start_specs G envs specs s)
  unfolding start_specs
  start_specs-IsValid envs [] s d free v = v
  start_specs-IsValid envs (spec ∷ specs) s d free v =
      let ks = local_port_keys (Tunnel.to_proto spec) in
      let (d', apart) = AllDistinct-append ks (keys_of_specs specs) d in
      let s' : Supervisor Graph =
        (start_and_notify (envs (Tunnel.name spec)) (length s.heap) (new_process spec s.key_dir)
          (register spec s)).0 in
      let a : Added spec s s' = register-Added (envs (Tunnel.name spec)) spec s in
      let split =
        λ (n : String) (i : ℕ) (p : Process) (key : String) (f : find s n ≡ some (i, p))
            (k : elem key (keys_of p) ≡ true).
          elem-append key ks (keys_of_specs specs) (free n i p key f k) in
      start_specs-IsValid envs specs s' d'
        (λ n i p key f k. elim (find-Added spec s s' a v.0 n i p f) [
          | inl (x, y) ↦ ground (arith, y, k, apart key)
          | inr f' ↦ (split n i p key f' k).1
        ])
        (Added-IsValid spec s s' a (λ n i p key f k. (split n i p key f k).0) v)

  empty-IsValid : (s : Supervisor Graph) → s.processes ≡ [] → IsValid s
  unfolding find lookup
  empty-IsValid s e = (
    (λ n i l. absurd (ground (arith, e, l))),
    (λ n m i j p q key ne f. absurd (ground (arith, e, f))),
    (λ n i p f. absurd (ground (arith, e, f))),
  )

  -- Run on a supervisor without tunnels gives a valid one, whether it starts them or fails.
  pub run-IsValid :
      (envs : String → StartEnv) (s : Supervisor Graph)
      → s.processes ≡ []
      → IsValid (run G envs s).0
  unfolding run find lookup
  run-IsValid envs s e =
      let (planner, planned) = plan G s.planner in
      let s₁ : Supervisor Graph = record s { has_ctx = true; planner = planner } in
      let v : IsValid s₁ = empty-IsValid s₁ e in
      elim (Result-cases planned) [
        | inr (x, f) ↦ Unchanged-IsValid s₁ (run G envs s).0 (ground (arith, f)) v
        | inl (order, f) ↦ elim (Option-cases (claim_specs G order [])) [
          | inr (x, g) ↦ Unchanged-IsValid s₁ (run G envs s).0 (ground (arith, f, g)) v
          | inl g ↦
              let r : IsValid (start_specs G envs order s₁) =
                start_specs-IsValid envs order s₁ (claim_specs-AllDistinct order [] g).0
                  (λ n i p key h. absurd (ground (arith, e, h))) v in
              Unchanged-IsValid (start_specs G envs order s₁) (run G envs s).0
                (ground (arith, f, g)) r
        ]
      ]
