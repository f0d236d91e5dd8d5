-- ===== src/Daemon/Supervisor/Failure/Recovery.antt =====
-- A tunnel that fails while it is wanted comes up again.
use tunneld.Prelude.{
  ℕ, ◌≡◌, ◌+◌, refl, String, true, false, none, some, List, [], ◌∷◌, arith, Bool-cases,
  Option-cases, inl, inr, get_elem?-set, eqb, ◌==◌,
}
use tunneld.Errors.{Result-cases}
use tunneld.Proto.{RestartPolicySpec}
use tunneld.Dependency.{Graphs, dependents_of}
use tunneld.Tunnel
use tunneld.Daemon.Process
use tunneld.Daemon.Process.{
  Process, Waited, StartEnv, is_idle, receive, increment_attempts, is_process_alive,
}
use tunneld.Daemon.Process.Again.{Kept, Kept-trans, stop-Kept, start-again}
use tunneld.Daemon.Process.Life.{start_lem}
use tunneld.Daemon.Supervisor.{Supervisor, deref, store, find, start_and_notify}
use tunneld.Daemon.Supervisor.Failure.{
  Floats, restarts, is_exhausted, is_wanted, is_stopped, restart_delay, stop_dependents,
  apply_policy, after_stops, handle_failure, exited, monitor_step,
}
use tunneld.Daemon.Supervisor.Failure.Policy.{Allows}
use tunneld.Daemon.Supervisor.Invariant.{find-inv, get_elem?-some}
use tunneld.Daemon.Supervisor.Operations.{is_up}
use tunneld.Daemon.Supervisor.Operations.Starting.{find-store}

module _ {Graph : Type 0} where
  -- A stop through another pointer, or the same one, keeps what a restart depends on.
  stop_at-Kept :
      (w : Waited) (s : Supervisor Graph) (i j : ℕ) (p q : Process)
      → deref s i ≡ some p
      → deref s j ≡ some q
      → (p' : Process) × (deref (store j (Process.stop w q).0 s) i ≡ some p') × Kept p p'
  stop_at-Kept w s i j p q d e =
      let l = get_elem?-set s.heap j i (Process.stop w q).0 (get_elem?-some s.heap j e) in
      elim (Bool-cases (eqb j i)) [
        | inr x ↦ (p, ground (arith, l, x, d), (refl, refl, refl, λ h. h))
        | inl x ↦
            let same : q ≡ p = ground (arith, x, d, e) in
            ((Process.stop w q).0, ground (arith, l, x), rw same (stop-Kept w p))
      ]

  stop_dependents-Kept :
      (waits : String → Waited) (ds : List String) (s : Supervisor Graph) (i : ℕ) (p : Process)
      → deref s i ≡ some p
      → (p' : Process) × (deref (stop_dependents waits ds s) i ≡ some p')
        × Kept p p'
        × ((stop_dependents waits ds s).processes ≡ s.processes)
  unfolding stop_dependents
  stop_dependents-Kept waits [] s i p d = (p, d, (refl, refl, refl, λ h. h), refl)
  stop_dependents-Kept waits (n ∷ ds) s i p d = elim (Option-cases (find s n)) [
    | inl e ↦
        let (q, dq, k, m) = stop_dependents-Kept waits ds s i p d in
        (q, ground (arith, e, dq), k, ground (arith, e, m))
    | inr ((j, r), e) ↦ elim (Bool-cases (is_stopped r.status)) [
      | inl u ↦
          let (q, dq, k, m) = stop_dependents-Kept waits ds s i p d in
          (q, ground (arith, e, u, dq), k, ground (arith, e, u, m))
      | inr u ↦
          let s₁ = store j (Process.stop (waits n) r).0 s in
          let (p₁, d₁, k₁) = stop_at-Kept (waits n) s i j p r d (find-inv s n j r e).1 in
          let (q, dq, k, m) = stop_dependents-Kept waits ds s₁ i p₁ d₁ in
          (q, ground (arith, e, u, dq), Kept-trans p p₁ q k₁ k, ground (arith, e, u, m))
    ]
  ]

module _ (G : Graphs) (F : Floats) where
  open G use {Graph}

  apply_policy-allowed :
      (i : ℕ) (p : Process) (r : RestartPolicySpec) (s : Supervisor Graph)
      → Tunnel.restart_policy p.spec ≡ some r
      → Allows r p.restart_attempts
      → apply_policy G F i p s
        ≡ (store i (increment_attempts p) s, some (i, restart_delay F r p.restart_attempts))
  unfolding apply_policy restarts
  apply_policy-allowed i p r s h (a, b) = ground (arith, h, a, b)

  pub after_stops-allowed :
      (i : ℕ) (p : Process) (r : RestartPolicySpec) (s : Supervisor Graph)
      → deref s i ≡ some p
      → Tunnel.restart_policy p.spec ≡ some r
      → Allows r p.restart_attempts
      → after_stops G F i s
        ≡ (store i (increment_attempts p) s, some (i, restart_delay F r p.restart_attempts))
  unfolding after_stops
  after_stops-allowed i p r s d h a = ground (arith, d, apply_policy-allowed i p r s h a)

  -- A failure of a tunnel that is wanted, and whose policy allows a restart, asks for one.
  pub handle_failure-allowed :
      (waits : String → Waited) (name : String) (s : Supervisor Graph) (i : ℕ) (p : Process)
      (r : RestartPolicySpec)
      → find s name ≡ some (i, p)
      → is_wanted p.expected_state ≡ true
      → Tunnel.restart_policy p.spec ≡ some r
      → Allows r p.restart_attempts
      → (s' : Supervisor Graph) × (q : Process) × (handle_failure G F waits name s
          ≡ (s', some (i, restart_delay F r p.restart_attempts)))
        × (find s' name ≡ some (i, increment_attempts q))
        × Kept p q
  unfolding handle_failure find
  handle_failure-allowed waits name s i p r e w h (a, b) =
      let (l, d) = find-inv s name i p e in
      elim (Result-cases (dependents_of G name s.planner)) [
        | inr (x, f) ↦ (
          store i (increment_attempts p) s,
          p,
          ground (arith, e, w, f, after_stops-allowed i p r s d h (a, b)),
          find-store s (store i (increment_attempts p) s) name i p (increment_attempts p) refl refl
              e,
          (refl, refl, refl, λ x. x),
        )
        | inl (ds, f) ↦
            let s₁ = stop_dependents waits ds s in
            let (q, dq, k, m) = stop_dependents-Kept waits ds s i p d in
            let found : find s₁ name ≡ some (i, q) = ground (arith, m, l, dq) in
            let stops =
              after_stops-allowed i q r s₁ dq (ground (arith, k, h))
                (ground (arith, a), ground (arith, b, k)) in
            (
              store i (increment_attempts q) s₁,
              q,
              ground (arith, e, w, f, stops, k),
              find-store s₁ (store i (increment_attempts q) s₁) name i q (increment_attempts q) refl
                  refl found,
              k,
            )
      ]

  restart-up :
      (env : StartEnv) (name : String) (i : ℕ) (q : Process) (s : Supervisor Graph)
      → find s name ≡ some (i, q)
      → (Process.start env q).1 ≡ none
      → (s' : Supervisor Graph) × (q' : Process) × (start_and_notify env i q s ≡ (s', none))
        × (find s' name ≡ some (i, q'))
        × (is_up q'.status ≡ true)
        × (is_process_alive q' ≡ true)
        × (q'.restart_attempts ≡ q.restart_attempts)
        × (s'.monitors ≡ i ∷ s.monitors)
  unfolding start_and_notify
  restart-up env name i q s f h =
      let q' = (Process.start env q).0 in
      let s' : Supervisor Graph = record (store i q' s) { monitors = i ∷ s.monitors } in
      let eq : Process.start env q ≡ (q', none) = ground (arith, h) in
      let l = start_lem env q eq in
      (
        s',
        q',
        ground (arith, h),
        find-store s s' name i q q' refl refl f,
        ground (arith, l),
        ground (arith, l),
        ground (arith, l),
        refl,
      )

  -- A tunnel whose command has exited, which is wanted, and whose policy has attempts left, gets
  -- a restart with the delay of the policy; where the system would start it, the restart brings it
  -- up with a command that is alive, watched again, with one more attempt counted.
  pub monitor_recovers :
      (waits : String → Waited) (env : StartEnv) (name : String) (s : Supervisor Graph) (i : ℕ)
      (p : Process) (r : RestartPolicySpec)
      → find s name ≡ some (i, p)
      → Tunnel.name p.spec ≡ name
      → is_idle p.status ≡ true
      → is_wanted p.expected_state ≡ true
      → Tunnel.restart_policy p.spec ≡ some r
      → r.policy == "never" ≡ false
      → is_exhausted r p.restart_attempts ≡ false
      → (Process.start env p).1 ≡ none
      → (s₁ : Supervisor Graph) × (q : Process) × (s₂ : Supervisor Graph) × (p₂ : Process)
        × (monitor_step G F waits exited i p s
            ≡ (s₁, false, some (i, restart_delay F r p.restart_attempts)))
        × (deref s₁ i ≡ some q)
        × (start_and_notify env i q s₁ ≡ (s₂, none))
        × (find s₂ name ≡ some (i, p₂))
        × (is_up p₂.status ≡ true)
        × (is_process_alive p₂ ≡ true)
        × (p₂.restart_attempts ≡ p.restart_attempts + 1)
        × (s₂.monitors ≡ i ∷ s₁.monitors)
  unfolding monitor_step increment_attempts
  monitor_recovers waits env name s i p r e n idle w h a b start =
      let p₁ = record p { wait_ch = receive p.wait_ch } in
      let s₀ = store i p₁ s in
      let found = find-store s s₀ name i p p₁ refl refl e in
      let (s₁, q, ask, fq, k) = handle_failure-allowed waits name s₀ i p₁ r found w h (a, b) in
      let (k₁, k₂, k₃, k₄) = k in
      let asked : monitor_step G F waits exited i p s
          ≡ (s₁, false, some (i, restart_delay F r p.restart_attempts)) =
        ground (arith, n, ask) in
      let ok' = start-again env p (increment_attempts q) k₁ k₂ idle (k₄ idle) in
      let (s₂, p₂, go, f₂, up, al, at, mo) =
        restart-up env name i (increment_attempts q) s₁ fq (ground (arith, ok', start)) in
      (
        s₁,
        increment_attempts q,
        s₂,
        p₂,
        asked,
        (find-inv s₁ name i (increment_attempts q) fq).1,
        go,
        f₂,
        up,
        al,
        ground (arith, at, k₃),
        mo,
      )
