-- ===== src/Daemon/Supervisor/Failure/Timeout.antt =====
-- What a health timeout leaves of the command that it gives up.
use tunneld.Prelude.{
  ℕ, String, ◌≡◌, refl, true, false, none, some, List, inl, inr, [], ◌∷◌, length, arith, ◌==◌,
}
use tunneld.Errors.{Err, err, Result-cases, ok, wrapped}
use tunneld.Proto.{RestartPolicySpec}
use tunneld.Tunnel
use tunneld.Tunnel.{failed}
use tunneld.Dependency.{Graphs, dependents_of}
use tunneld.Daemon.Process
use tunneld.Daemon.Process.{Process, StartEnv, Waited, increment_attempts}
use tunneld.Daemon.Process.Life.{start_lem}
use tunneld.Daemon.Supervisor.{Supervisor, deref, store, find, start_and_notify}
use tunneld.Daemon.Supervisor.Failure.{
  Floats, tick, monitor_step, handle_failure, stop_dependents, restart_delay, is_wanted,
  is_exhausted,
}
use tunneld.Daemon.Supervisor.Failure.Policy.{Allows}
use tunneld.Daemon.Supervisor.Failure.Recovery.{after_stops-allowed}
use tunneld.Daemon.Supervisor.Invariant.{find-inv}
use tunneld.Daemon.Supervisor.Operations.Starting.{find-store}

-- The process after a health timeout.
abbrev pub given_up : Err → Process → Process
given_up x p = record p { status = failed; last_error = some (wrapped "health check timeout" x) }

module _ (G : Graphs) (F : Floats) where
  open G use {Graph}

  -- The tunnels that handleFailure stops first: none where DependentsOf fails.
  abbrev pub dependents : String → Supervisor Graph → List String
  dependents name s = elim (dependents_of G name s.planner) [ err e ↦ [] | ok ds ↦ ds ]

  handle_failure-alone :
      (waits : String → Waited) (name : String) (s : Supervisor Graph) (i : ℕ) (p : Process)
      (r : RestartPolicySpec)
      → find s name ≡ some (i, p)
      → is_wanted p.expected_state ≡ true
      → Tunnel.restart_policy p.spec ≡ some r
      → Allows r p.restart_attempts
      → dependents name s ≡ []
      → handle_failure G F waits name s
        ≡ (store i (increment_attempts p) s, some (i, restart_delay F r p.restart_attempts))
  unfolding handle_failure stop_dependents
  handle_failure-alone waits name s i p r e w h a f =
      let (l, d) = find-inv s name i p e in
      let stops = after_stops-allowed G F i p r s d h a in
      elim (Result-cases (dependents_of G name s.planner)) [
        | inr (x, k) ↦ ground (arith, e, w, k, stops)
        | inl (ds, k) ↦
            let none_there : ds ≡ [] = ground (arith, k, f) in
            ground (arith, e, w, k, none_there, stops)
      ]

  -- A health check that fails past the deadline, on a wanted tunnel without dependents whose policy
  -- has attempts left, asks for a restart; and where the Start of that restart succeeds, every
  -- earlier command of the tunnel is left as it was, neither ended nor cancelled, beside the new one.
  pub timeout_keeps_commands :
      (waits : String → Waited) (env : StartEnv) (name : String) (s : Supervisor Graph) (i : ℕ)
      (p : Process) (r : RestartPolicySpec) (x : Err)
      → find s name ≡ some (i, p)
      → Tunnel.name p.spec ≡ name
      → is_wanted p.expected_state ≡ true
      → Tunnel.restart_policy p.spec ≡ some r
      → r.policy == "never" ≡ false
      → is_exhausted r p.restart_attempts ≡ false
      → dependents name s ≡ []
      → (Process.start env (increment_attempts (given_up x p))).1 ≡ none
      → (s₁ : Supervisor Graph) × (q : Process) × (s₂ : Supervisor Graph) × (p₂ : Process)
        × (monitor_step G F waits (tick (some x) true) i p s
            ≡ (s₁, false, some (i, restart_delay F r p.restart_attempts)))
        × (deref s₁ i ≡ some q)
        × (start_and_notify env i q s₁ ≡ (s₂, none))
        × (find s₂ name ≡ some (i, p₂))
        × (p₂.runs ≡ record { id = length p.runs; alive = true; cancelled = false } ∷ p.runs)
  unfolding monitor_step increment_attempts start_and_notify
  timeout_keeps_commands waits env name s i p r x e n w h a b f start =
      let p₁ = given_up x p in
      let s₀ = store i p₁ s in
      let found = find-store s s₀ name i p p₁ refl refl e in
      let q = increment_attempts p₁ in
      let s₁ = store i q s₀ in
      let ask : handle_failure G F waits name s₀
          ≡ (s₁, some (i, restart_delay F r p.restart_attempts)) =
        handle_failure-alone waits name s₀ i p₁ r found w h (a, b) f in
      let fq = find-store s₀ s₁ name i p₁ q refl refl found in
      let p₂ = (Process.start env q).0 in
      let s₂ : Supervisor Graph = record (store i p₂ s₁) { monitors = i ∷ s₁.monitors } in
      let go : Process.start env q ≡ (p₂, none) = ground (arith, start) in
      (
        s₁,
        q,
        s₂,
        p₂,
        ground (arith, n, ask),
        (find-inv s₁ name i q fq).1,
        ground (arith, start),
        find-store s₁ s₂ name i q p₂ refl refl fq,
        ground (arith, start_lem env q go),
      )
