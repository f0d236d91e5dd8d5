-- ===== src/Daemon/Supervisor/Failure/Policy.antt =====
-- What handleFailure and the monitor decide.
use tunneld.Prelude.{
  ℕ, ◌≡◌, ◌<◌, ◌^◌, String, ℤ, pos, int32, true, false, some, arith, Bool-cases, Option-cases, inl,
  inr, get_elem?-set-same, ◌==◌,
}
use tunneld.Errors.{ok, err}
use tunneld.Proto.{RestartPolicySpec}
use tunneld.Dependency.{Graphs, dependents_of}
use tunneld.Tunnel
use tunneld.Tunnel.{Spec, failed}
use tunneld.Daemon.Process.{Process, Waited, increment_attempts}
use tunneld.Daemon.Supervisor.{Supervisor, deref, store, find}
use tunneld.Daemon.Supervisor.Failure.{
  Floats, restarts, is_exhausted, is_wanted, restart_delay, stop_dependents, apply_policy,
  after_stops, handle_failure,
}

-- A restart is allowed: there is a policy that is not "never", and attempts are left.
abbrev pub Allows : RestartPolicySpec → ℕ → Type 0
Allows r attempts = (r.policy == "never" ≡ false) × (is_exhausted r attempts ≡ false)

module _ (G : Graphs) (F : Floats) where
  open G use {Graph}

  apply_policy_lem :
      (i : ℕ) (p : Process) (s s' : Supervisor Graph) (j : ℕ) (d : ℤ)
      → apply_policy G F i p s ≡ (s', some (j, d))
      → (r : RestartPolicySpec) × (Tunnel.restart_policy p.spec ≡ some r)
        × Allows r p.restart_attempts
        × (j ≡ i)
        × (d ≡ restart_delay F r p.restart_attempts)
        × (s' ≡ store i (increment_attempts p) s)
  unfolding apply_policy restarts
  apply_policy_lem i p s s' j d h = elim (Option-cases (Tunnel.restart_policy p.spec)) [
    | inl e ↦ absurd (ground (arith, e, h))
    | inr (r, e) ↦ elim (Bool-cases (r.policy == "never")) [
      | inl n ↦ absurd (ground (arith, e, n, h))
      | inr n ↦ elim (Bool-cases (is_exhausted r p.restart_attempts)) [
        | inl x ↦ absurd (ground (arith, e, n, x, h))
        | inr x ↦ (
          r,
          e,
          (n, x),
          ground (arith, e, n, x, h),
          ground (arith, e, n, x, h),
          ground (arith, e, n, x, h),
        )
      ]
    ]
  ]

  after_stops_lem :
      (i : ℕ) (s s' : Supervisor Graph) (j : ℕ) (d : ℤ)
      → after_stops G F i s ≡ (s', some (j, d))
      → (p : Process) × (deref s i ≡ some p) × (apply_policy G F i p s ≡ (s', some (j, d)))
  unfolding after_stops
  after_stops_lem i s s' j d h = elim (Option-cases (deref s i)) [
    | inl e ↦ absurd (ground (arith, e, h))
    | inr (p, e) ↦ (p, e, ground (arith, e, h))
  ]

  -- A failure asks for a restart only of a tunnel that is wanted, under a policy that is not
  -- "never" and has attempts left; the delay is that of the policy, and the attempt is counted.
  pub handle_failure_restarts :
      (waits : String → Waited) (name : String) (s : Supervisor Graph) {s' : Supervisor Graph}
      {j : ℕ} {d : ℤ}
      → handle_failure G F waits name s ≡ (s', some (j, d))
      → (old : Process) × (p : Process) × (r : RestartPolicySpec) × (find s name ≡ some (j, old))
        × (is_wanted old.expected_state ≡ true)
        × (Tunnel.restart_policy p.spec ≡ some r)
        × (r.policy == "never" ≡ false)
        × (is_exhausted r p.restart_attempts ≡ false)
        × (d ≡ restart_delay F r p.restart_attempts)
        × (deref s' j ≡ some (increment_attempts p))
  unfolding handle_failure
  handle_failure_restarts waits name s {s'} {j} {d} h = elim (Option-cases (find s name)) [
    | inl e ↦ absurd (ground (arith, e, h))
    | inr ((i, old), e) ↦ elim (Bool-cases (is_wanted old.expected_state)) [
      | inr w ↦ absurd (ground (arith, e, w, h))
      | inl w ↦
          let s₁ : Supervisor Graph = elim (dependents_of G name s.planner) [
            | err x ↦ s
            | ok ds ↦ stop_dependents waits ds s
          ] in
          let (p, f, a) = after_stops_lem i s₁ s' j d (ground (arith, e, w, h)) in
          let (r, q, al, ji, di, se) = apply_policy_lem i p s₁ s' j d a in
          (
            old,
            p,
            r,
            ground (arith, ji, e),
            w,
            q,
            al.0,
            al.1,
            di,
            rw (se, ji) (get_elem?-set-same s₁.heap i (increment_attempts p) f),
          )
    ]
  ]

-- While fewer than 2 ^ 31 attempts were made, a policy with a positive maximum that is not
-- exhausted has had fewer attempts than the maximum.
pub is_exhausted_lem :
    (r : RestartPolicySpec) (max attempts : ℕ)
    → r.max_attempts ≡ pos max
    → 0 < max
    → attempts < 2 ^ 31
    → is_exhausted r attempts ≡ false
    → attempts < max
unfolding is_exhausted int32
is_exhausted_lem r max attempts e z b h = ground (arith, e, h)
