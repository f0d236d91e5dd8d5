-- ===== src/Daemon/Supervisor/Failure/Delay.antt =====
-- The delay before a restart.
use tunneld.Prelude.{
  ℕ, ◌≡◌, ℤ, pos, negsuc, ltb_ℤ, ltb, true, false, some, arith, if◌then◌else◌, Bool-cases, inl, inr,
}
use tunneld.Proto.{RestartPolicySpec, BackoffSpec, as_duration}
use tunneld.Daemon.Supervisor.Failure.{Floats, cap_delay, backoff_delay, restart_delay}

ltb_ℤ_irrefl : (z : ℤ) → ltb_ℤ z z ≡ false
ltb_ℤ_irrefl (pos n) = ground arith
ltb_ℤ_irrefl (negsuc n) = ground arith

-- The cap holds where there is one.
cap_delay_le :
    (F : Floats) (max d : ℤ) → ltb_ℤ (pos 0) max ≡ true → ltb_ℤ max (cap_delay F max d) ≡ false
unfolding cap_delay
cap_delay_le F max d m = elim (Bool-cases (ltb_ℤ max d)) [
  | inl e ↦ ground (arith, m, e, ltb_ℤ_irrefl max)
  | inr e ↦ ground (arith, m, e)
]

-- Under a backoff with a positive maximum, the delay of the first restart is the configured one,
-- and that of every later one is at most the maximum, whatever the floating-point power gives.
pub restart_delay_bounded :
    (F : Floats) (r : RestartPolicySpec) (b : BackoffSpec) (attempts : ℕ)
    → r.backoff ≡ some b
    → ltb_ℤ (pos 0) (as_duration b.max_delay) ≡ true
    → (restart_delay F r 0 ≡ as_duration r.delay)
      × (ltb 0 attempts ≡ true
          → ltb_ℤ (as_duration b.max_delay) (restart_delay F r attempts) ≡ false)
unfolding restart_delay backoff_delay
restart_delay_bounded F r b attempts e m =
    let capped =
      cap_delay_le F (as_duration b.max_delay)
        (F.scale (as_duration r.delay) (if F.is_positive b.multiplier then b.multiplier else F.two)
          attempts)
        m in
    (ground (arith, e), λ a. ground (arith, e, a, capped))
