-- ===== src/K8s/Keys.antt =====
-- k8s/controllers/tunnelkey_controller.go: one pass over a TunnelKey. The pair that a pass
-- gives has the status that it writes, if it writes one, and the outcome.
pub mod Settled
use tunneld.Prelude.{
  ℕ, String, ℤ, eq_ℤ, Bool, true, false, ◌&&◌, Option, none, some, List, lookup, if◌then◌else◌,
}
use tunneld.Errors.{Err, io, wrapped}
use tunneld.K8s.Types.{
  TunnelKeyPhase, unset, pending, ready, failed, TunnelKeyStatus, TunnelKey, Secret, Got, found,
  absent, failing, Outcome, done, failed_with,
}

abbrev pub eq_phase : TunnelKeyPhase → TunnelKeyPhase → Bool
eq_phase unset unset = true
eq_phase pending pending = true
eq_phase ready ready = true
eq_phase failed failed = true
eq_phase _ _ = false

-- `same` compares two texts of the field LastError.
module _ (same : Option Err → Option Err → Bool) (write : TunnelKeyStatus → Option Err) where
  -- setPhase
  unfoldable pub set_phase :
      TunnelKey → TunnelKeyPhase → Option Err → Option TunnelKeyStatus × Outcome
  set_phase k phase msg =
      if eq_phase k.status.phase phase
        && same k.status.last_error msg
        && eq_ℤ k.status.observed_generation k.generation
      then (none, done)
      else let st : TunnelKeyStatus = record {
        phase = phase;
        last_error = msg;
        observed_generation = k.generation;
      } in
        elim (write st) [ none ↦ (some st, done) | some e ↦ (some st, failed_with e) ]

  -- Reconcile
  unfoldable pub reconcile :
      Got TunnelKey → (String → Got Secret) → Option TunnelKeyStatus × Outcome
  unfolding set_phase
  reconcile absent get_secret = (none, done)
  reconcile (failing e) get_secret = (none, failed_with e)
  reconcile (found k) get_secret = elim k.source.secret_ref [
    | none ↦ set_phase k failed (some (io "spec.source.secretRef is required"))
    | some ref ↦ elim (get_secret ref.name) [
      | absent ↦ set_phase k pending (some (wrapped ref.name (io "secret not found")))
      | failing e ↦ (none, failed_with e)
      | found s ↦ elim (lookup ref.key s.data_of) [
        | none ↦ set_phase k failed (some (wrapped ref.key (io "secret has no key")))
        | some content ↦ set_phase k ready none
      ]
    ]
  ]
