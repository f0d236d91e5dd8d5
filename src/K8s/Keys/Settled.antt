-- ===== src/K8s/Keys/Settled.antt =====
-- The controller of keys comes to rest.
use tunneld.Prelude.{
  ◌≡◌, refl, String, ℤ, pos, negsuc, eq_ℤ, Bool, true, Option, none, some, lookup, arith,
  Option-cases, Bool-cases, ◌⊎◌, inl, inr, ◌&&◌,
}
use tunneld.Errors.{Err, io, wrapped}
use tunneld.K8s.Types.{
  TunnelKeyPhase, unset, pending, ready, failed, TunnelKeyStatus, TunnelKey, Secret, Got, found,
  absent, failing, Outcome, done,
}
use tunneld.K8s.Keys.{eq_phase, set_phase, reconcile}

eq_phase_refl : (p : TunnelKeyPhase) → eq_phase p p ≡ true
eq_phase_refl unset = refl
eq_phase_refl pending = refl
eq_phase_refl ready = refl
eq_phase_refl failed = refl

eq_ℤ_refl : (z : ℤ) → eq_ℤ z z ≡ true
eq_ℤ_refl (pos n) = ground arith
eq_ℤ_refl (negsuc n) = ground arith

pub Got-cases :
    {A : Type 0} (g : Got A)
    → (g ≡ absent) ⊎ (((e : Err) × (g ≡ failing e)) ⊎ ((a : A) × (g ≡ found a)))
Got-cases (found a) = inr (inr (a, refl))
Got-cases absent = inl refl
Got-cases (failing e) = inr (inl (e, refl))

module _ (same : Option Err → Option Err → Bool) (write : TunnelKeyStatus → Option Err)
    (reflexive : (e : Option Err) → same e e ≡ true) where
  set_phase_twice :
      (k : TunnelKey) (phase : TunnelKeyPhase) (msg : Option Err) (st : TunnelKeyStatus)
      (o : Outcome)
      → set_phase same write k phase msg ≡ (some st, o)
      → set_phase same write (record k { status = st }) phase msg ≡ (none, done)
  unfolding set_phase
  set_phase_twice k phase msg st o h =
      elim (Bool-cases (
        eq_phase k.status.phase phase
        && same k.status.last_error msg
        && eq_ℤ k.status.observed_generation k.generation)) [
          | inl c ↦ absurd (ground (arith, c, h))
          | inr c ↦
              let w =
                write (record {
                  phase = phase;
                  last_error = msg;
                  observed_generation = k.generation;
                }) in
              let written : (st.phase ≡ phase)
                  × (st.last_error ≡ msg)
                  × (st.observed_generation ≡ k.generation) =
                elim (Option-cases w) [
                  | inl x ↦ ground (arith, c, x, h)
                  | inr (y, x) ↦ ground (arith, c, x, h)
                ] in
              ground (arith, written, eq_phase_refl phase, reflexive msg, eq_ℤ_refl k.generation)
        ]

  -- If an error's text equals itself, then after a pass that writes a status, a pass over the key
  -- with that status and the same secrets writes nothing.
  pub reconcile_settles :
      (k : TunnelKey) (get_secret : String → Got Secret) {st : TunnelKeyStatus} {o : Outcome}
      → reconcile same write (found k) get_secret ≡ (some st, o)
      → reconcile same write (found (record k { status = st })) get_secret ≡ (none, done)
  unfolding reconcile
  reconcile_settles k get_secret {st} {o} h = elim (Option-cases k.source.secret_ref) [
    | inl e ↦ ground (
      arith,
      e,
      set_phase_twice k failed (some (io "spec.source.secretRef is required")) st o
          (ground (arith, e, h)),
    )
    | inr (ref, e) ↦ elim (Got-cases (get_secret ref.name)) [
      | inl f ↦ ground (
        arith,
        e,
        f,
        set_phase_twice k pending (some (wrapped ref.name (io "secret not found"))) st o
            (ground (arith, e, f, h)),
      )
      | inr (inl (x, f)) ↦ absurd (ground (arith, e, f, h))
      | inr (inr (s, f)) ↦ elim (Option-cases (lookup ref.key s.data_of)) [
        | inl g ↦ ground (
          arith,
          e,
          f,
          g,
          set_phase_twice k failed (some (wrapped ref.key (io "secret has no key"))) st o
              (ground (arith, e, f, g, h)),
        )
        | inr (c, g) ↦
            ground (arith, e, f, g, set_phase_twice k ready none st o (ground (arith, e, f, g, h)))
      ]
    ]
  ]
