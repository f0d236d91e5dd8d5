-- ===== src/K8s/Agent/Uploads.antt =====
-- What the agent has done before it pushes a tunnel to the daemon.
use tunneld.Prelude.{
  ◌≡◌, ℕ, ℤ, String, Option, none, some, List, [], ◌∷◌, Memᴰ, arith, Option-cases, Bool-cases, ◌⊎◌,
  inl, inr, ◌==◌, eq_iff,
}
use tunneld.Errors.{Err, ok, Result-cases, wrapped}
use tunneld.Proto
use tunneld.K8s.Types.{Tunnel, TunnelStatus, Outcome, found}
use tunneld.K8s.Convert.{to_proto}
use tunneld.K8s.Keys.Settled.{Got-cases}
use tunneld.K8s.Agent.{
  World, Call, delete_call, add_key_call, update_call, patch_call, resolve_key, patch_then, degrade,
  reflect, after_call, push, upload, manage, reconcile,
}

-- The specs that a list of calls pushes.
unfoldable pub pushed : List Call → List Proto.TunnelSpec
pushed [] = []
pushed (update_call p ∷ cs) = p ∷ pushed cs
pushed (delete_call n ∷ cs) = pushed cs
pushed (add_key_call n c ∷ cs) = pushed cs
pushed (patch_call st ∷ cs) = pushed cs

patch_then-pushed :
    (w : World) (st : TunnelStatus) (o : Outcome) → pushed (patch_then w st o).0 ≡ []
unfolding patch_then pushed
patch_then-pushed w st o = ground (arith, Option-cases (w.patch st))

degrade-pushed : (w : World) (t : Tunnel) (e : Err) → pushed (degrade w t e).0 ≡ []
unfolding degrade
degrade-pushed w t e = patch_then-pushed w _ _

reflect-pushed : (w : World) (t : Tunnel) (name : String) → pushed (reflect w t name).0 ≡ []
unfolding reflect
reflect-pushed w t name = elim (Result-cases (w.status name)) [
  | inr (x, e) ↦ rw (e, reflect) (patch_then-pushed w _ _)
  | inl ([], e) ↦ rw (e, reflect) (patch_then-pushed w _ _)
  | inl (ds ∷ more, e) ↦ rw (e, reflect) (patch_then-pushed w _ _)
]

push-pushed :
    (f : ℤ → ℕ) (w : World) (t : Tunnel)
    → (pushed (push f w t).0 ≡ [])
      ⊎ ((p : Proto.TunnelSpec) × (to_proto f t ≡ ok p) × (pushed (push f w t).0 ≡ p ∷ []))
unfolding push after_call pushed
push-pushed f w t = elim (Result-cases (to_proto f t)) [
  | inr (x, e) ↦ inl (ground (arith, e, degrade-pushed w t x))
  | inl (p, e) ↦ elim (Option-cases (w.update p)) [
    | inl g ↦ inr (p, ground (arith, e), ground (arith, e, g, reflect-pushed w t p.name))
    | inr (x, g) ↦
        inr (p, ground (arith, e), ground (arith, e, g, degrade-pushed w t (wrapped "Update" x)))
  ]
]

-- The key that a tunnel needs is there: none is needed, or it has an empty name, or the daemon
-- accepted it.
abbrev pub IsUploaded : World → Option (String × List ℕ) → Type 0
IsUploaded w none = Unit
IsUploaded w (some (name, content)) = (name ≡ "") ⊎ (w.add_key name content ≡ none)

-- Nothing is pushed, or the conversion of the tunnel, whose key is there.
abbrev PushesOnce : (ℤ → ℕ) → World → Tunnel → List Call → Type 0
PushesOnce f w t cs =
    (pushed cs ≡ [])
    ⊎ ((p : Proto.TunnelSpec) × (k : Option (String × List ℕ)) × (to_proto f t ≡ ok p)
        × (resolve_key w t ≡ ok k)
        × IsUploaded w k
        × (pushed cs ≡ p ∷ []))

upload-pushed :
    (f : ℤ → ℕ) (w : World) (t : Tunnel) (name : String) (content : List ℕ)
    → (pushed (upload f w t name content).0 ≡ [])
      ⊎ ((p : Proto.TunnelSpec) × (to_proto f t ≡ ok p)
          × IsUploaded w (some (name, content))
          × (pushed (upload f w t name content).0 ≡ p ∷ []))
unfolding upload after_call pushed
upload-pushed f w t name content = elim (Bool-cases (name == "")) [
  | inl e ↦ elim (push-pushed f w t) [
    | inl a ↦ inl (ground (arith, e, a))
    | inr (p, a, b) ↦ inr (p, a, inl (ground (arith, e, eq_iff name "")), ground (arith, e, b))
  ]
  | inr e ↦ elim (Option-cases (w.add_key name content)) [
    | inr (x, g) ↦ inl (ground (arith, e, g, degrade-pushed w t (wrapped "AddKey" x)))
    | inl g ↦ elim (push-pushed f w t) [
      | inl a ↦ inl (ground (arith, e, g, a))
      | inr (p, a, b) ↦ inr (p, a, inr g, ground (arith, e, g, b))
    ]
  ]
]

manage-pushed : (f : ℤ → ℕ) (w : World) (t : Tunnel) → PushesOnce f w t (manage f w t).0
unfolding manage
manage-pushed f w t = elim (Result-cases (resolve_key w t)) [
  | inr (x, e) ↦ inl (ground (arith, e, degrade-pushed w t x))
  | inl (none, e) ↦ elim (push-pushed f w t) [
    | inl a ↦ inl (ground (arith, e, a))
    | inr (p, a, b) ↦ inr (p, none, a, e, tt, ground (arith, e, b))
  ]
  | inl (some (name, content), e) ↦ elim (upload-pushed f w t name content) [
    | inl a ↦ inl (ground (arith, e, a))
    | inr (p, a, u, b) ↦ inr (p, some (name, content), a, e, u, ground (arith, e, b))
  ]
]

Memᴰ-nil : {p : Proto.TunnelSpec} (ps : List Proto.TunnelSpec) → ps ≡ [] → Memᴰ p ps → ⊥
Memᴰ-nil [] e h = elim h [ ]
Memᴰ-nil (x ∷ xs) e h = absurd (ground (arith, e))

-- The one element of a list is what stands in it.
Memᴰ-one : {p q : Proto.TunnelSpec} (ps : List Proto.TunnelSpec) → ps ≡ q ∷ [] → Memᴰ p ps → p ≡ q
Memᴰ-one ps e (Memᴰ.head h) = cc
Memᴰ-one (x ∷ xs) e (Memᴰ.tail h) = absurd (Memᴰ-nil xs (ground (arith, e)) h)

-- A pass pushes a spec at most once, and only the conversion of a Tunnel of this node whose key
-- was resolved and, unless its name is empty, accepted by the daemon before.
pub reconcile-pushed :
    (f : ℤ → ℕ) (w : World) (node namespace name : String) {p : Proto.TunnelSpec}
    → Memᴰ p (pushed (reconcile f w node namespace name).0)
    → (t : Tunnel) × (k : Option (String × List ℕ)) × (w.get_tunnel ≡ found t)
      × (t.status.node ≡ node)
      × (to_proto f t ≡ ok p)
      × (resolve_key w t ≡ ok k)
      × IsUploaded w k
      × (pushed (reconcile f w node namespace name).0 ≡ p ∷ [])
unfolding reconcile pushed
reconcile-pushed f w node namespace name h = elim (Got-cases w.get_tunnel) [
  | inl e ↦ absurd (Memᴰ-nil (pushed (reconcile f w node namespace name).0) (ground (arith, e)) h)
  | inr (inl (x, e)) ↦
      absurd (Memᴰ-nil (pushed (reconcile f w node namespace name).0) (ground (arith, e)) h)
  | inr (inr (t, e)) ↦ elim (Bool-cases (t.status.node == node)) [
    | inr g ↦
        absurd (Memᴰ-nil (pushed (reconcile f w node namespace name).0) (ground (arith, e, g)) h)
    | inl g ↦ elim (manage-pushed f w t) [
      | inl a ↦
          absurd
            (Memᴰ-nil (pushed (reconcile f w node namespace name).0) (ground (arith, e, g, a)) h)
      | inr (q, k, a, r, u, b) ↦
          let b' : pushed (reconcile f w node namespace name).0 ≡ q ∷ [] =
            ground (arith, e, g, b) in
          let same = Memᴰ-one (pushed (reconcile f w node namespace name).0) b' h in
          (t, k, e, ground (arith, g, eq_iff t.status.node node), rw same a, r, u, rw same b')
    ]
  ]
]
