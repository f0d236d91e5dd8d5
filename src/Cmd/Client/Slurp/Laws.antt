-- ===== src/Cmd/Client/Slurp/Laws.antt =====
-- What slurpKeys makes of a spec.
use tunneld.Prelude.{
  ℕ, String, ◌≡◌, refl, ◌⊎◌, inl, inr, List, [], ◌∷◌, GoMap, arith, ◌==◌, eq_iff, Bool-cases,
}
use tunneld.Errors.{ok, Result-cases}
use tunneld.Proto.{TunnelSpec, SpecType, unset, ssh, kubectl}
use tunneld.Cmd.Client.Slurp.{
  LocalFiles, expanded, read_local_key, slurp_type, slurp_keys, key_file, key_name,
}

-- Nothing was read, or one key, which the type now refers to by name.
abbrev pub Slurped : LocalFiles → SpecType → SpecType → GoMap (List ℕ) → Type 0
Slurped fs type type' keys =
    ((key_file type ≡ "") × (type' ≡ type) × (keys ≡ []))
    ⊎ ((content : List ℕ) × (fs.read_file (expanded fs (key_file type)) ≡ ok content)
        × (keys ≡ (key_name type', content) ∷ [])
        × (key_name type' ≡ fs.base (expanded fs (key_file type)))
        × (key_file type' ≡ ""))

read_local_key-ok :
    (fs : LocalFiles) (path : String) {content : List ℕ} {name : String}
    → read_local_key fs path ≡ ok (content, name)
    → (fs.read_file (expanded fs path) ≡ ok content) × (name ≡ fs.base (expanded fs path))
unfolding read_local_key
read_local_key-ok fs path h = ground (arith, h, Result-cases (fs.read_file (expanded fs path)))

slurp_type-ok :
    (fs : LocalFiles) (type : SpecType) {type' : SpecType} {keys : GoMap (List ℕ)}
    → slurp_type fs type ≡ ok (type', keys)
    → Slurped fs type type' keys
unfolding slurp_type
slurp_type-ok fs unset h = inl (refl, ground (arith, h), ground (arith, h))
slurp_type-ok fs (ssh s) h = elim (Bool-cases (s.identity_key_file == "")) [
  | inl e ↦
      inl (
        ground (arith, e, eq_iff s.identity_key_file ""),
        ground (arith, e, h),
        ground (arith, e, h),
      )
  | inr e ↦ elim (Result-cases (read_local_key fs s.identity_key_file)) [
    | inr (x, f) ↦ absurd (ground (arith, e, f, h))
    | inl ((content, name), f) ↦
        let (r, b) = read_local_key-ok fs s.identity_key_file f in
        inr
          (content, r, ground (arith, e, f, h), ground (arith, e, f, h, b), ground (arith, e, f, h))
  ]
]
slurp_type-ok fs (kubectl k) h = elim (Bool-cases (k.kubeconfig_file == "")) [
  | inl e ↦
      inl
        (ground (arith, e, eq_iff k.kubeconfig_file ""), ground (arith, e, h), ground (arith, e, h))
  | inr e ↦ elim (Result-cases (read_local_key fs k.kubeconfig_file)) [
    | inr (x, f) ↦ absurd (ground (arith, e, f, h))
    | inl ((content, name), f) ↦
        let (r, b) = read_local_key-ok fs k.kubeconfig_file f in
        inr
          (content, r, ground (arith, e, f, h), ground (arith, e, f, h, b), ground (arith, e, f, h))
  ]
]

no_file-slurp_type :
    (fs : LocalFiles) (type : SpecType) → key_file type ≡ "" → slurp_type fs type ≡ ok (type, [])
unfolding slurp_type
no_file-slurp_type fs unset h = refl
no_file-slurp_type fs (ssh s) h = ground (arith, h, eq_iff s.identity_key_file "")
no_file-slurp_type fs (kubectl k) h = ground (arith, h, eq_iff k.kubeconfig_file "")

-- A spec whose keys were read names no key file of the client's machine any more; a file that it
-- named is among the keys, with its content, under the name to which the spec now refers, and
-- another pass finds nothing more to read. The name and the dependencies stay.
pub slurp_keys-Slurped :
    (fs : LocalFiles) (p : TunnelSpec) {p' : TunnelSpec} {keys : GoMap (List ℕ)}
    → slurp_keys fs p ≡ ok (p', keys)
    → Slurped fs p.type p'.type keys
      × (key_file p'.type ≡ "")
      × (slurp_keys fs p' ≡ ok (p', []))
      × (p'.name ≡ p.name)
      × (p'.depends_on ≡ p.depends_on)
unfolding slurp_keys
slurp_keys-Slurped fs p {p'} {keys} h = elim (Result-cases (slurp_type fs p.type)) [
  | inr (x, e) ↦ absurd (ground (arith, e, h))
  | inl ((type, read), e) ↦
      let same : slurp_type fs p.type ≡ ok (p'.type, keys) = ground (arith, e, h) in
      let s = slurp_type-ok fs p.type same in
      let none_left : key_file p'.type ≡ "" = elim s [
        | inl (a, b, c) ↦ ground (arith, a, b)
        | inr (content, a, b, c, d) ↦ d
      ] in
      (
        s,
        none_left,
        ground (arith, no_file-slurp_type fs p'.type none_left),
        ground (arith, e, h),
        ground (arith, e, h),
      )
]
