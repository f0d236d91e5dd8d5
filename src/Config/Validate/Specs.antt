-- ===== src/Config/Validate/Specs.antt =====
-- ToSpecs on a configuration that Validate accepts: the specs of the enabled tunnels, and the
-- addresses that they claim.
use mathlib.Core.List.{append-nil, append_assoc}
use tunneld.Prelude.{
  String, ◌≡◌, refl, sym, ap, ◌∙◌, none, some, List, [], ◌∷◌, ◌++◌, map, arith, eq_iff, ◌==◌, GoMap,
  lookup, insert, lookup-insert, HasUniqueKeys, if◌then◌else◌, Bool-cases, Option-cases, inl, inr,
}
use tunneld.Errors.{Result, ok, err, >>=-eq-ok, Result-cases}
use tunneld.Proto.{TunnelSpec}
use tunneld.Config.{TunnelConfig, Config}
use tunneld.Config.Convert.{to_proto, to_spec}
use tunneld.Config.Validate.{keys_of, specs_from, to_specs}
use tunneld.Config.Validate.Ports.{Converts, claimed}
use tunneld.Tunnel
use tunneld.Tunnel.{Spec}
use tunneld.Tunnel.Wraps.{from_proto-ok}
use tunneld.Tunnel.Ports.{local_port_keys}

abbrev spec_entry : String → Result Spec → GoMap Spec → GoMap Spec
spec_entry n (ok s) rest = (n, s) ∷ rest
spec_entry n (err e) rest = rest

-- The specs of the enabled tunnels that convert, in the order of the map.
pub converted : GoMap TunnelConfig → GoMap Spec
converted [] = []
converted ((n, t) ∷ rest) =
    let more = converted rest in if t.enabled then spec_entry n (to_spec t n) more else more

-- The keys of all specs of a list.
abbrev pub keys_of_specs : List Spec → List String
keys_of_specs [] = []
keys_of_specs (spec ∷ specs) = local_port_keys (Tunnel.to_proto spec) ++ keys_of_specs specs

insert-absent :
    (k : String) (s : Spec) (m : GoMap Spec) → lookup k m ≡ none → insert k s m ≡ m ++ (k, s) ∷ []
unfolding lookup insert
insert-absent k s [] h = refl
insert-absent k s ((n, t) ∷ m) h = ground (arith, h, insert-absent k s m)

to_proto-name : (t : TunnelConfig) (n : String) {p : TunnelSpec} → to_proto t n ≡ ok p → p.name ≡ n
unfolding to_proto tunneld.Config.Convert.ssh_to tunneld.Config.Convert.kubectl_to
to_proto-name t n h = ground (
  arith,
  h,
  Bool-cases (t.type == "ssh"),
  Bool-cases (t.type == "kubectl"),
  Option-cases t.ssh,
  Option-cases t.kubectl,
)

-- A converted spec is the message, and has the name.
pub to_spec-ok :
    (t : TunnelConfig) (n : String) {s : Spec}
    → to_spec t n ≡ ok s
    → (to_proto t n ≡ ok (Tunnel.to_proto s)) × (Tunnel.name s ≡ n)
unfolding to_spec
to_spec-ok t n {s} h =
    let (p, e, f) = >>=-eq-ok (to_proto t n) Tunnel.from_proto h in
    let same = from_proto-ok p f in
    (ground (arith, e, same), ground (arith, same, to_proto-name t n e))

-- None of the names of a map is a key of another.
abbrev IsNew : GoMap TunnelConfig → GoMap Spec → Type 0
IsNew [] acc = Unit
IsNew ((n, t) ∷ rest) acc = (lookup n acc ≡ none) × IsNew rest acc

insert-IsNew :
    (n : String) (s : Spec) (m : GoMap TunnelConfig) (acc : GoMap Spec)
    → lookup n m ≡ none
    → IsNew m acc
    → IsNew m (insert n s acc)
unfolding lookup
insert-IsNew n s [] acc h f = tt
insert-IsNew n s ((k, t) ∷ m) acc h (e, f) = (
  ground (arith, h, e, lookup-insert n k s acc, eq_iff n k, eq_iff k n),
  insert-IsNew n s m acc (ground (arith, h)) f,
)

no_key-IsNew : (m : GoMap TunnelConfig) → IsNew m []
unfolding lookup
no_key-IsNew [] = tt
no_key-IsNew ((n, t) ∷ m) = (refl, no_key-IsNew m)

specs_from-converted :
    (m : GoMap TunnelConfig) (acc : GoMap Spec)
    → HasUniqueKeys m
    → Converts m
    → IsNew m acc
    → specs_from m acc ≡ ok (acc ++ converted m)
unfolding specs_from converted
specs_from-converted [] acc u c f = ap ok (sym (append-nil acc))
specs_from-converted ((n, t) ∷ m) acc (new, u) (c, cs) (e, f) = elim (Bool-cases t.enabled) [
  | inr off ↦ ground (arith, off, specs_from-converted m acc u cs f)
  | inl on ↦
      let (typed, (s, h)) = c on in
      let rest = specs_from-converted m (insert n s acc) u cs (insert-IsNew n s m acc new f) in
      let grown : insert n s acc ++ converted m ≡ acc ++ (n, s) ∷ converted m =
        ap (λ l. l ++ converted m) (insert-absent n s acc e)
        ∙ append_assoc acc ((n, s) ∷ []) (converted m) in
      ground (arith, on, h, rest, grown)
]

-- ToSpecs on a configuration whose enabled tunnels convert gives their specs.
pub to_specs-converted :
    (c : Config)
    → HasUniqueKeys c.tunnels
    → Converts c.tunnels
    → to_specs c ≡ ok (converted c.tunnels)
unfolding to_specs
to_specs-converted c u h = specs_from-converted c.tunnels [] u h (no_key-IsNew c.tunnels)

lookup-converted :
    (m : GoMap TunnelConfig) (k : String) → lookup k m ≡ none → lookup k (converted m) ≡ none
unfolding lookup converted
lookup-converted [] k h = refl
lookup-converted ((n, t) ∷ m) k h =
    ground (arith, h, lookup-converted m k, Bool-cases t.enabled, Result-cases (to_spec t n))

pub converted-HasUniqueKeys :
    (m : GoMap TunnelConfig) → HasUniqueKeys m → HasUniqueKeys (converted m)
unfolding converted
converted-HasUniqueKeys [] u = tt
converted-HasUniqueKeys ((n, t) ∷ m) (new, u) =
    let v = converted-HasUniqueKeys m u in
    let e = lookup-converted m n new in
    elim (Bool-cases t.enabled) [
      | inr off ↦ rw off v
      | inl on ↦ elim (Result-cases (to_spec t n)) [
        | inl (s, h) ↦ simp (on, h) (e, v)
        | inr (x, h) ↦ simp (on, h) v
      ]
    ]

-- The specs claim the addresses that their tunnels do.
pub keys-converted :
    (m : GoMap TunnelConfig) → Converts m → keys_of_specs (map (λ b. b.1) (converted m)) ≡ claimed m
unfolding converted claimed keys_of
keys-converted [] c = refl
keys-converted ((n, t) ∷ m) (c, cs) = elim (Bool-cases t.enabled) [
  | inr off ↦ ground (arith, off, keys-converted m cs)
  | inl on ↦
      let (typed, (s, h)) = c on in
      let (e, name) = to_spec-ok t n h in ground (arith, on, h, e, keys-converted m cs)
]

-- The names of the specs are their keys.
pub names-converted :
    (m : GoMap TunnelConfig)
    → map (λ s. Tunnel.name s) (map (λ b. b.1) (converted m)) ≡ map (λ b. b.0) (converted m)
unfolding converted
names-converted [] = refl
names-converted ((n, t) ∷ m) = elim (Bool-cases t.enabled) [
  | inr off ↦ simp off (names-converted m)
  | inl on ↦ elim (Result-cases (to_spec t n)) [
    | inr (x, h) ↦ simp (on, h) (names-converted m)
    | inl (s, h) ↦ ground (arith, on, h, to_spec-ok t n h, names-converted m)
  ]
]

pub lookup-converted-name :
    (m : GoMap TunnelConfig) (n : String) (s : Spec)
    → lookup n (converted m) ≡ some s
    → Tunnel.name s ≡ n
unfolding converted lookup
lookup-converted-name [] n s h = absurd (ground (arith, h))
lookup-converted-name ((k, t) ∷ m) n s h = elim (Bool-cases t.enabled) [
  | inr off ↦ lookup-converted-name m n s (ground (arith, off, h))
  | inl on ↦ elim (Result-cases (to_spec t k)) [
    | inr (x, e) ↦ lookup-converted-name m n s (ground (arith, on, e, h))
    | inl (r, e) ↦ elim (Bool-cases (k == n)) [
      | inl f ↦ ground (arith, on, e, f, h, eq_iff k n, to_spec-ok t k e)
      | inr f ↦ lookup-converted-name m n s (ground (arith, on, e, f, h))
    ]
  ]
]
