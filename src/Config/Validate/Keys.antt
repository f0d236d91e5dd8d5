-- ===== src/Config/Validate/Keys.antt =====
-- The keys of a Go map of specs, and those of ToSpecs.

use tunneld.Prelude.{
  insert, lookup-insert, String, ◌≡◌, refl, false, none, some, List, [], ◌∷◌, map, arith, GoMap,
  lookup, HasUniqueKeys, Memᴰ, Bool-cases, inl, inr, elem, eq_iff, ◌==◌,
}
use tunneld.Config.Validate.Ports.{AllDistinct}
use tunneld.Tunnel.{Spec}
use tunneld.Errors.{ok, Result-cases}
use tunneld.Config.{Config, TunnelConfig}
use tunneld.Config.Convert.{to_spec}
use tunneld.Config.Validate.{specs_from, to_specs}
use mathlib.Core.Path.{subst}

abbrev pub keys : GoMap Spec → List String
keys m = map (λ b. b.0) m

pub elem-keys : (m : GoMap Spec) (n : String) → lookup n m ≡ none → elem n (keys m) ≡ false
unfolding lookup elem
elem-keys [] n h = refl
elem-keys ((k, s) ∷ m) n h = ground (arith, h, elem-keys m n, eq_iff k n, eq_iff n k)

pub keys-AllDistinct : (m : GoMap Spec) → HasUniqueKeys m → AllDistinct (keys m)
keys-AllDistinct [] u = tt
keys-AllDistinct ((k, s) ∷ m) (new, u) = (elem-keys m k new, keys-AllDistinct m u)

-- A spec that is found is a value, and the name of an entry is its key.
pub lookup-value : (m : GoMap Spec) (n : String) (s : Spec) → lookup n m ≡ some s → Memᴰ (n, s) m
unfolding lookup
lookup-value [] n s h = absurd (ground (arith, h))
lookup-value ((k, t) ∷ m) n s h = elim (Bool-cases (k == n)) [
  | inl e ↦ Memᴰ.head (ground (arith, e, h, eq_iff k n))
  | inr e ↦ Memᴰ.tail (lookup-value m n s (ground (arith, e, h)))
]

insert-HasUniqueKeys :
    (k : String) (s : Spec) (m : GoMap Spec) → HasUniqueKeys m → HasUniqueKeys (insert k s m)
unfolding insert lookup
insert-HasUniqueKeys k s [] u = (refl, tt)
insert-HasUniqueKeys k s ((n, t) ∷ m) (new, u) = elim (Bool-cases (n == k)) [
  | inl e ↦
      let same : n ≡ k = ground (arith, e, eq_iff n k) in
      simp e (subst (λ x. lookup x m ≡ none) same new, u)
  | inr e ↦
      let l = lookup-insert k n s m in
      let new' : lookup n (insert k s m) ≡ none =
        ground (arith, l, new, e, eq_iff n k, eq_iff k n) in
      simp e (new', insert-HasUniqueKeys k s m u)
]

specs_from-HasUniqueKeys :
    (m : GoMap TunnelConfig) (acc : GoMap Spec) {specs : GoMap Spec}
    → HasUniqueKeys acc
    → specs_from m acc ≡ ok specs
    → HasUniqueKeys specs
unfolding specs_from
specs_from-HasUniqueKeys [] acc {specs} u h =
    let e : acc ≡ specs = ground (arith, h) in subst HasUniqueKeys e u
specs_from-HasUniqueKeys ((n, t) ∷ m) acc u h = elim (Bool-cases t.enabled) [
  | inr off ↦ specs_from-HasUniqueKeys m acc u (ground (arith, off, h))
  | inl on ↦ elim (Result-cases (to_spec t n)) [
    | inr (x, e) ↦ absurd (ground (arith, on, e, h))
    | inl (s, e) ↦
        specs_from-HasUniqueKeys m (insert n s acc) (insert-HasUniqueKeys n s acc u)
          (ground (arith, on, e, h))
  ]
]

-- ToSpecs makes a Go map.
pub to_specs-HasUniqueKeys :
    (c : Config) {specs : GoMap Spec} → to_specs c ≡ ok specs → HasUniqueKeys specs
unfolding to_specs
to_specs-HasUniqueKeys c h = specs_from-HasUniqueKeys c.tunnels [] tt h
