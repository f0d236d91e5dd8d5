-- ===== src/Prelude/Lists.antt =====
-- Lists measured by native numbers, predicates over a list, and searches in it.
use Prim.Native.Nat.{ℕ, zero, suc, ◌+◌, ◌<◌}
use tunneld.Prelude.Tests.{eqb, if◌then◌else◌}
use mathlib.Core.Path.{◌≡◌, refl, ap}
use mathlib.Core.Bool.{Bool, true, false}
use mathlib.Core.List.{List, [], ◌∷◌, ◌++◌, map, Memᴰ}
use mathlib.Core.Option.{Option, none, some}
use native.Mathlib.Omega.{arith}

module _ {ℓ} {A : Type ℓ} where
  abbrev pub length : List A → ℕ
  length [] = 0
  length (x ∷ xs) = suc (length xs)

  abbrev pub get_elem? : List A → ℕ → Option A
  get_elem? [] i = none
  get_elem? (x ∷ xs) zero = some x
  get_elem? (x ∷ xs) (suc i) = get_elem? xs i

  -- A write out of bounds changes nothing.
  abbrev pub set : List A → ℕ → A → List A
  set [] i v = []
  set (x ∷ xs) zero v = v ∷ xs
  set (x ∷ xs) (suc i) v = x ∷ set xs i v

  abbrev pub is_empty : List A → Bool
  is_empty [] = true
  is_empty (x ∷ xs) = false

  abbrev pub All {κ} : (A → Type κ) → List A → Type κ
  All P [] = Unit
  All P (x ∷ xs) = P x × All P xs

  pub length-append : (xs ys : List A) → length (xs ++ ys) ≡ length xs + length ys
  length-append [] ys = omega arith
  length-append (x ∷ xs) ys = omega (arith, length-append xs ys)

module _ {ℓ} {A : Type ℓ} where
  -- A write at `i` is read at `i`, and nowhere else.
  pub get_elem?-set :
      (xs : List A) (i j : ℕ) (v : A)
      → i < length xs
      → get_elem? (set xs i v) j ≡ (if eqb i j then some v else get_elem? xs j)
  get_elem?-set [] i j v h = elim h [ ]
  get_elem?-set (x ∷ xs) zero zero v h = ground arith
  get_elem?-set (x ∷ xs) zero (suc j) v h = ground arith
  get_elem?-set (x ∷ xs) (suc i) zero v h = ground arith
  get_elem?-set (x ∷ xs) (suc i) (suc j) v h = ground (arith, get_elem?-set xs i j v)

  -- A write at a place that is there is read back.
  pub get_elem?-set-same :
      (xs : List A) (i : ℕ) (v : A) {w : A}
      → get_elem? xs i ≡ some w
      → get_elem? (set xs i v) i ≡ some v
  get_elem?-set-same [] i v h = absurd (ground (arith, h))
  get_elem?-set-same (x ∷ xs) zero v h = refl
  get_elem?-set-same (x ∷ xs) (suc i) v h = get_elem?-set-same xs i v h

  pub length-set : (xs : List A) (i : ℕ) (v : A) → length (set xs i v) ≡ length xs
  length-set [] i v = refl
  length-set (x ∷ xs) zero v = refl
  length-set (x ∷ xs) (suc i) v = ap suc (length-set xs i v)

module _ {ℓ κ} {A : Type ℓ} (P : A → Type κ) where
  pub All-Mem : {a : A} (xs : List A) → All P xs → Memᴰ a xs → P a
  All-Mem [] h m = elim m [ ]
  All-Mem (x ∷ xs) h (Memᴰ.head e) = rw e h.0
  All-Mem (x ∷ xs) h (Memᴰ.tail m) = All-Mem xs h.1 m

  pub Mem-All : (xs : List A) → ((a : A) → Memᴰ a xs → P a) → All P xs
  Mem-All [] h = tt
  Mem-All (x ∷ xs) h = (h x (Memᴰ.head refl), Mem-All xs (λ a m. h a (Memᴰ.tail m)))

  pub All-append : (xs ys : List A) → All P xs → All P ys → All P (xs ++ ys)
  All-append [] ys hx hy = hy
  All-append (x ∷ xs) ys hx hy = (hx.0, All-append xs ys hx.1 hy)

pub length-map {ℓ κ} :
    {A : Type ℓ} {B : Type κ} (f : A → B) (xs : List A) → length (map f xs) ≡ length xs
length-map f [] = refl
length-map f (x ∷ xs) = ap suc (length-map f xs)

-- A list on which `f` and `g` agree maps to the same list.
pub map-congr {ℓ κ} :
    {A : Type ℓ} {B : Type κ} (f g : A → B) (xs : List A)
    → All (λ x. f x ≡ g x) xs
    → map f xs ≡ map g xs
map-congr f g [] h = refl
map-congr f g (x ∷ xs) h = cc (h.0, map-congr f g xs h.1)
