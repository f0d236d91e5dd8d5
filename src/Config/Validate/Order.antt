-- ===== src/Config/Validate/Order.antt =====
-- Distinct addresses are distinct in any order of the specs.
use mathlib.Core.List.{Perm, Permᴰ}
use mathlib.Core.List.Permᴰ
use mathlib.Core.Logic.{∥∥₁_elim}
use tunneld.Prelude.{String, ◌≡◌, refl, ◌∙◌, List, [], ◌∷◌, ◌++◌, arith, elem, eq_iff}
use mathlib.Core.List.{append_assoc}
use mathlib.Core.Path.{subst}
use tunneld.Config.Validate.Ports.{AllDistinct}
use tunneld.Config.Validate.Specs.{keys_of_specs}
use tunneld.Tunnel
use tunneld.Tunnel.{Spec}
use tunneld.Tunnel.Ports.{local_port_keys}

pub AllDistinct-IsProp : (ks : List String) → IsProp (AllDistinct ks)
AllDistinct-IsProp [] = hlevel
AllDistinct-IsProp (k ∷ ks) = hlevel (AllDistinct-IsProp ks)

pub elem-Perm : (k : String) {xs ys : List String} → Permᴰ xs ys → elem k xs ≡ elem k ys
unfolding elem
elem-Perm k Permᴰ.nil = refl
elem-Perm k (Permᴰ.cons e d) = ground (arith, e, elem-Perm k d)
elem-Perm k (Permᴰ.swap e₁ e₂) = ground (arith, e₁, e₂)
elem-Perm k (Permᴰ.trans d₁ d₂) = elem-Perm k d₁ ∙ elem-Perm k d₂

pub AllDistinct-Perm : {xs ys : List String} → Permᴰ xs ys → AllDistinct xs → AllDistinct ys
unfolding elem
AllDistinct-Perm Permᴰ.nil h = h
AllDistinct-Perm (Permᴰ.cons {a} {b} e d) (f, h) =
    (ground (arith, e, f, elem-Perm a d), AllDistinct-Perm d h)
AllDistinct-Perm (Permᴰ.swap {a} {b} {a'} {b'} {l} e₁ e₂) (f, (g, h)) =
    (ground (arith, e₁, e₂, f, eq_iff a b, eq_iff b a), (ground (arith, e₂, e₁, f, g), h))
AllDistinct-Perm (Permᴰ.trans d₁ d₂) h = AllDistinct-Perm d₂ (AllDistinct-Perm d₁ h)

swapped : (us vs ws : List String) → Permᴰ (us ++ (vs ++ ws)) (vs ++ (us ++ ws))
swapped us vs ws =
    subst (λ l. Permᴰ l (vs ++ (us ++ ws))) (append_assoc us vs ws)
      (subst (Permᴰ (us ++ vs ++ ws)) (append_assoc vs us ws)
        (Permᴰ.append_right ws (Permᴰ.append_comm us vs)))

keys-Perm : {xs ys : List Spec} → Permᴰ xs ys → Permᴰ (keys_of_specs xs) (keys_of_specs ys)
keys-Perm Permᴰ.nil = Permᴰ.nil
keys-Perm (Permᴰ.cons {a} {b} {l₁} {l₂} e d) =
    subst
      (λ x.
        Permᴰ (local_port_keys (Tunnel.to_proto a) ++ keys_of_specs l₁)
          (local_port_keys (Tunnel.to_proto x) ++ keys_of_specs l₂))
      e (Permᴰ.append_left (local_port_keys (Tunnel.to_proto a)) (keys-Perm d))
keys-Perm (Permᴰ.swap {a} {b} {a'} {b'} {l} e₁ e₂) =
    subst (λ x. Permᴰ (keys_of_specs (a ∷ b ∷ l)) (keys_of_specs (x ∷ b' ∷ l))) e₂
      (subst (λ x. Permᴰ (keys_of_specs (a ∷ b ∷ l)) (keys_of_specs (b ∷ x ∷ l))) e₁
        (swapped (local_port_keys (Tunnel.to_proto a)) (local_port_keys (Tunnel.to_proto b))
          (keys_of_specs l)))
keys-Perm (Permᴰ.trans d₁ d₂) = Permᴰ.trans (keys-Perm d₁) (keys-Perm d₂)

pub AllDistinct-keys :
    (xs ys : List Spec)
    → Perm xs ys
    → AllDistinct (keys_of_specs xs)
    → AllDistinct (keys_of_specs ys)
AllDistinct-keys xs ys p h =
    ∥∥₁_elim p (AllDistinct-IsProp (keys_of_specs ys)) (λ d. AllDistinct-Perm (keys-Perm d) h)
