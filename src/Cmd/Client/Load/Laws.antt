-- ===== src/Cmd/Client/Load/Laws.antt =====
-- What a `tunnelctl load` that succeeds has done.
use mathlib.Core.Path.{subst}
use mathlib.Core.List.{Perm}
use tunneld.Prelude.{
  All, Mem-All, ℕ, String, ◌≡◌, refl, Bool, false, none, some, List, [], ◌∷◌, GoMap, arith, lookup,
  Bool-cases, Option-cases, inl, inr,
}
use tunneld.Errors.{ok, Result-cases}
use tunneld.Proto.{TunnelSpec}
use tunneld.Config.{Config, load}
use tunneld.Config.Validate.{to_specs}
use tunneld.Config.Validate.Keys.{to_specs-HasUniqueKeys}
use tunneld.Dependency
use tunneld.Dependency.{Graphs, new_planner}
use tunneld.Dependency.Laws.{GraphLaws, Before}
use tunneld.Dependency.Plan.{values, plan_ordered, plan-perm}
use tunneld.Tunnel
use tunneld.Tunnel.{Spec}
use tunneld.Cmd.Client.{Server}
use tunneld.Cmd.Client.Slurp.{LocalFiles, slurp_keys}
use tunneld.Cmd.Client.Load.{ClientFiles, request, load_one, load_all, load_cmd}

-- Every dependency of a spec is a spec that stands before it.
abbrev pub IsOrdered : GoMap Spec → List Spec → Type 0
IsOrdered specs order =
    All
      (λ (b : String × Spec).
        All (λ (d : String). (t : Spec) × (lookup d specs ≡ some t) × Before t b.1 order)
          (Tunnel.dependencies b.1))
      specs

module _ {W : Type 0} (S : Server W) where
  -- The server answered Create and Start without an error for one spec after the other.
  abbrev pub AllLoaded : LocalFiles → Bool → List Spec → W → W → Type 0
  AllLoaded local persistent [] w w' = w' ≡ w
  AllLoaded local persistent (spec ∷ specs) w w' =
      (p : TunnelSpec) × (keys : GoMap (List ℕ)) × (w₁ : W) × (w₂ : W) × (slurp_keys local
          (Tunnel.to_proto spec)
        ≡ ok (p, keys))
      × (S.create (request p keys persistent) w ≡ (w₁, none))
      × (S.start (Tunnel.name spec) w₁ ≡ (w₂, none))
      × AllLoaded local persistent specs w₂ w'

  load_all-AllLoaded :
      (local : LocalFiles) (persistent : Bool) (specs : List Spec) (w : W)
      → (load_all S local persistent specs w).2 ≡ false
      → AllLoaded local persistent specs w (load_all S local persistent specs w).0
  unfolding load_all load_one
  load_all-AllLoaded local persistent [] w h = refl
  load_all-AllLoaded local persistent (spec ∷ specs) w h =
      elim (Result-cases (slurp_keys local (Tunnel.to_proto spec))) [
        | inr (x, e) ↦ absurd (ground (arith, e, h))
        | inl ((p, keys), e) ↦
            let (w₁, e₁) = S.create (request p keys persistent) w in
            elim (Option-cases e₁) [
              | inr (x, f) ↦ absurd (ground (arith, e, f, h))
              | inl f ↦
                  let (w₂, e₂) = S.start (Tunnel.name spec) w₁ in
                  elim (Option-cases e₂) [
                    | inr (x, g) ↦ absurd (ground (arith, e, f, g, h))
                    | inl g ↦
                        let rest =
                          load_all-AllLoaded local persistent specs w₂
                            (ground (arith, e, f, g, h)) in
                        let end : (load_all S local persistent specs w₂).0
                            ≡ (load_all S local persistent (spec ∷ specs) w).0 =
                          ground (arith, e, f, g) in
                        (
                          p,
                          keys,
                          w₁,
                          w₂,
                          e,
                          ground (arith, f),
                          ground (arith, g),
                          subst (AllLoaded local persistent specs w₂) end rest,
                        )
                  ]
            ]
      ]

  -- For graphs with the documented laws: a load that ends with 0 has read the file and converted
  -- its tunnels; Plan gave it every one of the specs once, a dependency before what depends on it;
  -- and for each spec in that order the server answered Create, with the keys that slurpKeys read,
  -- and then Start without an error.
  pub load_cmd-AllLoaded :
      (G : Graphs) (laws : GraphLaws G) (files : ClientFiles) (persistent : Bool) (path : String)
      (w : W)
      → (load_cmd S G files persistent path w).1.code ≡ 0
      → (c : Config) × (specs : GoMap Spec) × (order : List Spec) × (load files.read_file
            files.unmarshal path
          ≡ ok c)
        × (to_specs c ≡ ok specs)
        × ((Dependency.plan G (new_planner G specs)).1 ≡ ok order)
        × Perm order (values specs)
        × AllLoaded files.local persistent order w (load_cmd S G files persistent path w).0
        × IsOrdered specs order
  unfolding load_cmd new_planner
  load_cmd-AllLoaded G laws files persistent path w h = elim (Option-cases S.dial) [
    | inr (x, e) ↦ absurd (ground (arith, e, h))
    | inl e ↦ elim (Result-cases (load files.read_file files.unmarshal path)) [
      | inr (x, f) ↦ absurd (ground (arith, e, f, h))
      | inl (c, f) ↦ elim (Result-cases (to_specs c)) [
        | inr (x, g) ↦ absurd (ground (arith, e, f, g, h))
        | inl (specs, g) ↦
            let p = new_planner G specs in
            elim (Result-cases (Dependency.plan G p).1) [
              | inr (x, k) ↦ absurd (ground (arith, e, f, g, k, h))
              | inl (order, k) ↦
                  let quiet : (load_all S files.local persistent order w).2 ≡ false = ground (
                    arith,
                    e,
                    f,
                    g,
                    k,
                    h,
                    Bool-cases (load_all S files.local persistent order w).2,
                  ) in
                  let end : (load_all S files.local persistent order w).0
                      ≡ (load_cmd S G files persistent path w).0 =
                    ground (arith, e, f, g, k) in
                  (
                    c,
                    specs,
                    order,
                    f,
                    g,
                    k,
                    plan-perm G laws p order (to_specs-HasUniqueKeys c g) k,
                    subst (AllLoaded files.local persistent order w) end
                        (load_all-AllLoaded files.local persistent order w quiet),
                    Mem-All
                        (λ (b : String × Spec).
                          All
                            (λ (d : String).
                              (t : Spec) × (lookup d specs ≡ some t) × Before t b.1 order)
                            (Tunnel.dependencies b.1))
                        specs
                        (λ b m.
                          Mem-All
                            (λ (d : String).
                              (t : Spec) × (lookup d specs ≡ some t) × Before t b.1 order)
                            (Tunnel.dependencies b.1)
                            (λ d dep.
                              plan_ordered G laws p order (to_specs-HasUniqueKeys c g) k b.0 b.1 d m
                                dep)),
                  )
            ]
      ]
    ]
  ]
