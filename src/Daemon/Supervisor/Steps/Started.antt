-- ===== src/Daemon/Supervisor/Steps/Started.antt =====
-- The registry that Run leaves: every spec of the plan under its name.
use mathlib.Core.List.{Perm}
use mathlib.Core.List.Perm
use mathlib.Core.List.Permᴰ
use mathlib.Core.List.Memᴰ
use mathlib.Core.Logic.{∥∥₁_elim}
use mathlib.Core.Path.{subst}
use tunneld.Prelude.{
  HasUniqueKeys, GoMap, lookup, Option-cases, ap, String, ◌≡◌, refl, false, some, List, [], ◌∷◌,
  map, arith, elem, eq_iff, inl, inr, Memᴰ, length, sym, ◌∙◌,
}
use tunneld.Config.Validate.Ports.{AllDistinct}
use tunneld.Config.Validate.Order.{AllDistinct-IsProp, AllDistinct-Perm, elem-Perm}
use tunneld.Config.Validate.Keys.{keys, keys-AllDistinct, elem-keys, lookup-value}
use tunneld.Dependency.Plan.{values}
use tunneld.Tunnel.Wraps.{Spec-IsSet}
use tunneld.Daemon.Supervisor.{find}
use tunneld.Dependency.{Graphs}
use tunneld.Tunnel
use tunneld.Tunnel.{Spec}
use tunneld.Daemon.Process.{StartEnv, new_process}
use tunneld.Daemon.Supervisor.{Supervisor, register, start_and_notify, start_specs}
use tunneld.Daemon.Supervisor.Invariant.{HasPointers, Added-HasPointers}
use tunneld.Daemon.Supervisor.Starts.{register-Added}
use tunneld.Daemon.Supervisor.Steps.Registry.{registry, Added-registry}

abbrev pub names : List Spec → List String
names specs = map (λ s. Tunnel.name s) specs

module _ (G : Graphs) where
  open G use {Graph}

  abbrev after_first : (String → StartEnv) → Spec → Supervisor Graph → Supervisor Graph
  after_first envs spec s =
      (start_and_notify (envs (Tunnel.name spec)) (length s.heap) (new_process spec s.key_dir)
        (register spec s)).0

  -- Names that the plan does not have keep what they had.
  pub start_specs-others :
      (envs : String → StartEnv) (specs : List Spec) (s : Supervisor Graph) (n : String)
      → HasPointers s
      → elem n (names specs) ≡ false
      → registry (start_specs G envs specs s) n ≡ registry s n
  unfolding start_specs elem
  start_specs-others envs [] s n v h = refl
  start_specs-others envs (spec ∷ specs) s n v h =
      let s' = after_first envs spec s in
      let a = register-Added (envs (Tunnel.name spec)) spec s in
      let v' = Added-HasPointers spec s s' a v in
      let first = Added-registry spec s s' a v n in
      let rest = start_specs-others envs specs s' n v' (ground (arith, h)) in
      ground (arith, h, first, rest, eq_iff (Tunnel.name spec) n, eq_iff n (Tunnel.name spec))

  pub start_specs-registry :
      (envs : String → StartEnv) (specs : List Spec) (s : Supervisor Graph) (spec : Spec)
      → HasPointers s
      → AllDistinct (names specs)
      → Memᴰ spec specs
      → registry (start_specs G envs specs s) (Tunnel.name spec) ≡ some spec
  unfolding start_specs
  start_specs-registry envs [] s spec v d m = elim m [ ]
  start_specs-registry envs (x ∷ specs) s spec v (f, d) m =
      let s' = after_first envs x s in
      let a = register-Added (envs (Tunnel.name x)) x s in
      let v' = Added-HasPointers x s s' a v in
      elim (Memᴰ.cases_cons m) [
        | inr m' ↦ start_specs-registry envs specs s' spec v' d m'
        | inl e ↦
            let first = Added-registry x s s' a v (Tunnel.name x) in
            let rest = start_specs-others envs specs s' (Tunnel.name x) v' f in
            ground (arith, e, first, rest, eq_iff (Tunnel.name x) (Tunnel.name x))
      ]

  -- After the start of all specs of a permutation of a map, in which each stands under its own
  -- name, the registry is the map.
  pub start_specs-permuted :
      (envs : String → StartEnv) (order : List Spec) (m : GoMap Spec) (s : Supervisor Graph)
      → s.processes ≡ []
      → Perm order (values m)
      → HasUniqueKeys m
      → names (values m) ≡ keys m
      → ((n : String) (spec : Spec) → lookup n m ≡ some spec → Tunnel.name spec ≡ n)
      → (n : String) → registry (start_specs G envs order s) n ≡ lookup n m
  unfolding registry find lookup
  start_specs-permuted envs order m s none_yet perm u named own n =
      let v : HasPointers s = λ k i h. absurd (ground (arith, h, none_yet)) in
      let sorted = Perm.map (λ spec. Tunnel.name spec) perm in
      let d : AllDistinct (names order) = ∥∥₁_elim sorted (AllDistinct-IsProp (names order)) (λ x.
        AllDistinct-Perm (Permᴰ.symm x) (subst AllDistinct (sym named) (keys-AllDistinct m u))) in
      elim (Option-cases (lookup n m)) [
        | inl e ↦
            let unique : IsProp (elem n (names order) ≡ false) = hlevel in
            let out : elem n (names order) ≡ false =
              ∥∥₁_elim sorted unique (λ x. elem-Perm n x ∙ ap (elem n) named ∙ elem-keys m n e) in
            ground (arith, e, start_specs-others envs order s n v out, none_yet)
        | inr (spec, e) ↦
            let here = Memᴰ.map (λ b. b.1) (lookup-value m n spec e) in
            let found : registry (start_specs G envs order s) (Tunnel.name spec) ≡ some spec =
              ∥∥₁_elim ((Perm.mem_iff perm).1 ∣ here ∣₁) (hlevel Spec-IsSet)
                (λ x. start_specs-registry envs order s spec v d x) in
            ground (arith, e, found, own n spec e)
      ]
