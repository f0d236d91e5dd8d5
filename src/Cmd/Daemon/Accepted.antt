-- ===== src/Cmd/Daemon/Accepted.antt =====
-- What `tunneld validate` promises of `tunneld run`: a configuration that the one accepts, the
-- other starts.
use mathlib.Core.List.{Perm}
use mathlib.Core.List.Perm
use mathlib.Core.Path.{subst}
use tunneld.Prelude.{
  String, ◌≡◌, refl, sym, true, false, none, List, [], arith, GoMap, lookup, HasUniqueKeys,
  Option-cases, inl, inr,
}
use tunneld.Errors.{ok, Result-cases}
use tunneld.Config.{Config, load}
use tunneld.Config.Validate
use tunneld.Config.Validate.{to_specs}
use tunneld.Config.Validate.Ports.{AllDistinct, validate_iff, no_owner}
use tunneld.Config.Validate.Specs.{
  converted, keys_of_specs, to_specs-converted, converted-HasUniqueKeys, keys-converted,
  names-converted, lookup-converted-name,
}
use tunneld.Config.Validate.Order.{AllDistinct-keys}
use tunneld.Dependency
use tunneld.Dependency.{Graphs, Planner, new_planner}
use tunneld.Dependency.Laws.{GraphLaws}
use tunneld.Dependency.Plan.{values, plan-perm}
use tunneld.Tunnel.{Spec}
use tunneld.Daemon.Supervisor
use tunneld.Daemon.Supervisor.{Supervisor, new_supervisor, claim_specs, start_specs}
use tunneld.Daemon.Supervisor.Starts.{AllDistinct-claim_specs}
use tunneld.Daemon.Supervisor.Steps.Registry.{registry}
use tunneld.Daemon.Supervisor.Steps.Started.{start_specs-permuted}
use tunneld.Cmd.Daemon.{Files, RunEnv, planner_of, validate, config_of, run}

module _ (G : Graphs) where
  open G use {Graph}

  -- What a validation that ends with 0 has seen.
  validate-accepts :
      (files : Files) (path : String)
      → (validate G files path).code ≡ 0
      → (c : Config) × (order : List Spec) × (load files.read_file files.unmarshal path ≡ ok c)
        × (Validate.validate c ≡ none)
        × ((Dependency.plan G (planner_of G c)).1 ≡ ok order)
  unfolding validate
  validate-accepts files path h = elim (Result-cases (load files.read_file files.unmarshal path)) [
    | inr (e, f) ↦ absurd (ground (arith, f, h))
    | inl (c, f) ↦ elim (Option-cases (Validate.validate c)) [
      | inr (e, g) ↦ absurd (ground (arith, f, g, h))
      | inl g ↦ elim (Result-cases (Dependency.plan G (planner_of G c)).1) [
        | inr (e, k) ↦ absurd (ground (arith, f, g, k, h))
        | inl (order, k) ↦ (c, order, f, g, k)
      ]
    ]
  ]

  module _ (laws : GraphLaws G) where
    -- The plan of a valid configuration has its specs, and their addresses are distinct.
    accepted_order :
        (c : Config) (order : List Spec)
        → HasUniqueKeys c.tunnels
        → Validate.validate c ≡ none
        → (Dependency.plan G (planner_of G c)).1 ≡ ok order
        → Perm order (values (converted c.tunnels)) × (claim_specs G order [] ≡ none)
    unfolding planner_of new_planner
    accepted_order c order u h k =
        let (cs, d) = (validate_iff c).0 h in
        let specs = to_specs-converted c u cs in
        let p : Planner Graph = new_planner G (converted c.tunnels) in
        let planned : (Dependency.plan G p).1 ≡ ok order = ground (arith, k, specs) in
        let perm = plan-perm G laws p order (converted-HasUniqueKeys c.tunnels u) planned in
        let keys = subst AllDistinct (sym (keys-converted c.tunnels cs)) d in
        (
          perm,
          AllDistinct-claim_specs G order []
              (AllDistinct-keys (values (converted c.tunnels)) order (Perm.symm perm) keys)
              (no_owner (keys_of_specs order)),
        )

    run-started :
        (files : Files) (env : RunEnv) (path key_dir tunnels_dir : String) (c : Config)
        (order : List Spec)
        → load files.read_file files.unmarshal path ≡ ok c
        → Validate.validate c ≡ none
        → env.listen ≡ none
        → (Dependency.plan G (planner_of G c)).1 ≡ ok order
        → claim_specs G order [] ≡ none
        → (s : Supervisor Graph) × (s.processes ≡ [])
          × (run G files env path key_dir tunnels_dir false ≡ ok (start_specs G env.starts order s))
    unfolding run config_of Supervisor.run new_supervisor
    run-started files env path key_dir tunnels_dir c order loaded valid listening planned claims =
        let s =
          record (new_supervisor (planner_of G c) c key_dir tunnels_dir env.key_files
            env.tunnel_files) {
              has_ctx = true;
              planner = (Dependency.plan G (planner_of G c)).0;
            } in
        (s, refl, ground (arith, loaded, valid, listening, planned, claims))

    -- Where `validate` ends with 0 and the socket can be listened on, `run` does not fail: it starts
    -- a process for every spec of the configuration, under its name, and for no other name. The
    -- tunnels of a configuration have one entry per name.
    pub validate-run :
        (files : Files) (env : RunEnv) (path key_dir tunnels_dir : String)
        → ((c : Config)
            → load files.read_file files.unmarshal path ≡ ok c
            → HasUniqueKeys c.tunnels)
        → env.listen ≡ none
        → (validate G files path).code ≡ 0
        → (c : Config) × (specs : GoMap Spec) × (s : Supervisor Graph) × (load files.read_file
              files.unmarshal path
            ≡ ok c)
          × (to_specs c ≡ ok specs)
          × (run G files env path key_dir tunnels_dir false ≡ ok s)
          × ((n : String) → registry s n ≡ lookup n specs)
    validate-run files env path key_dir tunnels_dir unique listening h =
        let (c, order, loaded, valid, planned) = validate-accepts files path h in
        let u = unique c loaded in
        let (cs, d) = (validate_iff c).0 valid in
        let (perm, claims) = accepted_order c order u valid planned in
        let (s, none_yet, ran) =
          run-started files env path key_dir tunnels_dir c order loaded valid listening planned
            claims in
        (
          c,
          converted c.tunnels,
          start_specs G env.starts order s,
          loaded,
          to_specs-converted c u cs,
          ran,
          start_specs-permuted G env.starts order (converted c.tunnels) s none_yet perm
              (converted-HasUniqueKeys c.tunnels u) (names-converted c.tunnels)
              (lookup-converted-name c.tunnels),
        )
