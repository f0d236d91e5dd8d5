-- ===== src/Cmd/Daemon.antt =====
-- cmd/tunneld/cmd: plan.go, validate.go and run.go. os.ReadFile and yaml.Unmarshal are parameters.
pub mod Accepted
use tunneld.Prelude.{
  ℕ, suc, String, Bool, true, false, not, Option, none, some, List, [], ◌∷◌, ◌++◌, GoMap, is_empty,
  if◌then◌else◌,
}
use tunneld.Errors.{Err, Result, ok, err, ◌>>=◌, wrapped, map_err}
use tunneld.Config.{Config, TunnelConfig, load}
use tunneld.Config.Validate
use tunneld.Config.Validate.{to_specs}
use tunneld.Dependency
use tunneld.Dependency.{Graphs, Planner, new_planner}
use tunneld.Tunnel
use tunneld.Tunnel.{Spec}
use tunneld.Daemon.Process.{StartEnv}
use tunneld.Daemon.Supervisor
use tunneld.Daemon.Supervisor.{Supervisor, new_supervisor}
use tunneld.Cmd.{Line, text, entry, depends_on, Ended, exit_with, done}

-- The loop over the order; `i` is the number of the first.
plan_lines : ℕ → List Spec → List Line
plan_lines i [] = []
plan_lines i (spec ∷ specs) =
    let rest = plan_lines (suc i) specs in
    entry i (Tunnel.name spec) (Tunnel.type_name spec)
    ∷ (if is_empty (Tunnel.dependencies spec)
        then rest
        else depends_on (Tunnel.dependencies spec) ∷ rest)

-- specs, _ := cfg.ToSpecs(): an error leaves a nil map.
abbrev pub specs_or_nil : Result (GoMap Spec) → GoMap Spec
specs_or_nil (ok specs) = specs
specs_or_nil (err e) = []

-- What the commands read: os.ReadFile, yaml.Unmarshal and os.IsNotExist.
pub record Files : Type 0 where
  pub read_file : String → Result String
  pub unmarshal : String → Result (GoMap TunnelConfig)
  pub is_not_exist : Err → Bool

-- What run meets: the files in the key and tunnel directories, net.Listen, and each Start.
pub record RunEnv : Type 0 where
  pub key_files : GoMap (List ℕ)
  pub tunnel_files : GoMap TunnelConfig
  pub listen : Option Err
  pub starts : String → StartEnv

module _ (G : Graphs) where
  open G use {Graph}

  planner_of : Config → Planner Graph
  planner_of c = new_planner G (specs_or_nil (to_specs c))

  -- plan
  unfoldable pub plan : Files → String → Ended
  unfolding plan_lines planner_of
  plan files path = elim (load files.read_file files.unmarshal path) [
    | err e ↦ exit_with "Error loading config" e
    | ok c ↦ elim (Dependency.plan G (planner_of c)).1 [
      | err e ↦ exit_with "Error planning" e
      | ok order ↦ done (text "Startup order:" ∷ plan_lines 1 order)
    ]
  ]

  -- validate
  unfoldable pub validate : Files → String → Ended
  unfolding planner_of
  validate files path = elim (load files.read_file files.unmarshal path) [
    | err e ↦ exit_with "Error loading config" e
    | ok c ↦ elim (Validate.validate c) [
      | some e ↦ exit_with "Validation failed" e
      | none ↦ elim (Dependency.plan G (planner_of c)).1 [
        | err e ↦ exit_with "Dependency validation failed" e
        | ok order ↦ done (text "Config is valid" ∷ [])
      ]
    ]
  ]

  abbrev no_tunnels : Config
  no_tunnels = record { tunnels = []; file_path = "" }

  -- The choice of the configuration.
  config_of : Files → Bool → String → Result Config
  config_of files true path = ok no_tunnels
  config_of files false path = elim (load files.read_file files.unmarshal path) [
    | ok c ↦ ok c
    | err e ↦ if files.is_not_exist e then ok no_tunnels else err (wrapped "Error loading config" e)
  ]

  -- if err != nil { log.Fatalf(…) }
  abbrev fatal {ℓ} : {A : Type ℓ} → String → Option Err → A → Result A
  fatal message none x = ok x
  fatal message (some e) x = err (wrapped message e)

  -- run, up to the wait of Supervisor.Run for the end of the context. An error is log.Fatalf.
  unfoldable pub run : Files → RunEnv → String → String → String → Bool → Result (Supervisor Graph)
  unfolding planner_of config_of
  run files env path key_dir tunnels_dir no_config = do
    read ← config_of files no_config path
    c ← fatal "Validation failed" (Validate.validate read) read
    let s = new_supervisor (planner_of c) c key_dir tunnels_dir env.key_files env.tunnel_files
    listening ← fatal "Failed to listen" env.listen s
    let (s', e) = Supervisor.run G env.starts listening
    fatal "Supervisor failed" e s'
