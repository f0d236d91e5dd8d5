-- ===== src/Daemon/Supervisor/Operations.antt =====
-- The operations of internal/daemon/supervisor.go that the gRPC servers call.
pub mod Adding
pub mod Conflicts
pub mod Removing
pub mod Starting
use tunneld.Prelude.{
  ℕ, String, Bool, true, false, not, ◌&&◌, Option, none, some, List, [], ◌∷◌, GoMap, lookup, insert,
  delete, length, if◌then◌else◌, ◌==◌,
}
use tunneld.Errors.{
  Err, Result, ok, err, nil_pointer, wrapped, already_exists, tunnel_not_found,
  invalid_dependencies, update_config,
}
use tunneld.Config.{Config, TunnelConfig, set_enabled}
use tunneld.Config.Convert
use tunneld.Dependency.{Graphs, Planner, plan, add_spec, remove_spec}
use tunneld.Tunnel
use tunneld.Tunnel.{Spec, Status, starting, running}
use tunneld.Daemon.Process
use tunneld.Daemon.Process.{Process, new_process, StartEnv, Waited, is_process_alive}
use tunneld.Daemon.Supervisor.{
  Supervisor, deref, store, find, start_and_notify, check_port_conflicts, register,
}

-- What the file system answers when a tunnel is saved: os.MkdirAll, yaml.Marshal, os.WriteFile.
pub record SaveEnv : Type 0 where
  pub make_dir : Option Err
  pub marshal : TunnelConfig → Option Err
  pub write : Option Err

module _ {Graph : Type 0} where
  -- The file of a tunnel: MarshalTunnel converts the message first, and panics as FromProto does.
  save_tunnel : SaveEnv → Spec → Supervisor Graph → Supervisor Graph × Option Err
  save_tunnel env spec s = elim env.make_dir [
    | some e ↦ (s, some (wrapped "failed to create tunnels directory" e))
    | none ↦ elim (Convert.from_proto (Tunnel.to_proto spec)) [
      | none ↦ (s, some nil_pointer)
      | some t ↦ elim (env.marshal t) [
        | some e ↦ (s, some (wrapped "failed to marshal tunnel" e))
        | none ↦ elim env.write [
          | some e ↦ (s, some (wrapped "failed to save tunnel config" e))
          | none ↦ (record s { tunnel_files = insert (Tunnel.name spec) t s.tunnel_files }, none)
        ]
      ]
    ]
  ]

  -- if persistent && s.tunnelsDir != ""
  unfoldable pub persist : SaveEnv → Bool → Spec → Supervisor Graph → Supervisor Graph × Option Err
  unfolding save_tunnel
  persist env persistent spec s =
      if persistent && not (s.tunnels_dir == "") then save_tunnel env spec s else (s, none)

module _ (G : Graphs) where
  open G use {Graph}

  -- AddSpec and Plan, and RemoveSpec if there is no plan.
  unfoldable pub admit : Spec → Supervisor Graph → Supervisor Graph × Option Err
  admit spec s =
      let (planner, planned) = plan G (add_spec G spec s.planner) in
      elim planned [
        | err e ↦ (
          record s { planner = remove_spec G (Tunnel.name spec) planner },
          some (invalid_dependencies e),
        )
        | ok order ↦ (record s { planner = planner }, none)
      ]

  -- The part of AddTunnel that is behind the checks.
  pub enrol : StartEnv → Spec → Supervisor Graph → Supervisor Graph × Option Err
  unfolding admit register
  enrol env spec s =
      let (s', e) = admit spec s in
      elim e [
        | some x ↦ (s', some x)
        | none ↦
            let s'' = register spec s' in
            if s''.has_ctx
            then start_and_notify env (length s'.heap) (new_process spec s'.key_dir) s''
            else (s'', none)
      ]

  -- AddTunnel
  unfoldable pub add_tunnel :
      SaveEnv → StartEnv → Spec → Bool → Supervisor Graph → Supervisor Graph × Option Err
  unfolding persist enrol
  add_tunnel save env spec persistent s = elim (lookup (Tunnel.name spec) s.processes) [
    | some i ↦ (s, some (already_exists (Tunnel.name spec)))
    | none ↦ elim (check_port_conflicts s spec) [
      | some e ↦ (s, some e)
      | none ↦
          let (s₁, e₁) = persist save persistent spec s in
          elim e₁ [ some x ↦ (s₁, some x) | none ↦ enrol env spec s₁ ]
    ]
  ]

  -- RemoveTunnel; the answer of Stop is dropped.
  unfoldable pub remove_tunnel : Waited → String → Supervisor Graph → Supervisor Graph × Option Err
  remove_tunnel w name s = elim (find s name) [
    | none ↦ (s, some (tunnel_not_found name))
    | some (i, p) ↦
        let s' = store i (Process.stop w p).0 s in
        (
          record s' {
            processes = delete name s'.processes;
            planner = remove_spec G name s'.planner;
          },
          none,
        )
  ]

-- status == tunnel.StatusRunning || status == tunnel.StatusStarting
abbrev pub is_up : Status → Bool
is_up Status.running = true
is_up Status.starting = true
is_up _ = false

module _ {Graph : Type 0} where
  -- EnableTunnel; `write` saves the configuration.
  unfoldable pub enable_tunnel :
      (Config → Option Err) → StartEnv → String → Supervisor Graph → Supervisor Graph × Option Err
  enable_tunnel write env name s = elim (find s name) [
    | none ↦ (s, some (tunnel_not_found name))
    | some (i, p) ↦
        let (config, e) = set_enabled write name true s.config in
        let s' = record s { config = config } in
        elim e [ some x ↦ (s', some (update_config x)) | none ↦ start_and_notify env i p s' ]
  ]

  -- DisableTunnel
  unfoldable pub disable_tunnel :
      (Config → Option Err) → Waited → String → Supervisor Graph → Supervisor Graph × Option Err
  disable_tunnel write w name s = elim (find s name) [
    | none ↦ (s, some (tunnel_not_found name))
    | some (i, p) ↦
        let (config, e) = set_enabled write name false s.config in
        let s' = record s { config = config } in
        elim e [
          | some x ↦ (s', some (update_config x))
          | none ↦ let (p', x) = Process.stop w p in (store i p' s', x)
        ]
  ]

  -- StartTunnel
  unfoldable pub start_tunnel : StartEnv → String → Supervisor Graph → Supervisor Graph × Option Err
  start_tunnel env name s = elim (find s name) [
    | none ↦ (s, some (tunnel_not_found name))
    | some (i, p) ↦
        if is_up p.status && is_process_alive p then (s, none) else start_and_notify env i p s
  ]

  -- StopTunnel
  unfoldable pub stop_tunnel : Waited → String → Supervisor Graph → Supervisor Graph × Option Err
  stop_tunnel w name s = elim (find s name) [
    | none ↦ (s, some (tunnel_not_found name))
    | some (i, p) ↦ let (p', x) = Process.stop w p in (store i p' s, x)
  ]
