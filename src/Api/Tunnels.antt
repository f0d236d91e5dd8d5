-- ===== src/Api/Tunnels.antt =====
-- internal/api/grpc_server.go, but for the streams. proto.Equal is a
-- parameter, and so is the text of an error.
pub mod Laws
pub mod Promises
pub mod Reached
use tunneld.Prelude.{
  ℕ, ◌*◌, ◌^◌, String, ℤ, pos, Bool, true, false, not, ◌&&◌, Option, none, some, List, [], ◌∷◌, map,
  GoMap, leb_ℤ, ltb_ℤ, eq_ℤ, is_empty, contains, if◌then◌else◌, ◌==◌,
}
use tunneld.Constants.{default_wait_timeout, second}
use tunneld.Errors.{Err, Result, ok, err, io, wrapped, tunnel_not_found}
use tunneld.Proto.{TunnelSpec}
use tunneld.Dependency.{Graphs}
use tunneld.Tunnel
use tunneld.Tunnel.{Spec, Status, status_text}
use tunneld.Tunnel.Ports.{PortMapping}
use tunneld.Daemon.Process.{Process, StartEnv, Waited}
use tunneld.Daemon.Supervisor.{
  Supervisor, KeyWrite, TunnelInfo, list_tunnels, get_process, save_key,
}
use tunneld.Daemon.Supervisor.Operations.{
  SaveEnv, add_tunnel, remove_tunnel, enable_tunnel, disable_tunnel, start_tunnel, stop_tunnel,
}
use tunneld.Daemon.Supervisor.Waiting.{Poll, wait_healthy}
use tunneld.Config.{Config}
use tunneld.Api.{Code, invalid_argument, internal, not_found, Reply, response, failure}

-- pb.ResolvedForward has the fields of a PortMapping.
pub record ResolvedForward : Type 0 where
  pub local_address : String
  pub configured_port : ℤ
  pub actual_port : ℤ
  pub remote_port : ℤ

forward_of : PortMapping → ResolvedForward
forward_of m = record {
  local_address = m.local_address;
  configured_port = m.configured_port;
  actual_port = m.actual_port;
  remote_port = m.remote_port;
}

-- toProtoResolvedForwards
unfoldable pub resolved_forwards : List PortMapping → List ResolvedForward
unfolding forward_of
resolved_forwards ms = map forward_of ms

-- pb.TunnelStatus; the text of the error is the error, and none for "".
pub record TunnelStatus : Type 0 where
  pub name : String
  pub status : String
  pub spec : TunnelSpec
  pub error : Option Err
  pub forwards : List ResolvedForward

status_of : TunnelInfo → TunnelStatus
status_of info = record {
  name = info.name;
  status = status_text info.status;
  spec = Tunnel.to_proto info.spec;
  error = info.error;
  forwards = resolved_forwards info.port_mappings;
}

-- The loop of Status: a name that is not "" keeps the tunnel of that name.
unfoldable pub select : String → List TunnelInfo → List TunnelStatus
unfolding status_of
select name [] = []
select name (info ∷ infos) =
    if not (name == "") && not (info.name == name)
    then select name infos
    else status_of info ∷ select name infos

module _ {Graph : Type 0} where
  -- Status
  unfoldable pub status : String → Supervisor Graph → Reply (List TunnelStatus)
  status name s =
      let tunnels = select name (list_tunnels s) in
      if not (name == "") && is_empty tunnels
      then failure not_found (tunnel_not_found name)
      else response tunnels

-- The interval of WatchStatus, in milliseconds of req.IntervalMs.
unfoldable pub watch_interval : ℤ → ℤ
watch_interval ms =
    if leb_ℤ ms (pos 0)
    then pos 2000
    else if ltb_ℤ ms (pos 200)
    then pos 200
    else if ltb_ℤ (pos 60000) ms
    then pos 60000
    else ms

abbrev pub code_is_not_found : Code → Bool
code_is_not_found not_found = true
code_is_not_found _ = false

-- `send` of WatchStatus: the frame that goes out, or the error that ends the stream.
frame_of : String → Reply (List TunnelStatus) → Reply (List TunnelStatus)
frame_of name (response ts) = response ts
frame_of name (failure c e) = if code_is_not_found c && name == "" then response [] else failure c e

module _ {Graph : Type 0} where
  unfoldable pub watch_frame : String → Supervisor Graph → Reply (List TunnelStatus)
  unfolding frame_of
  watch_frame name s = frame_of name (status name s)

  -- The loop over req.InlineKeys. `writes` says what the write of each key meets.
  unfoldable pub save_keys :
      (String → KeyWrite) → GoMap (List ℕ) → Supervisor Graph → Supervisor Graph × Option Err
  save_keys writes [] s = (s, none)
  save_keys writes ((name, content) ∷ keys) s =
      let (s', e) = save_key (writes name) name content s in
      elim e [
        | some x ↦ (s', some (wrapped "failed to save inline key" x))
        | none ↦ save_keys writes keys s'
      ]

-- codes.Internal for an error of the supervisor.
abbrev pub internally {ℓ} : {S : Type ℓ} → S × Option Err → S × Reply (Unit {0})
internally (s, none) = (s, response tt)
internally (s, some e) = (s, failure internal e)

-- pb.CreateRequest and pb.UpdateRequest
pub record PutRequest : Type 0 where
  pub spec : Option TunnelSpec
  pub inline_keys : GoMap (List ℕ)
  pub persistent : Bool

-- What the system answers during one call.
pub record Env : Type 0 where
  pub key_writes : String → KeyWrite
  pub save : SaveEnv
  pub start : StartEnv
  pub waited : Waited

module _ (G : Graphs) where
  open G use {Graph}

  -- The common start of Create and Update: the keys are saved before the spec is looked at.
  unfoldable pub receive_spec : Env → PutRequest → Supervisor Graph → Supervisor Graph × Reply Spec
  unfolding save_keys
  receive_spec env req s = elim req.spec [
    | none ↦ (s, failure invalid_argument (io "spec is required"))
    | some p ↦
        let (s', e) = save_keys env.key_writes req.inline_keys s in
        elim e [
          | some x ↦ (s', failure internal x)
          | none ↦ elim (Tunnel.from_proto p) [
            | err x ↦ (s', failure invalid_argument (wrapped "invalid spec" x))
            | ok spec ↦ (s', response spec)
          ]
        ]
  ]

  -- The answer of Create to that of AddTunnel.
  create_reply :
      (Err → String) → Supervisor Graph × Option Err → Supervisor Graph × Reply (Unit {0})
  create_reply text (s, none) = (s, response tt)
  create_reply text (s, some e) =
      (s, (if contains (text e) "already exists" then response tt else failure internal e))

  -- Create
  unfoldable pub create :
      (Err → String) → Env → PutRequest → Supervisor Graph → Supervisor Graph × Reply (Unit {0})
  unfolding receive_spec create_reply
  create text env req s =
      let (s', r) = receive_spec env req s in
      elim r [
        | failure c e ↦ (s', failure c e)
        | response spec ↦ create_reply text (add_tunnel G env.save env.start spec req.persistent s')
      ]

  -- The loop of Update over the tunnels: whether the one of that name has an equal message.
  unfoldable pub unchanged : (TunnelSpec → TunnelSpec → Bool) → Spec → List TunnelInfo → Bool
  unchanged equal spec [] = false
  unchanged equal spec (info ∷ infos) =
      if info.name == Tunnel.name spec
      then equal (Tunnel.to_proto info.spec) (Tunnel.to_proto spec)
      else unchanged equal spec infos

  -- Update
  unfoldable pub update :
      (TunnelSpec → TunnelSpec → Bool)
      → Env
      → PutRequest
      → Supervisor Graph
      → Supervisor Graph × Reply (Unit {0})
  unfolding receive_spec unchanged
  update equal env req s =
      let (s', r) = receive_spec env req s in
      elim r [
        | failure c e ↦ (s', failure c e)
        | response spec ↦
            if unchanged equal spec (list_tunnels s')
            then internally (start_tunnel env.start (Tunnel.name spec) s')
            else let s'' = (remove_tunnel G env.waited (Tunnel.name spec) s').0 in
              internally (add_tunnel G env.save env.start spec req.persistent s'')
      ]

  -- Delete
  unfoldable pub delete : Waited → String → Supervisor Graph → Supervisor Graph × Reply (Unit {0})
  delete w name s = internally (remove_tunnel G w name s)

module _ {Graph : Type 0} where
  -- Start, Stop, Enable and Disable
  unfoldable pub start : StartEnv → String → Supervisor Graph → Supervisor Graph × Reply (Unit {0})
  start env name s = internally (start_tunnel env name s)

  unfoldable pub stop : Waited → String → Supervisor Graph → Supervisor Graph × Reply (Unit {0})
  stop w name s = internally (stop_tunnel w name s)

  unfoldable pub enable :
      (Config → Option Err)
      → StartEnv
      → String
      → Supervisor Graph
      → Supervisor Graph × Reply (Unit {0})
  enable write env name s = internally (enable_tunnel write env name s)

  unfoldable pub disable :
      (Config → Option Err)
      → Waited
      → String
      → Supervisor Graph
      → Supervisor Graph × Reply (Unit {0})
  disable write w name s = internally (disable_tunnel write w name s)

  forwards_now : Supervisor Graph → String → List ResolvedForward
  unfolding resolved_forwards
  forwards_now s name = elim (get_process s name) [
    | err e ↦ []
    | ok p ↦ resolved_forwards p.port_mappings
  ]

  -- Wait: `s` is the state at the call, and `after` that at its end. none: it still waits.
  unfoldable pub wait :
      Supervisor Graph
      → Supervisor Graph
      → String
      → List Poll
      → Option (Reply (Option Status × List ResolvedForward))
  unfolding forwards_now
  wait s after name polls = elim (wait_healthy s name polls) [
    | none ↦ none
    | some (status, some e) ↦ some (failure internal e)
    | some (status, none) ↦ some (response (status, forwards_now after name))
  ]
