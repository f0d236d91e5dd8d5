-- ===== src/Daemon/Supervisor.antt =====
-- internal/daemon/supervisor.go: the state, and what the operations share. A `*Process` is an
-- index into the heap, since the map and the goroutines hold the same process. The mutex makes
-- each operation one step. Monitors, the goroutines of startAndNotify, act in steps of their own.
pub mod Invariant
pub mod Operations
pub mod Quiet
pub mod Starts
pub mod Steps
pub mod Failure
pub mod Waiting
use tunneld.Prelude.{
  ℕ, String, ℤ, Bool, true, false, Option, none, some, List, [], ◌∷◌, ◌++◌, GoMap, lookup, insert,
  delete, get_elem?, set, length, if◌then◌else◌, ◌==◌,
}
use tunneld.Errors.{Err, Result, ok, err, ◌>>=◌, nil_pointer, tunnel_not_found, port_conflict}
use tunneld.Config.{Config, TunnelConfig}
use tunneld.Config.Validate.{claim}
use tunneld.Dependency.{Graphs, Planner, plan}
use tunneld.Tunnel
use tunneld.Tunnel.{Spec, Status}
use tunneld.Tunnel.Ports.{PortMapping, local_port_keys}
use tunneld.Daemon.Process
use tunneld.Daemon.Process.{Process, new_process, StartEnv, Waited}

-- `key_files` are the files by their cleaned path, those in keyDir among them, with their bytes, and
-- `tunnel_files` those in tunnelsDir by the name of the tunnel. `has_ctx` says whether Run has set the context. `monitors` are the processes that a
-- goroutine watches.
pub record Supervisor (Graph : Type 0) : Type 0 where
  pub planner : Planner Graph
  pub heap : List Process
  pub processes : GoMap ℕ
  pub config : Config
  pub key_dir : String
  pub tunnels_dir : String
  pub has_ctx : Bool
  pub monitors : List ℕ
  pub key_files : GoMap (List ℕ)
  pub tunnel_files : GoMap TunnelConfig

-- What the write of a key meets: filepath.Join, os.MkdirAll and os.WriteFile, `none` for success.
pub record KeyWrite : Type 0 where
  pub join : String → String → String
  pub made : Option Err
  pub written : Option Err

-- The loop of checkPortConflicts over newKeys.
unfoldable pub clash : String → List String → Bool
clash key [] = false
clash key (nk ∷ nks) = if key == nk then true else clash key nks

-- The loop over the keys of one process.
unfoldable pub clashing_key : List String → List String → Option String
unfolding clash
clashing_key [] new_keys = none
clashing_key (key ∷ keys) new_keys =
    if clash key new_keys then some key else clashing_key keys new_keys

module _ {Graph : Type 0} where
  -- NewSupervisor, over the files that are there.
  unfoldable pub new_supervisor :
      Planner Graph
      → Config
      → String
      → String
      → GoMap (List ℕ)
      → GoMap TunnelConfig
      → Supervisor Graph
  new_supervisor planner config key_dir tunnels_dir keys tunnels = record {
    planner = planner;
    heap = [];
    processes = [];
    config = config;
    key_dir = key_dir;
    tunnels_dir = tunnels_dir;
    has_ctx = false;
    monitors = [];
    key_files = keys;
    tunnel_files = tunnels;
  }

  -- The process that a pointer leads to.
  abbrev pub deref : Supervisor Graph → ℕ → Option Process
  deref s i = get_elem? s.heap i

  -- A write through a pointer.
  abbrev pub store : ℕ → Process → Supervisor Graph → Supervisor Graph
  store i p s = record s { heap = set s.heap i p }

  -- p, ok := s.processes[name], and the process. A pointer is never nil here.
  unfoldable pub find : Supervisor Graph → String → Option (ℕ × Process)
  find s name = elim (lookup name s.processes) [
    | none ↦ none
    | some i ↦ elim (deref s i) [ none ↦ none | some p ↦ some (i, p) ]
  ]

  -- GetProcess
  unfoldable pub get_process : Supervisor Graph → String → Result Process
  unfolding find
  get_process s name = elim (find s name) [
    | none ↦ err (tunnel_not_found name)
    | some (i, p) ↦ ok p
  ]

  -- The synchronous part of startAndNotify: Start, and the goroutine that watches the process.
  unfoldable pub start_and_notify :
      StartEnv → ℕ → Process → Supervisor Graph → Supervisor Graph × Option Err
  start_and_notify env i p s =
      let (p', e) = Process.start env p in
      elim e [
        | some x ↦ (store i p' s, some x)
        | none ↦ (record (store i p' s) { monitors = i ∷ s.monitors }, none)
      ]

  -- SaveKey
  unfoldable pub save_key :
      KeyWrite → String → List ℕ → Supervisor Graph → Supervisor Graph × Option Err
  save_key write name content s = elim write.made [
    | some e ↦ (s, some e)
    | none ↦ elim write.written [
      | some e ↦ (s, some e)
      | none ↦
          (record s { key_files = insert (write.join s.key_dir name) content s.key_files }, none)
    ]
  ]

  pub conflict_in : Supervisor Graph → Spec → List String → GoMap ℕ → Option Err
  unfolding clashing_key
  conflict_in s spec new_keys [] = none
  conflict_in s spec new_keys ((name, i) ∷ rest) = elim (deref s i) [
    | none ↦ some nil_pointer
    | some p ↦ elim (clashing_key (local_port_keys (Tunnel.to_proto p.spec)) new_keys) [
      | some key ↦ some (port_conflict (Tunnel.name spec) (Tunnel.name p.spec) key)
      | none ↦ conflict_in s spec new_keys rest
    ]
  ]

  -- checkPortConflicts
  unfoldable pub check_port_conflicts : Supervisor Graph → Spec → Option Err
  unfolding conflict_in
  check_port_conflicts s spec =
      conflict_in s spec (local_port_keys (Tunnel.to_proto spec)) s.processes

  -- A new process for the spec, at a pointer of its own.
  unfoldable pub register : Spec → Supervisor Graph → Supervisor Graph
  unfolding new_process
  register spec s = record s {
    heap = s.heap ++ new_process spec s.key_dir ∷ [];
    processes = insert (Tunnel.name spec) (length s.heap) s.processes;
  }

-- TunnelInfo
pub record TunnelInfo : Type 0 where
  pub name : String
  pub status : Status
  pub error : Option Err
  pub spec : Spec
  pub port_mappings : List PortMapping

unfoldable pub info_of : String → Process → TunnelInfo
info_of name p = record {
  name = name;
  status = p.status;
  error = p.last_error;
  spec = p.spec;
  port_mappings = p.port_mappings;
}

module _ {Graph : Type 0} where
  unfoldable pub infos_from : Supervisor Graph → GoMap ℕ → List TunnelInfo
  unfolding info_of
  infos_from s [] = []
  infos_from s ((name, i) ∷ rest) =
      let more = infos_from s rest in
      elim (deref s i) [ none ↦ more | some p ↦ info_of name p ∷ more ]

  -- ListTunnels. The error's text is left as the error.
  unfoldable pub list_tunnels : Supervisor Graph → List TunnelInfo
  unfolding infos_from
  list_tunnels s = infos_from s s.processes

  stop_from : (String → Waited) → GoMap ℕ → Supervisor Graph → Supervisor Graph
  stop_from waits [] s = s
  stop_from waits ((name, i) ∷ rest) s =
      stop_from waits rest
        (elim (deref s i) [ none ↦ s | some p ↦ store i (Process.stop (waits name) p).0 s ])

  -- StopAll
  unfoldable pub stop_all : (String → Waited) → Supervisor Graph → Supervisor Graph
  unfolding stop_from
  stop_all waits s = stop_from waits s.processes s

module _ (G : Graphs) where
  open G use {Graph}

  -- The first loop of Run: no two specs claim one address.
  unfoldable pub claim_specs : List Spec → GoMap String → Option Err
  claim_specs [] seen = none
  claim_specs (spec ∷ specs) seen =
      elim (claim (Tunnel.name spec) (local_port_keys (Tunnel.to_proto spec)) seen) [
        | err e ↦ some e
        | ok seen' ↦ claim_specs specs seen'
      ]

  -- The second: each spec gets a process, whether or not it starts.
  pub start_specs : (String → StartEnv) → List Spec → Supervisor Graph → Supervisor Graph
  unfolding register
  start_specs envs [] s = s
  start_specs envs (spec ∷ specs) s =
      let i = length s.heap in
      let p = new_process spec s.key_dir in
      start_specs envs specs (start_and_notify (envs (Tunnel.name spec)) i p (register spec s)).0

  -- Run up to the wait for the end of the context.
  unfoldable pub run : (String → StartEnv) → Supervisor Graph → Supervisor Graph × Option Err
  unfolding claim_specs start_specs
  run envs s =
      let (planner, planned) = plan G s.planner in
      let s₁ = record s { has_ctx = true; planner = planner } in
      elim planned [
        | err e ↦ (s₁, some e)
        | ok order ↦ elim (claim_specs order []) [
          | some e ↦ (s₁, some e)
          | none ↦ (start_specs envs order s₁, none)
        ]
      ]
