-- ===== src/Api/Peers.antt =====
-- internal/api/creds.go and polkit.go. The connections, the system bus and /proc are parameters.
-- The map of process ids is keyed by the text of the remote address.
pub mod Laws
use tunneld.Prelude.{
  ℕ, ◌<◌, String, ℤ, Bool, true, false, Option, none, some, List, [], ◌∷◌, GoMap, lookup, insert,
  delete, length, ltb, get_elem?, show, ◌<>◌, if◌then◌else◌,
}
use tunneld.Errors.{Err, Result, ok, err, ◌>>=◌, map_err, wrapped, io, index_out_of_range}

-- What Accept finds of a connection: whether it is a UnixConn whose raw connection can be
-- controlled, and the process id that SO_PEERCRED answers.
pub record Accepted : Type 0 where
  pub remote : String
  pub is_unix : Bool
  pub raw : Option Err
  pub credentials : Result ℤ

-- The part of Accept behind the listener's, which has given a connection.
unfoldable pub note_peer : Accepted → GoMap ℤ → GoMap ℤ
note_peer c pids =
    if c.is_unix
    then elim c.raw [
      | some e ↦ pids
      | none ↦ elim c.credentials [ err e ↦ pids | ok pid ↦ insert c.remote pid pids ]
    ]
    else pids

-- CredsListener.Accept
unfoldable pub accept : Result Accepted → GoMap ℤ → GoMap ℤ × Result String
unfolding note_peer
accept (err e) pids = (pids, err e)
accept (ok c) pids = (note_peer c pids, ok c.remote)

-- credsConn.Close; `closed` is the answer of the connection.
unfoldable pub close : Option Err → String → GoMap ℤ → GoMap ℤ × Option Err
close closed remote pids = (delete remote pids, closed)

-- GetPeerPID; `peer` is the address in the context.
unfoldable pub get_peer_pid : Option String → GoMap ℤ → Option ℤ
get_peer_pid none pids = none
get_peer_pid (some remote) pids = lookup remote pids

-- os.ReadFile, strings.Fields and strconv.ParseUint.
pub record Proc : Type 0 where
  pub read_file : String → Result String
  pub fields : String → List String
  pub parse_uint : String → Result ℕ

-- Field 22 of the stat file is the start time.
start_field : Proc → ℤ → List String → Result ℕ
start_field proc pid fields =
    if ltb (length fields) 22
    then err (io ("invalid stat file for pid " <> show pid))
    else elim (get_elem? fields 21) [
      | none ↦ err index_out_of_range
      | some field ↦ proc.parse_uint field
    ]

-- getProcessStartTime
unfoldable pub get_process_start_time : Proc → ℤ → Result ℕ
unfolding start_field
get_process_start_time proc pid = do
  content ← proc.read_file ("/proc/" <> show pid <> "/stat")
  start_field proc pid (proc.fields content)

-- dbus.SystemBus, and CheckAuthorization for a process id, a start time and an action.
pub record Bus : Type 0 where
  pub connect : Option Err
  pub check : ℤ → ℕ → String → Result Bool

bus_of : Bus → Result (Unit {0})
bus_of b = elim b.connect [
  | none ↦ ok tt
  | some e ↦ err (wrapped "failed to connect to system bus" e)
]

-- checkAuthorization; `uint32` of the process id is left to the bus.
unfoldable pub check_authorization : Bus → Proc → ℤ → String → Result Bool
unfolding bus_of get_process_start_time
check_authorization bus proc pid action = do
  connected ← bus_of bus
  start ← map_err (wrapped "failed to get process start time") (get_process_start_time proc pid)
  map_err (wrapped "polkit call failed") (bus.check pid start action)
