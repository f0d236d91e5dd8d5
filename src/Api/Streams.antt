-- ===== src/Api/Streams.antt =====
-- The streaming calls of internal/api/grpc_server.go: Logs, and the loop of WatchStatus. What the
-- loops meet is a list; a loop that has not ended when the list is over goes on.
pub mod Laws
use tunneld.Prelude.{
  ℕ, String, Bool, true, false, not, Option, none, some, List, [], ◌∷◌, ◌++◌, if◌then◌else◌, ◌==◌,
}
use tunneld.Errors.{Err, Result, ok, err, wrapped}
use tunneld.Daemon.Supervisor.{Supervisor, get_process}
use tunneld.Api.{Code, not_found, internal, Reply, response, failure}
use tunneld.Api.Tunnels.{TunnelStatus, watch_frame}

-- How a stream ends: without an error, with the error of Send or of the context as it is, or with
-- a status of the server.
pub data StreamEnd : Type 0 where
  finished : StreamEnd
  raw : Err → StreamEnd
  status_error : Code → Err → StreamEnd

-- The error of ReadString beside the text that it read.
pub data ReadEnd : Type 0 where
  complete : ReadEnd
  at_eof : ReadEnd
  read_failed : Err → ReadEnd

-- One round of the loop of Logs: what ReadString answers, the error of Send, and the error of the
-- stream's context when the round looks at it.
pub record Round : Type 0 where
  pub line : String
  pub read_end : ReadEnd
  pub sent : Option Err
  pub context : Option Err

-- if len(line) > 0 { stream.Send }: what was sent, and the error.
abbrev send_line : Round → List String × Option Err
send_line r =
    if r.line == ""
    then ([], none)
    else elim r.sent [ none ↦ (r.line ∷ [], none) | some e ↦ ([], some e) ]

-- The rest of a round; `none` goes on.
abbrev after_send : Bool → ReadEnd → Option Err → Option StreamEnd
after_send follow at_eof context = if follow then none else some finished
after_send follow (read_failed e) context =
    some (status_error internal (wrapped "error reading logs" e))
after_send follow complete none = none
after_send follow complete (some e) = some (raw e)

-- The loop: the lines that were sent, and the end. `none`: the loop goes on.
unfoldable pub logs_loop : Bool → List Round → List String × Option StreamEnd
logs_loop follow [] = ([], none)
logs_loop follow (r ∷ rs) =
    let (ls, end) = logs_loop follow rs in
    elim (send_line r).1 [
      | some e ↦ ((send_line r).0, some (raw e))
      | none ↦ elim (after_send follow r.read_end r.context) [
        | some x ↦ ((send_line r).0, some x)
        | none ↦ ((send_line r).0 ++ ls, end)
      ]
    ]

-- What os.Open of the log file answers.
pub data Opened : Type 0 where
  opened : Opened
  missing : Opened
  not_opened : Err → Opened

module _ {Graph : Type 0} where
  -- Logs
  unfoldable pub logs :
      Opened → String → Bool → List Round → Supervisor Graph → List String × Option StreamEnd
  unfolding logs_loop
  logs file name follow rounds s = elim (get_process s name) [
    | err e ↦ ([], some (status_error not_found e))
    | ok p ↦ elim file [
      | opened ↦ logs_loop follow rounds
      | missing ↦ ([], some finished)
      | not_opened e ↦ ([], some (status_error internal (wrapped "failed to open log file" e)))
    ]
  ]

-- What the select of WatchStatus meets.
pub data WatchEvent (Graph : Type 0) : Type 0 where
  context_done : Err → WatchEvent Graph
  -- a tick, with the state then and the error of Send
  tick : Supervisor Graph → Option Err → WatchEvent Graph

module _ {Graph : Type 0} where
  -- send: the frame that went out, or the end of the stream.
  send_frame : String → Supervisor Graph → Option Err → List (List TunnelStatus) × Option StreamEnd
  send_frame name s sent = elim (watch_frame name s) [
    | failure c e ↦ ([], some (status_error c e))
    | response ts ↦ elim sent [ some e ↦ ([], some (raw e)) | none ↦ (ts ∷ [], none) ]
  ]

  watch_loop : String → List (WatchEvent Graph) → List (List TunnelStatus) × Option StreamEnd
  unfolding send_frame
  watch_loop name [] = ([], none)
  watch_loop name (context_done e ∷ events) = ([], some (raw e))
  watch_loop name (tick s sent ∷ events) =
      let (frames, end) = watch_loop name events in
      let (first, stop) = send_frame name s sent in
      elim stop [ some x ↦ (first, some x) | none ↦ (first ++ frames, end) ]

  -- WatchStatus: a frame at once, and then one at each tick.
  unfoldable pub watch_status :
      String
      → Supervisor Graph
      → Option Err
      → List (WatchEvent Graph)
      → List (List TunnelStatus) × Option StreamEnd
  unfolding watch_loop
  watch_status name s sent events = watch_loop name (tick s sent ∷ events)
