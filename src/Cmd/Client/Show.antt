-- ===== src/Cmd/Client/Show.antt =====
-- status.go, wait.go and logs.go of cmd/tunnelctl/cmd: what they print.
use tunneld.Prelude.{
  String, ℤ, pos, Option, none, some, List, [], ◌∷◌, ◌++◌, eq_ℤ, show, ◌<>◌, ◌==◌, if◌then◌else◌,
}
use tunneld.Errors.{Err, ok, err}
use tunneld.Proto.{SpecType, unset, ssh, kubectl}
use tunneld.Api.Tunnels.{TunnelStatus, ResolvedForward}
use tunneld.Cmd.{
  Line, text, about, error_line, columns, row, spec_json, forward, Ended, exit_with, done,
}
use tunneld.Cmd.Client.{Server, with_client}

abbrev pub type_text : SpecType → String
type_text unset = "unknown"
type_text (ssh s) = "ssh"
type_text (kubectl k) = "kubectl"

-- The loop over the forwards: a port that the system chose has a star.
unfoldable pub port_parts : List ResolvedForward → List String
port_parts [] = []
port_parts (f ∷ fs) =
    let part = f.local_address <> ":" <> show f.actual_port in
    (if eq_ℤ f.configured_port (pos 0) then part <> "*" else part) ∷ port_parts fs

-- strings.Join(parts, ",")
unfoldable pub joined : List String → String
joined [] = ""
joined (x ∷ []) = x
joined (x ∷ y ∷ ys) = x <> "," <> joined (y ∷ ys)

status_row : TunnelStatus → Line
unfolding port_parts joined
status_row t =
    row t.name (type_text t.spec.type) t.status (joined (port_parts t.forwards)) t.error
      t.spec.depends_on

status_rows : List TunnelStatus → List Line
unfolding status_row
status_rows [] = []
status_rows (t ∷ ts) = status_row t ∷ status_rows ts

abbrev error_part : Option Err → List Line
error_part none = []
error_part (some e) = error_line "Error:" e ∷ []

-- The view of one tunnel.
status_details : TunnelStatus → List Line
status_details t =
    about t.name "Tunnel:"
    ∷ about t.status "Status:"
    ∷ (error_part t.error ++ text "Spec:" ∷ spec_json t.spec ∷ [])

abbrev heading : Line
heading = columns ("NAME" ∷ "TYPE" ∷ "STATUS" ∷ "PORTS" ∷ "ERROR" ∷ "DEPENDENCIES" ∷ [])

status_lines : String → List TunnelStatus → List Line
unfolding status_rows status_details
status_lines name (t ∷ []) = if name == "" then heading ∷ status_rows (t ∷ []) else status_details t
status_lines name ts = heading ∷ status_rows ts

-- The loop over the forwards of wait.
forward_lines : List ResolvedForward → List Line
forward_lines [] = []
forward_lines (f ∷ fs) =
    forward f.local_address f.actual_port f.remote_port
      (if eq_ℤ f.configured_port (pos 0) then " (dynamic)" else "")
    ∷ forward_lines fs

-- What stream.Recv answers: a line, or its error; `none` is io.EOF.
pub data Received : Type 0 where
  line : String → Received
  end_of_stream : Received
  broken : Err → Received

-- The loop of logs. It still waits when the answers are over.
unfoldable pub receive_lines : List Received → List String × Option (Option Err)
receive_lines [] = ([], none)
receive_lines (line l ∷ rest) = let (ls, end) = receive_lines rest in (l ∷ ls, end)
receive_lines (end_of_stream ∷ rest) = ([], some none)
receive_lines (broken e ∷ rest) = ([], some (some e))

module _ {W : Type 0} (S : Server W) where
  -- status.go
  unfoldable pub status_cmd : String → W → W × Ended
  unfolding status_lines
  status_cmd name w =
      with_client S
        (λ v. elim (S.status name v) [
          | err e ↦ (v, exit_with "could not get status" e)
          | ok ts ↦ (v, done (status_lines name ts))
        ])
        w

  -- wait.go; the line before the call is the first.
  unfoldable pub wait_cmd : String → ℤ → W → W × Ended
  unfolding forward_lines
  wait_cmd name timeout w =
      with_client S
        (λ v.
          let (v', r) = S.wait name timeout v in
          elim r [
            | err e ↦ (
              v',
              record { lines = about name "Waiting" ∷ error_line "wait failed" e ∷ []; code = 1 },
            )
            | ok (status, fs) ↦
                (v', done (about name "Waiting" ∷ about name status ∷ forward_lines fs))
          ])
        w
