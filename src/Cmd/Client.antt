-- ===== src/Cmd/Client.antt =====
-- cmd/tunnelctl/cmd: the commands behind getClient. The connection and the server are a
-- parameter, a `Server` over the states `W` of the daemon.
pub mod Slurp
pub mod Load
pub mod Show
use tunneld.Prelude.{
  ℕ, String, ℤ, Bool, Option, none, some, List, [], ◌∷◌, map, GoMap, if◌then◌else◌,
}
use tunneld.Errors.{Err, Result, ok, err}
use tunneld.Api.Tunnels.{PutRequest, TunnelStatus, ResolvedForward}
use tunneld.Tunnel.{Status}
use tunneld.Cmd.{Line, text, about, Ended, exit_with, done}

-- pb.TunnelServiceClient and pb.KeyServiceClient, with grpc.Dial: each call has the error that it
-- returns, `none` for success.
pub record Server (W : Type 0) : Type 0 where
  pub dial : Option Err
  pub create : PutRequest → W → W × Option Err
  pub delete : String → W → W × Option Err
  pub start : String → W → W × Option Err
  pub stop : String → W → W × Option Err
  pub enable : String → W → W × Option Err
  pub disable : String → W → W × Option Err
  pub status : String → W → Result (List TunnelStatus)
  pub wait : String → ℤ → W → W × Result (String × List ResolvedForward)
  pub add_key : String → List ℕ → W → W × Option Err
  pub list_keys : W → Result (List String)
  pub delete_key : String → W → W × Option Err

module _ {W : Type 0} (S : Server W) where
  -- getClient, and the body with the client.
  abbrev pub with_client : (W → W × Ended) → W → W × Ended
  with_client body w = elim S.dial [ some e ↦ (w, exit_with "did not connect" e) | none ↦ body w ]

  -- A call that prints a line if it succeeds.
  abbrev pub call : (W → W × Option Err) → String → List Line → W → W × Ended
  call f message lines w =
      let (w', e) = f w in elim e [ some x ↦ (w', exit_with message x) | none ↦ (w', done lines) ]

  -- delete.go, start.go, stop.go, enable.go and disable.go
  unfoldable pub delete_cmd : String → W → W × Ended
  delete_cmd name w =
      with_client (λ v. call (S.delete name) "could not delete" (about name "deleted" ∷ []) v) w

  unfoldable pub start_cmd : String → W → W × Ended
  start_cmd name w =
      with_client
        (λ v. call (S.start name) "could not start" (about name "start signal sent" ∷ []) v) w

  unfoldable pub stop_cmd : String → W → W × Ended
  stop_cmd name w =
      with_client (λ v. call (S.stop name) "could not stop" (about name "stop signal sent" ∷ []) v)
        w

  unfoldable pub enable_cmd : String → W → W × Ended
  enable_cmd name w =
      with_client
        (λ v.
          call (S.enable name) "could not enable tunnel" (about name "enabled and starting" ∷ []) v)
        w

  unfoldable pub disable_cmd : String → W → W × Ended
  disable_cmd name w =
      with_client
        (λ v.
          call (S.disable name) "could not disable tunnel" (about name "disabled and stopping" ∷ [])
            v)
        w

  -- key.go: the file of a new key is read before the connection.
  unfoldable pub key_add : (String → Result (List ℕ)) → String → String → W → W × Ended
  key_add read_file name path w = elim (read_file path) [
    | err e ↦ (w, exit_with "failed to read key file" e)
    | ok content ↦
        with_client
          (λ v.
            call (S.add_key name content) "failed to add key" (about name "added successfully" ∷ [])
              v)
          w
  ]

  unfoldable pub key_list : W → W × Ended
  key_list w =
      with_client
        (λ v. elim (S.list_keys v) [
          | err e ↦ (v, exit_with "failed to list keys" e)
          | ok names ↦ (v, done (text "Managed Keys:" ∷ map (λ n. about n "-") names))
        ])
        w

  unfoldable pub key_delete : String → W → W × Ended
  key_delete name w =
      with_client
        (λ v.
          call (S.delete_key name) "failed to delete key" (about name "deleted successfully" ∷ [])
            v)
        w

  -- tunnelNameCompletion and keyNameCompletion of root.go: nothing where a step fails.
  unfoldable pub tunnel_name_completion : W → List String
  tunnel_name_completion w = elim S.dial [
    | some e ↦ []
    | none ↦ elim (S.status "" w) [ err e ↦ [] | ok ts ↦ map (λ t. t.name) ts ]
  ]

  unfoldable pub key_name_completion : W → List String
  key_name_completion w = elim S.dial [
    | some e ↦ []
    | none ↦ elim (S.list_keys w) [ err e ↦ [] | ok names ↦ names ]
  ]
