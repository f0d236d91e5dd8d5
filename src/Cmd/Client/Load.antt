-- ===== src/Cmd/Client/Load.antt =====
-- load.go and create.go of cmd/tunnelctl/cmd.
pub mod Laws
use tunneld.Prelude.{
  ℕ, String, Bool, true, false, Option, none, some, List, [], ◌∷◌, ◌++◌, GoMap, if◌then◌else◌, ◌==◌,
}
use tunneld.Errors.{Err, Result, ok, err}
use tunneld.Proto.{TunnelSpec}
use tunneld.Config.{TunnelConfig, load}
use tunneld.Config.Convert
use tunneld.Config.Validate.{to_specs}
use tunneld.Dependency
use tunneld.Dependency.{Graphs, new_planner}
use tunneld.Tunnel
use tunneld.Tunnel.{Spec}
use tunneld.Api.Tunnels.{PutRequest}
use tunneld.Cmd.{Line, text, about, failed, Ended, exit_with, done}
use tunneld.Cmd.Client.{Server, with_client, call}
use tunneld.Cmd.Client.Slurp.{LocalFiles, slurp_keys}

-- What the client reads.
pub record ClientFiles : Type 0 where
  pub local : LocalFiles
  pub read_file : String → Result String
  pub unmarshal : String → Result (GoMap TunnelConfig)
  pub unmarshal_tunnel : String → Result TunnelConfig

abbrev pub request : TunnelSpec → GoMap (List ℕ) → Bool → PutRequest
request p keys persistent = record { spec = some p; inline_keys = keys; persistent = persistent }

module _ {W : Type 0} (S : Server W) where
  -- The body of the loop of load: Create with the keys, then Start; the first error ends it.
  unfoldable pub load_one : LocalFiles → Bool → Spec → W → W × Option (String × Err)
  load_one local persistent spec w = elim (slurp_keys local (Tunnel.to_proto spec)) [
    | err e ↦ (w, some ("slurp keys", e))
    | ok (p, keys) ↦
        let (w₁, e₁) = S.create (request p keys persistent) w in
        elim e₁ [
          | some e ↦ (w₁, some ("create", e))
          | none ↦
              let (w₂, e₂) = S.start (Tunnel.name spec) w₁ in
              elim e₂ [ some e ↦ (w₂, some ("start", e)) | none ↦ (w₂, none) ]
        ]
  ]

  -- The loop: the lines, and hasError.
  unfoldable pub load_all : LocalFiles → Bool → List Spec → W → W × List Line × Bool
  unfolding load_one
  load_all local persistent [] w = (w, [], false)
  load_all local persistent (spec ∷ specs) w =
      let (w₁, e) = load_one local persistent spec w in
      let (w₂, lines, has_error) = load_all local persistent specs w₁ in
      elim e [
        | some (step, x) ↦ (w₂, failed step (Tunnel.name spec) x ∷ lines, true)
        | none ↦ (w₂, about (Tunnel.name spec) "loaded and started" ∷ lines, has_error)
      ]

  -- load, over the plan of the file's tunnels. The order of the dependencies is that of Plan.
  unfoldable pub load_cmd : Graphs → ClientFiles → Bool → String → W → W × Ended
  unfolding load_all
  load_cmd G files persistent path w =
      with_client S
        (λ v. elim (load files.read_file files.unmarshal path) [
          | err e ↦ (v, exit_with "failed to load config" e)
          | ok c ↦ elim (to_specs c) [
            | err e ↦ (v, exit_with "failed to parse specs" e)
            | ok specs ↦ elim (Dependency.plan G (new_planner G specs)).1 [
              | err e ↦ (v, exit_with "failed to resolve dependency order" e)
              | ok order ↦
                  let (v', lines, has_error) = load_all files.local persistent order v in
                  (v', record { lines = lines; code = if has_error then 1 else 0 })
            ]
          ]
        ])
        w

  -- create. The flag is checked before the file is read.
  unfoldable pub create_cmd : ClientFiles → Bool → String → String → W → W × Ended
  create_cmd files persistent name path w =
      with_client S
        (λ v.
          if path == ""
          then (v, record { lines = text "--config required" ∷ []; code = 1 })
          else elim (files.read_file path) [
            | err e ↦ (v, exit_with "failed to read config" e)
            | ok content ↦ elim (files.unmarshal_tunnel content) [
              | err e ↦ (v, exit_with "failed to parse yaml" e)
              | ok t ↦ elim (Convert.to_proto t name) [
                | err e ↦ (v, exit_with "failed to convert to proto" e)
                | ok p ↦ elim (slurp_keys files.local p) [
                  | err e ↦ (v, exit_with "failed to slurp keys" e)
                  | ok (p', keys) ↦
                      call S (S.create (request p' keys persistent)) "could not create"
                        (about name "created" ∷ []) v
                ]
              ]
            ]
          ])
        w
