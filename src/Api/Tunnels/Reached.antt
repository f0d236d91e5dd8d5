-- ===== src/Api/Tunnels/Reached.antt =====
-- A call of the gRPC handlers is a sequence of steps of the supervisor.
use tunneld.Prelude.{
  ℕ, ◌≡◌, refl, sym, String, Option, none, some, List, [], ◌∷◌, GoMap, arith, inl, inr, Bool-cases,
  Option-cases, lookup, ◌==◌, is_empty, Bool,
}
use tunneld.Errors.{Err, Result-cases}
use tunneld.Config.{Config}
use tunneld.Proto.{TunnelSpec}
use tunneld.Dependency.{Graphs}
use tunneld.Tunnel
use tunneld.Tunnel.{Spec}
use tunneld.Daemon.Supervisor.{Supervisor, KeyWrite, save_key, list_tunnels}
use tunneld.Daemon.Supervisor.Failure.{Floats}
use tunneld.Daemon.Supervisor.Operations.{
  add_tunnel, remove_tunnel, start_tunnel, stop_tunnel, enable_tunnel, disable_tunnel,
}
use tunneld.Daemon.Supervisor.Steps.{
  Step, Reach, started, stopped, enabled, disabled, key_saved, key_deleted, quiet, added, removed,
  here, next, one, Reach-trans, Reach-eq,
}
use tunneld.Api.Keys
use tunneld.Api.Keys.{add_key, delete_key}
use tunneld.Api.Tunnels.{
  PutRequest, Env, save_keys, receive_spec, create_reply, create, unchanged, update, internally,
  start, stop, enable, disable,
}
use tunneld.Api.Tunnels
use tunneld.Api.Tunnels.Promises.{Reply-cases}

module _ (G : Graphs) (F : Floats) where
  open G use {Graph}

  -- The state of an answer of a server is that of the supervisor.
  internally-state : (r : Supervisor Graph × Option Err) → (internally r).0 ≡ r.0
  internally-state (s, none) = refl
  internally-state (s, some e) = refl

  save_keys-Reach :
      (writes : String → KeyWrite) (keys : GoMap (List ℕ)) (s : Supervisor Graph)
      → Reach G F s (save_keys writes keys s).0
  unfolding save_keys
  save_keys-Reach writes [] s = here
  save_keys-Reach writes ((name, content) ∷ keys) s =
      let s₁ = (save_key (writes name) name content s).0 in
      let first : Reach G F s s₁ = one G F (quiet (key_saved (writes name) name content refl)) in
      elim (Option-cases (save_key (writes name) name content s).1) [
        | inr (x, e) ↦ Reach-eq G F first (ground (arith, e))
        | inl e ↦
            Reach-eq G F (Reach-trans G F first (save_keys-Reach writes keys s₁))
              (ground (arith, e))
      ]

  -- A request for a spec only saves keys.
  receive_spec-Reach :
      (env : Env) (req : PutRequest) (s : Supervisor Graph)
      → Reach G F s (receive_spec G env req s).0
  unfolding receive_spec
  receive_spec-Reach env req s = elim (Option-cases req.spec) [
    | inl e ↦ Reach-eq G F here (ground (arith, e))
    | inr (p, e) ↦ Reach-eq G F (save_keys-Reach env.key_writes req.inline_keys s) (
        ground (
          arith,
          e,
          Option-cases (save_keys env.key_writes req.inline_keys s).1,
          Result-cases (Tunnel.from_proto p),
        ))
  ]

  create-Reach :
      (text : Err → String) (env : Env) (req : PutRequest) (s : Supervisor Graph)
      → Reach G F s (create G text env req s).0
  unfolding create create_reply
  create-Reach text env req s =
      let s₁ = (receive_spec G env req s).0 in
      let r = receive_spec-Reach env req s in
      elim (Reply-cases (receive_spec G env req s).1) [
        | inr (c, x, e) ↦ Reach-eq G F r (ground (arith, e))
        | inl (spec, e) ↦
            let st : Step G F s₁ (add_tunnel G env.save env.start spec req.persistent s₁).0 =
              added env.save env.start spec req.persistent refl in
            Reach-eq G F (next r st) (
              ground
                (arith, e, Option-cases (add_tunnel G env.save env.start spec req.persistent s₁).1))
      ]

  update-Reach :
      (equal : TunnelSpec → TunnelSpec → Bool) (env : Env) (req : PutRequest) (s : Supervisor Graph)
      → Reach G F s (update G equal env req s).0
  unfolding update
  update-Reach equal env req s =
      let s₁ = (receive_spec G env req s).0 in
      let r = receive_spec-Reach env req s in
      elim (Reply-cases (receive_spec G env req s).1) [
        | inr (c, x, e) ↦ Reach-eq G F r (ground (arith, e))
        | inl (spec, e) ↦ elim (Bool-cases (unchanged G equal spec (list_tunnels s₁))) [
          | inl u ↦
              let st : Step G F s₁ (start_tunnel env.start (Tunnel.name spec) s₁).0 =
                quiet (started env.start (Tunnel.name spec) refl) in
              Reach-eq G F (next r st) (
                ground (arith, e, u, Option-cases (start_tunnel env.start (Tunnel.name spec) s₁).1))
          | inr u ↦
              let s₂ = (remove_tunnel G env.waited (Tunnel.name spec) s₁).0 in
              let out : Step G F s₁ s₂ = removed env.waited (Tunnel.name spec) refl in
              let st : Step G F s₂ (add_tunnel G env.save env.start spec req.persistent s₂).0 =
                added env.save env.start spec req.persistent refl in
              Reach-eq G F (next (next r out) st) (
                ground (
                  arith,
                  e,
                  u,
                  Option-cases (add_tunnel G env.save env.start spec req.persistent s₂).1,
                ))
        ]
      ]

  key_calls-Reach :
      (at : KeyWrite) (removal : Option Err) (name : String) (content : List ℕ)
      (s : Supervisor Graph)
      → Reach G F s (add_key at name content s).0
        × Reach G F s (delete_key at.join removal name s).0
  unfolding add_key Keys.saved delete_key save_key
  key_calls-Reach at removal name content s = (
    elim (Bool-cases (name == "")) [
      | inl a ↦ Reach-eq G F here (ground (arith, a))
      | inr a ↦ elim (Bool-cases (is_empty content)) [
        | inl b ↦ Reach-eq G F here (ground (arith, a, b))
        | inr b ↦
            Reach-eq G F (one G F (quiet (key_saved at name content refl)))
              (ground (arith, a, b, Option-cases at.made, Option-cases at.written))
      ]
    ],
    elim (Bool-cases (name == "")) [
      | inl a ↦ Reach-eq G F here (ground (arith, a))
      | inr a ↦ elim (Option-cases (lookup (at.join s.key_dir name) s.key_files)) [
        | inl b ↦ Reach-eq G F here (ground (arith, a, b))
        | inr (x, b) ↦ elim (Option-cases removal) [
          | inr (e, c) ↦ Reach-eq G F here (ground (arith, a, b, c))
          | inl c ↦
              Reach-eq G F (one G F (quiet (key_deleted (at.join s.key_dir name) refl)))
                (ground (arith, a, b, c))
        ]
      ]
    ],
  )

  -- Every call of the two servers that can change the supervisor is a sequence of its steps,
  -- whatever it answers: so what holds in every state that is reached holds between the calls.
  pub handlers-Reach :
      (text : Err → String) (equal : TunnelSpec → TunnelSpec → Bool) (env : Env) (req : PutRequest)
      (write : Config → Option Err) (at : KeyWrite) (removal : Option Err) (name : String)
      (content : List ℕ) (s : Supervisor Graph)
      → Reach G F s (create G text env req s).0
        × Reach G F s (update G equal env req s).0
        × Reach G F s (Tunnels.delete G env.waited name s).0
        × Reach G F s (start env.start name s).0
        × Reach G F s (stop env.waited name s).0
        × Reach G F s (enable write env.start name s).0
        × Reach G F s (disable write env.waited name s).0
        × Reach G F s (add_key at name content s).0
        × Reach G F s (delete_key at.join removal name s).0
  unfolding Tunnels.delete start stop enable disable
  handlers-Reach text equal env req write at removal name content s =
      let answer = λ (r : Supervisor Graph × Option Err) (st : Step G F s r.0).
        Reach-eq G F (one G F st) (sym (internally-state r)) in
      (
        create-Reach text env req s,
        update-Reach equal env req s,
        answer (remove_tunnel G env.waited name s) (removed env.waited name refl),
        answer (start_tunnel env.start name s) (quiet (started env.start name refl)),
        answer (stop_tunnel env.waited name s) (quiet (stopped env.waited name refl)),
        answer (enable_tunnel write env.start name s) (quiet (enabled write env.start name refl)),
        answer (disable_tunnel write env.waited name s)
            (quiet (disabled write env.waited name refl)),
        (key_calls-Reach at removal name content s).0,
        (key_calls-Reach at removal name content s).1,
      )
