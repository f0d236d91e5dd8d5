-- ===== src/K8s/Agent.antt =====
-- k8s/agent/reconciler.go and constants.go: one pass of the agent over a Tunnel.
pub mod Uploads
pub mod References
use tunneld.Prelude.{
  ℕ, ◌*◌, ◌^◌, String, ℤ, pos, Bool, true, false, Option, none, some, List, [], ◌∷◌, map, GoMap,
  lookup, if◌then◌else◌, ◌==◌,
}
use tunneld.Errors.{Err, Result, ok, err, io, wrapped}
use tunneld.Proto
use tunneld.Api.Tunnels
use tunneld.K8s.Types.{
  SecretKeyRef, LocalObjectRef, SshSpec, KubectlSpec, ResolvedForward, TunnelPhase, pending,
  healthy, degraded, failed, stopped, Tunnel, TunnelStatus, TunnelKey, Secret, Got, found, absent,
  failing, Outcome, done, requeue_after, failed_with,
}
use tunneld.K8s.Convert.{daemon_key_name, daemon_tunnel_name, to_proto}

unfoldable pub requeue_steady : ℤ
requeue_steady = pos (60 * 10 ^ 9)

unfoldable pub requeue_pending : ℤ
requeue_pending = pos (5 * 10 ^ 9)

unfoldable pub requeue_err : ℤ
requeue_err = pos (15 * 10 ^ 9)

-- The answers of the API server and of the daemon during one pass. `status` answers the
-- daemon's Status, and `patch` the update of the status subresource.
pub record World : Type 0 where
  pub get_tunnel : Got Tunnel
  pub get_key : String → Got TunnelKey
  pub get_secret : String → Got Secret
  pub add_key : String → List ℕ → Option Err
  pub update : Proto.TunnelSpec → Option Err
  pub status : String → Result (List Tunnels.TunnelStatus)
  pub patch : TunnelStatus → Option Err

-- The calls that change something, in their order.
pub data Call : Type 0 where
  delete_call : String → Call
  add_key_call : String → List ℕ → Call
  update_call : Proto.TunnelSpec → Call
  patch_call : TunnelStatus → Call

-- mapDaemonPhase
unfoldable pub map_daemon_phase : String → TunnelPhase
map_daemon_phase s =
    if s == "running"
    then healthy
    else if s == "healthy"
    then healthy
    else if s == "starting"
    then pending
    else if s == "pending"
    then pending
    else if s == "stopped"
    then stopped
    else if s == "failed"
    then failed
    else degraded

-- err.Error() of a failed Get
abbrev got_error {ℓ} : {A : Type ℓ} → Got A → Err
got_error (found a) = io ""
got_error absent = io "not found"
got_error (failing e) = e

-- The end of resolveKey: the bytes of one entry of a secret.
unfoldable pub read_secret : World → String → SecretKeyRef → Result (Option (String × List ℕ))
read_secret w key_name ref = elim (w.get_secret ref.name) [
  | found s ↦ elim (lookup ref.key s.data_of) [
    | none ↦ err (wrapped ref.key (io "Secret has no key"))
    | some content ↦ ok (some (key_name, content))
  ]
  | absent ↦ err (wrapped ref.name (io "Secret not found"))
  | failing e ↦ err (wrapped ref.name e)
]

-- The branches of resolveKey for a reference to a TunnelKey.
unfoldable pub read_tunnel_key : World → String → LocalObjectRef → Result (Option (String × List ℕ))
unfolding read_secret
read_tunnel_key w namespace ref = elim (w.get_key ref.name) [
  | found k ↦ elim k.source.secret_ref [
    | none ↦ err (wrapped k.name (io "TunnelKey has no secretRef"))
    | some s ↦ read_secret w (daemon_key_name namespace k.name) s
  ]
  | absent ↦ err (wrapped ref.name (io "TunnelKey not found"))
  | failing e ↦ err (wrapped ref.name e)
]

-- The two branches of one kind of tunnel; `otherwise` is the rest of the switch.
unfoldable pub key_of_refs :
    World
    → String
    → Option LocalObjectRef
    → Option SecretKeyRef
    → Result (Option (String × List ℕ))
    → Result (Option (String × List ℕ))
unfolding read_tunnel_key read_secret
key_of_refs w namespace (some r) _ otherwise = read_tunnel_key w namespace r
key_of_refs w namespace none (some s) otherwise = read_secret w (daemon_key_name namespace s.name) s
key_of_refs w namespace none none otherwise = otherwise

unfoldable pub kubectl_key : World → String → Option KubectlSpec → Result (Option (String × List ℕ))
unfolding key_of_refs
kubectl_key w namespace none = ok none
kubectl_key w namespace (some k) =
    key_of_refs w namespace k.kubeconfig_ref k.kubeconfig_secret_ref (ok none)

-- resolveKey; none when the tunnel needs no credentials.
unfoldable pub resolve_key : World → Tunnel → Result (Option (String × List ℕ))
unfolding key_of_refs kubectl_key
resolve_key w t = elim t.spec.ssh [
  | none ↦ kubectl_key w t.namespace t.spec.kubectl
  | some s ↦
      key_of_refs w t.namespace s.identity_key_ref s.identity_key_secret_ref
        (kubectl_key w t.namespace t.spec.kubectl)
]

-- Status().Update, and the outcome that follows when it is accepted.
unfoldable pub patch_then : World → TunnelStatus → Outcome → List Call × Outcome
patch_then w st next = elim (w.patch st) [
  | none ↦ (patch_call st ∷ [], next)
  | some e ↦ (patch_call st ∷ [], failed_with e)
]

-- degrade
unfoldable pub degrade : World → Tunnel → Err → List Call × Outcome
unfolding patch_then requeue_err
degrade w t e =
    patch_then w
      (record t.status {
        phase = degraded;
        last_error = some e;
        observed_generation = t.generation;
      })
      (requeue_after requeue_err)

-- The fields of the daemon's answer that go into the CR.
forward_from : Tunnels.ResolvedForward → ResolvedForward
forward_from f = record {
  listen_address = f.local_address;
  configured_port = f.configured_port;
  actual_port = f.actual_port;
  remote_port = f.remote_port;
}

unfoldable pub reflected : Tunnel → Tunnels.TunnelStatus → TunnelStatus
unfolding forward_from map_daemon_phase
reflected t ds = record t.status {
  resolved_forwards = map forward_from ds.forwards;
  phase = map_daemon_phase ds.status;
  last_error = ds.error;
  observed_generation = t.generation;
}

abbrev requeue_of : TunnelPhase → Outcome
requeue_of healthy = requeue_after requeue_steady
requeue_of _ = requeue_after requeue_pending

-- Step 3 of Reconcile.
unfoldable pub reflect : World → Tunnel → String → List Call × Outcome
unfolding patch_then reflected requeue_pending requeue_steady
reflect w t name = elim (w.status name) [
  | err e ↦ patch_then w (record t.status { phase = pending }) (requeue_after requeue_pending)
  | ok [] ↦ patch_then w (record t.status { phase = pending }) (requeue_after requeue_pending)
  | ok (ds ∷ _) ↦ patch_then w (reflected t ds) (requeue_of (map_daemon_phase ds.status))
]

-- A call before the rest of a pass.
unfoldable pub after_call : Call → List Call × Outcome → List Call × Outcome
after_call c (cs, o) = (c ∷ cs, o)

-- Steps 2 and 3.
unfoldable pub push : (ℤ → ℕ) → World → Tunnel → List Call × Outcome
unfolding degrade reflect after_call
push thousandth w t = elim (to_proto thousandth t) [
  | err e ↦ degrade w t e
  | ok spec ↦ after_call (update_call spec) (elim (w.update spec) [
    | some e ↦ degrade w t (wrapped "Update" e)
    | none ↦ reflect w t spec.name
  ])
]

-- The test keyName != "", and the upload.
unfoldable pub upload : (ℤ → ℕ) → World → Tunnel → String → List ℕ → List Call × Outcome
unfolding degrade push after_call
upload thousandth w t key_name content =
    if key_name == ""
    then push thousandth w t
    else after_call (add_key_call key_name content) (elim (w.add_key key_name content) [
      | some e ↦ degrade w t (wrapped "AddKey" e)
      | none ↦ push thousandth w t
    ])

-- The three steps for a tunnel of this node.
unfoldable pub manage : (ℤ → ℕ) → World → Tunnel → List Call × Outcome
unfolding resolve_key degrade upload push
manage thousandth w t = elim (resolve_key w t) [
  | err e ↦ degrade w t e
  | ok none ↦ push thousandth w t
  | ok (some (key_name, content)) ↦ upload thousandth w t key_name content
]

-- Reconcile
unfoldable pub reconcile : (ℤ → ℕ) → World → String → String → String → List Call × Outcome
unfolding manage
reconcile thousandth w node_name namespace name = elim w.get_tunnel [
  | absent ↦ (delete_call (daemon_tunnel_name namespace name) ∷ [], done)
  | failing e ↦ ([], failed_with e)
  | found t ↦ if t.status.node == node_name then manage thousandth w t else ([], done)
]
