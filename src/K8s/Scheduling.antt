-- ===== src/K8s/Scheduling.antt =====
-- k8s/controllers/tunnel_controller.go: one pass over a Tunnel. A pass gives the store, the
-- statuses that it writes, in their order, and its outcome; a panic counts as a failure.
pub mod Assignments
pub mod Serving
pub mod Conditions
use tunneld.Prelude.{
  ℕ, ◌*◌, ◌^◌, String, ℤ, pos, ltb_ℤ, Bool, true, false, not, ◌&&◌, ◌||◌, Option, none, some, List,
  [], ◌∷◌, ◌++◌, GoMap, is_some, if◌then◌else◌, ◌==◌,
}
use tunneld.Errors.{Err, Result, ok, err, io, wrapped, one_of_required}
use tunneld.K8s.Types.{
  LocalObjectRef, SshSpec, KubectlSpec, Condition, TunnelPhase, pending, degraded, failed,
  TunnelStatus, Tunnel, Node, Got, found, absent, failing, Outcome, done, requeue, requeue_after,
  failed_with,
}
use tunneld.K8s.Nodes.{pick_node, node_internal_ip, node_still_valid}
use tunneld.K8s.Services.{
  Cluster, is_exposed, pick_actual_port, reconcile_tunnel_service, delete_tunnel_service,
}

unfoldable pub requeue_after_err : ℤ
requeue_after_err = pos (15 * 10 ^ 9)

-- The loop of setCondition: the first condition of the type is replaced.
unfoldable pub set_condition : Condition → List Condition → List Condition
set_condition cond [] = cond ∷ []
set_condition cond (c ∷ cs) = if c.type == cond.type then cond ∷ cs else c ∷ set_condition cond cs

-- What the API server answers during one pass, and the time.
pub record World : Type 0 where
  pub now : ℕ
  pub get_tunnel : Got Tunnel
  pub list_nodes : Result (List Node)
  pub get_node : String → Got Node
  pub patch : TunnelStatus → Option Err

-- The statuses that are written, in their order, and the outcome.
abbrev pub Pass : Type 0
Pass = List TunnelStatus × Outcome

-- The Ready condition of degrade and fail.
unfoldable pub not_ready : World → Tunnel → String → Err → Condition
not_ready w t reason e = record {
  type = "Ready";
  status = false;
  reason = reason;
  message = e;
  last_transition_time = w.now;
  observed_generation = t.generation;
}

unfoldable pub put_status : World → TunnelStatus → Outcome → Pass
put_status w st next = elim (w.patch st) [
  | none ↦ (st ∷ [], next)
  | some e ↦ (st ∷ [], failed_with e)
]

-- The status that degrade and fail write.
unfoldable pub status_with : World → Tunnel → TunnelPhase → String → Err → TunnelStatus
unfolding set_condition not_ready
status_with w t phase reason e = record t.status {
  phase = phase;
  last_error = some e;
  observed_generation = t.generation;
  conditions = set_condition (not_ready w t reason e) t.status.conditions;
}

-- degrade
unfoldable pub degrade : World → Tunnel → Err → Pass
unfolding status_with put_status requeue_after_err
degrade w t e =
    put_status w (status_with w t degraded "Degraded" e) (requeue_after requeue_after_err)

-- fail
unfoldable pub fail : World → Tunnel → Err → Pass
unfolding status_with put_status
fail w t e = put_status w (status_with w t failed "Invalid" e) done

-- The test that exactly one of ssh and kubectl is set.
unfoldable pub has_one_type : Tunnel → Bool
has_one_type t = if is_some t.spec.ssh then not (is_some t.spec.kubectl) else is_some t.spec.kubectl

module _ (matches : GoMap String → GoMap String → Bool) (before : String → String → Bool) where
  -- Step 1, for a tunnel that needs a node.
  unfoldable pub schedule : World → Tunnel → Pass
  unfolding degrade put_status
  schedule w t = elim (pick_node matches before w.list_nodes t.spec.node_selector) [
    | err e ↦ degrade w t (wrapped "scheduling" e)
    | ok (node, ip) ↦ put_status w (record t.status { node = node; phase = pending }) requeue
  ]

module _ {Store : Type 0} (c : Cluster Store) where
  -- The service reference that a pass writes.
  publish_ref : World → Tunnel → String → Store → Store × Pass
  unfolding put_status
  publish_ref w t name st =
      if name == ""
      then (st, ([], done))
      else (st, put_status w (record t.status { service_ref = some (record { name = name }) }) done)

  -- Step 2, for a tunnel to expose: the address of its node, and its Service.
  unfoldable pub publish : World → Tunnel → ℤ → Store → Store × Pass
  unfolding degrade publish_ref
  publish w t actual st = elim (w.get_node t.status.node) [
    | absent ↦ (st, degrade w t (wrapped "node lookup" (io "not found")))
    | failing e ↦ (st, degrade w t (wrapped "node lookup" e))
    | found n ↦
        let (st', r) = reconcile_tunnel_service c t (node_internal_ip n) actual st in
        elim r [ err e ↦ (st', ([], failed_with e)) | ok name ↦ publish_ref w t name st' ]
  ]

  -- Step 2, for one whose Service must go.
  unfoldable pub unpublish : World → Tunnel → Store → Store × Pass
  unfolding put_status
  unpublish w t st = elim t.status.service_ref [
    | none ↦ (st, ([], done))
    | some ref ↦
        let (st', e) = delete_tunnel_service c ref.name st in
        elim e [
          | some x ↦ (st', ([], failed_with x))
          | none ↦ (st', put_status w (record t.status { service_ref = none }) done)
        ]
  ]

  unfoldable pub manage_service : World → Tunnel → Store → Store × Pass
  unfolding publish unpublish
  manage_service w t st = elim (pick_actual_port t) [
    | err e ↦ (st, ([], failed_with e))
    | ok actual ↦
        if is_exposed t.spec.expose && ltb_ℤ (pos 0) actual
        then publish w t actual st
        else if is_exposed t.spec.expose
        then (st, ([], done))
        else unpublish w t st
  ]

module _ {Store : Type 0} (matches : GoMap String → GoMap String → Bool)
    (before : String → String → Bool) (c : Cluster Store) where
  -- A pass over a tunnel that was read.
  unfoldable pub reconcile_tunnel : World → Tunnel → Store → Store × Pass
  unfolding fail has_one_type schedule manage_service
  reconcile_tunnel w t st =
      if has_one_type t
      then if t.status.node == ""
          || not (node_still_valid (w.get_node t.status.node) t.spec.node_selector)
        then (st, schedule matches before w t)
        else manage_service c w t st
      else (st, fail w t one_of_required)

  -- Reconcile
  unfoldable pub reconcile : World → Store → Store × Pass
  unfolding reconcile_tunnel
  reconcile w st = elim w.get_tunnel [
    | absent ↦ (st, ([], done))
    | failing e ↦ (st, ([], failed_with e))
    | found t ↦ reconcile_tunnel w t st
  ]
