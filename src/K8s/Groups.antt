-- ===== src/K8s/Groups.antt =====
-- k8s/controllers/tunnelgroup_controller.go: one pass over a TunnelGroup.
pub mod Phases
use tunneld.Prelude.{
  ℕ, String, ℤ, Bool, true, false, Option, none, some, List, [], ◌∷◌, map, GoMap, if◌then◌else◌,
  ◌==◌, ◌<>◌,
}
use tunneld.Errors.{Err, Result, ok, err}
use tunneld.K8s.Types.{
  TunnelGroup, TunnelGroupMember, TunnelGroupExpose, TunnelGroupMemberStatus, TunnelGroupStatus,
  ExposeSpec, TunnelPhase, unset, pending, healthy, degraded, failed, stopped, TunnelSpec, Tunnel,
  Got, found, absent, failing, Outcome, done, failed_with,
}
use tunneld.K8s.Client.{Objects}
use tunneld.K8s.Services.{merge_labels}

-- childTunnelName
unfoldable pub child_tunnel_name : String → String → String
child_tunnel_name group member = group <> "-" <> member

-- prefixDeps
unfoldable pub prefix_deps : String → List String → List String
unfolding child_tunnel_name
prefix_deps group deps = map (child_tunnel_name group) deps

-- The loop of exposeForMember.
unfoldable pub expose_from : String → List TunnelGroupExpose → Option ExposeSpec
expose_from member [] = none
expose_from member (e ∷ es) =
    if e.tunnel == member
    then some (record {
      service = true;
      service_name = (if e.service_name == "" then member else e.service_name);
      forward_index = e.forward_index;
    })
    else expose_from member es

-- exposeForMember
unfoldable pub expose_for_member : TunnelGroup → String → Option ExposeSpec
unfolding expose_from
expose_for_member g member = expose_from member g.spec.expose

-- The flags that the loop of aggregatePhase sets.
pub record Flags : Type 0 where
  pub has_pending : Bool
  pub has_degraded : Bool
  pub has_failed : Bool

-- The switch of the loop.
unfoldable pub mark : TunnelPhase → Flags → Flags
mark failed f = record f { has_failed = true }
mark degraded f = record f { has_degraded = true }
mark pending f = record f { has_pending = true }
mark unset f = record f { has_pending = true }
mark healthy f = f
mark stopped f = f

unfoldable pub flags_from : Flags → List TunnelGroupMemberStatus → Flags
unfolding mark
flags_from f [] = f
flags_from f (m ∷ ms) = flags_from (mark m.phase f) ms

abbrev pub phase_of_flags : Flags → TunnelPhase
phase_of_flags f =
    if f.has_failed
    then failed
    else if f.has_degraded
    then degraded
    else if f.has_pending
    then pending
    else healthy

-- aggregatePhase
unfoldable pub aggregate_phase : List TunnelGroupMemberStatus → TunnelPhase
unfolding flags_from
aggregate_phase [] = pending
aggregate_phase (m ∷ ms) =
    phase_of_flags (
      flags_from (record { has_pending = false; has_degraded = false; has_failed = false })
        (m ∷ ms))

unfoldable pub group_labels : TunnelGroup → TunnelGroupMember → GoMap String
group_labels g m =
    ("app.kubernetes.io/managed-by", "tunneld-controller")
    ∷ ("tunneld.io/group", g.name)
    ∷ ("tunneld.io/member", m.name)
    ∷ []

-- The spec of the child of a member.
unfoldable pub child_spec : TunnelGroup → TunnelGroupMember → TunnelSpec
unfolding prefix_deps expose_for_member
child_spec g m = record {
  depends_on = prefix_deps g.name m.depends_on;
  ssh = m.ssh;
  kubectl = m.kubectl;
  health = m.health;
  restart = m.restart;
  startup_timeout = m.startup_timeout;
  shutdown_timeout = m.shutdown_timeout;
  node_selector = g.spec.node_selector;
  expose = expose_for_member g m.name;
}

-- The function given to CreateOrUpdate, before SetControllerReference.
unfoldable pub filled_child : TunnelGroup → TunnelGroupMember → Tunnel → Tunnel
unfolding group_labels child_spec
filled_child g m t = record t {
  labels = merge_labels t.labels (group_labels g m);
  spec = child_spec g m;
}

-- live.Status.Phase, "" when the read fails
unfoldable pub live_phase : Option Tunnel → TunnelPhase
live_phase none = unset
live_phase (some t) = t.status.phase

abbrev prepend :
    {Store : Type 0}
    → TunnelGroupMemberStatus
    → Store × Result (List TunnelGroupMemberStatus)
    → Store × Result (List TunnelGroupMemberStatus)
prepend m (st, ok ms) = (st, ok (m ∷ ms))
prepend m (st, err e) = (st, err e)

-- `own` is SetControllerReference.
module _ {Store : Type 0} (tunnels : Objects Store Tunnel) (own : Tunnel → Result Tunnel) where
  -- One round of the loop: the child is written, and its phase is read back.
  unfoldable pub apply_member :
      TunnelGroup → TunnelGroupMember → Store → Store × Result TunnelGroupMemberStatus
  unfolding filled_child child_tunnel_name live_phase
  apply_member g m st =
      let (st', e) =
        tunnels.create_or_update st (child_tunnel_name g.name m.name)
          (λ t. own (filled_child g m t)) in
      elim e [
        | some x ↦ (st', err x)
        | none ↦ (
          st',
          ok (record {
            name = m.name;
            phase = live_phase (tunnels.get st' (child_tunnel_name g.name m.name));
          }),
        )
      ]

  -- The loop of Reconcile.
  unfoldable pub apply_members :
      TunnelGroup → List TunnelGroupMember → Store → Store × Result (List TunnelGroupMemberStatus)
  unfolding apply_member
  apply_members g [] st = (st, ok [])
  apply_members g (m ∷ ms) st =
      let (st', r) = apply_member g m st in
      elim r [ err e ↦ (st', err e) | ok status ↦ prepend status (apply_members g ms st') ]

  -- Reconcile: the store, the status that is written, if one is, and the outcome.
  unfoldable pub reconcile :
      (TunnelGroupStatus → Option Err)
      → Got TunnelGroup
      → Store
      → Store × Option TunnelGroupStatus × Outcome
  unfolding apply_members aggregate_phase
  reconcile patch absent st = (st, none, done)
  reconcile patch (failing e) st = (st, none, failed_with e)
  reconcile patch (found g) st =
      let (st', r) = apply_members g g.spec.tunnels st in
      elim r [
        | err e ↦ (st', none, failed_with e)
        | ok members ↦
            let status : TunnelGroupStatus = record {
              phase = aggregate_phase members;
              members = members;
              observed_generation = g.generation;
            } in
            elim (patch status) [
              | none ↦ (st', some status, done)
              | some e ↦ (st', some status, failed_with e)
            ]
      ]
