-- ===== src/K8s/Scheduling/Assignments.antt =====
-- To which node a pass assigns a Tunnel.
use mathlib.Core.Path.{subst, sym}
use tunneld.Prelude.{
  ◌≡◌, refl, ◌⊎◌, inl, inr, String, ℤ, pos, ltb_ℤ, Bool, true, not, ◌||◌, none, some, List, [], ◌∷◌,
  GoMap, arith, Memᴰ, Bool-cases, Option-cases, ◌==◌,
}
use tunneld.Errors.{Err, io, wrapped, ok, Result-cases}
use tunneld.K8s.Types.{
  Tunnel, TunnelStatus, TunnelPhase, Got, found, absent, failing, Outcome, requeue, requeue_after,
  done,
}
use tunneld.K8s.Nodes.{pick_node, node_still_valid, node_internal_ip}
use tunneld.K8s.Services.{
  Cluster, is_exposed, pick_actual_port, reconcile_tunnel_service, delete_tunnel_service,
}
use tunneld.K8s.Scheduling.{
  World, put_status, status_with, degrade, fail, has_one_type, schedule, publish_ref, publish,
  unpublish, manage_service, reconcile_tunnel, reconcile, requeue_after_err, one_of_required,
}

pub Got-cases :
    {A : Type 0} (g : Got A)
    → ((a : A) × (g ≡ found a)) ⊎ ((g ≡ absent) ⊎ ((e : Err) × (g ≡ failing e)))
Got-cases (found a) = inl (a, refl)
Got-cases absent = inr (inl refl)
Got-cases (failing e) = inr (inr (e, refl))

-- A pass writes no status, or one with the node of the Tunnel.
abbrev IsStay : Tunnel → List TunnelStatus → Type 0
IsStay t us = (us ≡ []) ⊎ ((u : TunnelStatus) × (us ≡ u ∷ []) × (u.node ≡ t.status.node))

IsStay-eq :
    (t : Tunnel) (p : List TunnelStatus) {q : List TunnelStatus} → q ≡ p → IsStay t p → IsStay t q
IsStay-eq t p e h = rw e h

put_status-writes :
    (w : World) (u : TunnelStatus) (next : Outcome) → (put_status w u next).0 ≡ u ∷ []
unfolding put_status
put_status-writes w u next = elim (Option-cases (w.patch u)) [
  | inl e ↦ ground (arith, e)
  | inr (x, e) ↦ ground (arith, e)
]

degrade-IsStay : (w : World) (t : Tunnel) (e : Err) → IsStay t (degrade w t e).0
unfolding degrade status_with
degrade-IsStay w t e = inr (
  status_with w t TunnelPhase.degraded "Degraded" e,
  put_status-writes w (status_with w t TunnelPhase.degraded "Degraded" e)
      (requeue_after requeue_after_err),
  refl,
)

fail-IsStay : (w : World) (t : Tunnel) (e : Err) → IsStay t (fail w t e).0
unfolding fail status_with
fail-IsStay w t e = inr (
  status_with w t TunnelPhase.failed "Invalid" e,
  put_status-writes w (status_with w t TunnelPhase.failed "Invalid" e) done,
  refl,
)

kept :
    (t : Tunnel) (u : TunnelStatus) (p : List TunnelStatus)
    → IsStay t p
    → Memᴰ u p
    → u.node ≡ t.status.node
kept t u p (inl e) m = elim (subst (λ l. Memᴰ u l) e m) [ ]
kept t u p (inr (v, e, q)) m = elim (subst (λ l. Memᴰ u l) e m) [
  | Memᴰ.head x ↦ ground (arith, x, q)
  | Memᴰ.tail h ↦ elim h [ ]
]

-- What schedule writes.
module _ (matches : GoMap String → GoMap String → Bool) (before : String → String → Bool) where
  schedule-node :
      (w : World) (t : Tunnel) (u : TunnelStatus)
      → Memᴰ u (schedule matches before w t).0
      → (u.node ≡ t.status.node)
        ⊎ ((ip : String) × (pick_node matches before w.list_nodes t.spec.node_selector
              ≡ ok (u.node, ip))
            × (u.phase ≡ TunnelPhase.pending))
  unfolding schedule
  schedule-node w t u m =
      elim (Result-cases (pick_node matches before w.list_nodes t.spec.node_selector)) [
        | inr (x, e) ↦
            let x' = wrapped "scheduling" x in
            inl (
              kept t u (schedule matches before w t).0
                (IsStay-eq t (degrade w t x').0 (ground (arith, e)) (degrade-IsStay w t x')) m)
        | inl ((node, ip), e) ↦
            let v = record t.status { node = node; phase = TunnelPhase.pending } in
            let q : (schedule matches before w t).0 ≡ v ∷ [] =
              ground (arith, e, put_status-writes w v requeue) in
            elim (subst (λ l. Memᴰ u l) q m) [
              | Memᴰ.head x ↦ inr (ip, ground (arith, e, x), ground (arith, x))
              | Memᴰ.tail h ↦ elim h [ ]
            ]
      ]

module _ {Store : Type 0} (c : Cluster Store) where
  publish_ref-IsStay :
      (w : World) (t : Tunnel) (name : String) (st : Store)
      → IsStay t (publish_ref c w t name st).1.0
  unfolding publish_ref
  publish_ref-IsStay w t name st =
      let u = record t.status { service_ref = some (record { name = name }) } in
      elim (Bool-cases (name == "")) [
        | inl e ↦ inl (ground (arith, e))
        | inr e ↦ inr (u, ground (arith, e, put_status-writes w u done), refl)
      ]

  publish-IsStay :
      (w : World) (t : Tunnel) (actual : ℤ) (st : Store) → IsStay t (publish c w t actual st).1.0
  unfolding publish
  publish-IsStay w t actual st = elim (Got-cases (w.get_node t.status.node)) [
    | inr (inl e) ↦
        let x = wrapped "node lookup" (io "not found") in
        IsStay-eq t (degrade w t x).0 (ground (arith, e)) (degrade-IsStay w t x)
    | inr (inr (x, e)) ↦
        let x' = wrapped "node lookup" x in
        IsStay-eq t (degrade w t x').0 (ground (arith, e)) (degrade-IsStay w t x')
    | inl (n, e) ↦
        let r = reconcile_tunnel_service c t (node_internal_ip n) actual st in
        elim (Result-cases r.1) [
          | inr (x, q) ↦ inl (ground (arith, e, q))
          | inl (name, q) ↦
              IsStay-eq t (publish_ref c w t name r.0).1.0 (ground (arith, e, q))
                (publish_ref-IsStay w t name r.0)
        ]
  ]

  unpublish-IsStay : (w : World) (t : Tunnel) (st : Store) → IsStay t (unpublish c w t st).1.0
  unfolding unpublish
  unpublish-IsStay w t st = elim (Option-cases t.status.service_ref) [
    | inl e ↦ inl (ground (arith, e))
    | inr (ref, e) ↦
        let u = record t.status { service_ref = none } in
        elim (Option-cases (delete_tunnel_service c ref.name st).1) [
          | inr (x, q) ↦ inl (ground (arith, e, q))
          | inl q ↦ inr (u, ground (arith, e, q, put_status-writes w u done), refl)
        ]
  ]

  manage_service-IsStay :
      (w : World) (t : Tunnel) (st : Store) → IsStay t (manage_service c w t st).1.0
  unfolding manage_service
  manage_service-IsStay w t st = elim (Result-cases (pick_actual_port t)) [
    | inr (x, e) ↦ inl (ground (arith, e))
    | inl (actual, e) ↦ elim (Bool-cases (is_exposed t.spec.expose)) [
      | inr b ↦
          IsStay-eq t (unpublish c w t st).1.0 (ground (arith, e, b)) (unpublish-IsStay w t st)
      | inl b ↦ elim (Bool-cases (ltb_ℤ (pos 0) actual)) [
        | inl p ↦
            IsStay-eq t (publish c w t actual st).1.0 (ground (arith, e, b, p))
              (publish-IsStay w t actual st)
        | inr p ↦ inl (ground (arith, e, b, p))
      ]
    ]
  ]

module _ {Store : Type 0} (matches : GoMap String → GoMap String → Bool)
    (before : String → String → Bool) (c : Cluster Store) where
  -- If a pass reads a Tunnel, then each status that it writes keeps the Tunnel's node, or its phase
  -- is pending and its node is the one that pickNode chooses from the listed nodes with the Tunnel's
  -- selector; the second only if the Tunnel has no node or its node is not valid for the selector.
  pub reconcile-nodes :
      (w : World) (t : Tunnel) (st : Store) (u : TunnelStatus)
      → w.get_tunnel ≡ found t
      → Memᴰ u (reconcile matches before c w st).1.0
      → (u.node ≡ t.status.node)
        ⊎ ((ip : String) × (pick_node matches before w.list_nodes t.spec.node_selector
              ≡ ok (u.node, ip))
            × (u.phase ≡ TunnelPhase.pending)
            × (t.status.node == ""
                  || not (node_still_valid (w.get_node t.status.node) t.spec.node_selector)
                ≡ true))
  unfolding reconcile reconcile_tunnel schedule
  reconcile-nodes w t st u h m =
      let written = (reconcile matches before c w st).1.0 in
      let unassigned =
        t.status.node == ""
        || not (node_still_valid (w.get_node t.status.node) t.spec.node_selector) in
      elim (Bool-cases (has_one_type t)) [
        | inr b ↦
            let p = (fail w t one_of_required).0 in
            inl (
              kept t u written
                (IsStay-eq t p (ground (arith, h, b)) (fail-IsStay w t one_of_required)) m)
        | inl b ↦ elim (Bool-cases unassigned) [
          | inr q ↦
              let p = (manage_service c w t st).1.0 in
              inl (
                kept t u written
                  (IsStay-eq t p (ground (arith, h, b, q)) (manage_service-IsStay c w t st)) m)
          | inl q ↦
              let e : written ≡ (schedule matches before w t).0 = ground (arith, h, b, q) in
              elim (schedule-node matches before w t u (rw (sym e) m)) [
                | inl x ↦ inl x
                | inr (ip, x, y) ↦ inr (ip, x, y, q)
              ]
        ]
      ]
