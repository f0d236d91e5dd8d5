-- ===== src/Examples/Cluster.antt =====
-- Resources of the cluster.
use tunneld.Prelude.{
  ℕ, ◌≡◌, ◌↔◌, refl, String, ℤ, pos, Bool, true, false, Option, none, some, List, [], ◌∷◌, arith,
  Memᴰ, GoMap, lookup, ◌⊎◌, ◌==◌, eq_iff, if◌then◌else◌, Bool-cases, inl, inr,
}
use tunneld.Errors.{Err, ok, err}
use tunneld.Proto
use tunneld.K8s.Types.{
  TunnelPhase, pending, healthy, degraded, Tunnel, TunnelGroupMemberStatus, TunnelKeyPhase,
  TunnelKeyStatus, TunnelKey, Secret, Node, Condition, Got, found, absent, done,
}
use tunneld.K8s.Convert.{to_proto}
use tunneld.K8s.Convert.Accepts.{to_proto-has_one_type}
use tunneld.K8s.Agent.{World, reconcile, resolve_key}
use tunneld.K8s.Agent.References.{reference, resolve_key-to_proto}
use tunneld.K8s.Agent.Uploads.{pushed, IsUploaded, reconcile-pushed}
use tunneld.K8s.Nodes.{pick_node, node_internal_ip}
use tunneld.K8s.Nodes.Picking.{is_eligible, IsFirst, pick_node_lem}
use tunneld.K8s.Groups.{aggregate_phase}
use tunneld.K8s.Groups.Phases.{some_member, is_failed, is_degraded, is_pending, aggregate_phase_lem}
use tunneld.K8s.Keys
use tunneld.K8s.Keys.Settled.{reconcile_settles}
use tunneld.K8s.Scheduling.{has_one_type}

abbrev pub tunnel : Tunnel
tunnel = record {
  namespace = "prod";
  name = "db";
  generation = pos 1;
  labels = [];
  spec = record {
    depends_on = [];
    ssh = some (record {
      user = "me";
      host = "bastion";
      port = pos 22;
      identity_key_ref = none;
      identity_key_secret_ref = some (record { name = "ssh"; key = "id" });
      local_forwards = [];
      options = [];
    });
    kubectl = none;
    health = none;
    restart = none;
    startup_timeout = none;
    shutdown_timeout = none;
    node_selector = [];
    expose = none;
  };
  status = record {
    phase = pending;
    node = "node-1";
    resolved_forwards = [];
    service_ref = none;
    observed_generation = pos 0;
    conditions = [];
    last_error = none;
  };
}

abbrev world : World
world = record {
  get_tunnel = found tunnel;
  get_key = λ name. absent;
  get_secret = λ name. found (record { name = name; data_of = ("id", 1 ∷ []) ∷ [] });
  add_key = λ name content. none;
  update = λ spec. none;
  status = λ name. ok [];
  patch = λ st. none;
}

abbrev thousandth : ℤ → ℕ
thousandth z = 0

abbrev sent : Proto.TunnelSpec
sent = record {
  name = "prod--db";
  depends_on = [];
  type = Proto.ssh (record {
    user = "me";
    host = "bastion";
    port = pos 22;
    identity_key_file = "";
    local_forwards = [];
    options = [];
    identity_key_ref = "prod--ssh";
  });
  health = none;
  restart = none;
  startup_timeout = none;
  shutdown_timeout = none;
}

sent-pushed : pushed (reconcile thousandth world "node-1" "prod" "db").0 ≡ sent ∷ []
unfolding pushed reconcile lookup tunneld.K8s.Convert.daemon_key_name to_proto
    tunneld.K8s.Convert.daemon_tunnel_name tunneld.K8s.Convert.key_ref
sent-pushed = refl

reconcile-pushed_example :
    (t : Tunnel) × (k : Option (String × List ℕ)) × (world.get_tunnel ≡ found t)
    × (t.status.node ≡ "node-1")
    × (to_proto thousandth t ≡ ok sent)
    × (resolve_key world t ≡ ok k)
    × IsUploaded world k
    × (pushed (reconcile thousandth world "node-1" "prod" "db").0 ≡ sent ∷ [])
reconcile-pushed_example =
    reconcile-pushed thousandth world "node-1" "prod" "db" (rw sent-pushed (Memᴰ.head refl))

to_proto-has_one_type_example :
    ((p : Proto.TunnelSpec) × (to_proto thousandth tunnel ≡ ok p)) ↔ (has_one_type tunnel ≡ true)
to_proto-has_one_type_example = to_proto-has_one_type thousandth tunnel

-- An order on the names of two nodes.
abbrev pub before : String → String → Bool
before a b = if a == "node-1" then b == "node-2" else false

before-irreflexive : (a : String) → before a a ≡ false
before-irreflexive a = elim (Bool-cases (a == "node-1")) [
  | inl e ↦ ground (arith, e, eq_iff a "node-1", eq_iff a "node-2", eq_iff "node-1" "node-2")
  | inr e ↦ ground (arith, e)
]

before-transitive : (a b c : String) → before a b ≡ true → before b c ≡ true → before a c ≡ true
before-transitive a b c h k =
    absurd (ground (arith, h, k, eq_iff b "node-1", eq_iff b "node-2", eq_iff "node-1" "node-2"))

abbrev node : String → Node
node name = record {
  name = name;
  labels = [];
  conditions = record { is_ready_type = true; is_true = true } ∷ [];
  addresses = [];
}

abbrev pub matches : GoMap String → GoMap String → Bool
matches selector labels = true

abbrev pub nodes : List Node
nodes = node "node-2" ∷ node "node-1" ∷ []

pick_node_lem_example :
    (((e : Err) × (pick_node matches before (ok nodes) [] ≡ err e))
      × ((m : Node) → Memᴰ m nodes → is_eligible matches before [] m ≡ false))
    ⊎ ((n : Node) × (pick_node matches before (ok nodes) [] ≡ ok (n.name, node_internal_ip n))
        × Memᴰ n nodes
        × (is_eligible matches before [] n ≡ true)
        × IsFirst matches before [] n nodes)
pick_node_lem_example = pick_node_lem matches before before-irreflexive before-transitive [] nodes

abbrev ready_member : TunnelGroupMemberStatus
ready_member = record { name = "db"; phase = healthy }

abbrev slow_member : TunnelGroupMemberStatus
slow_member = record { name = "web"; phase = degraded }

aggregate_phase_lem_example : aggregate_phase (ready_member ∷ slow_member ∷ []) ≡ (
    if some_member is_failed (ready_member ∷ slow_member ∷ [])
    then TunnelPhase.failed
    else if some_member is_degraded (ready_member ∷ slow_member ∷ [])
    then degraded
    else if some_member is_pending (ready_member ∷ slow_member ∷ [])
    then pending
    else healthy)
aggregate_phase_lem_example = aggregate_phase_lem ready_member (slow_member ∷ [])

abbrev key : TunnelKey
key = record {
  namespace = "prod";
  name = "ssh";
  generation = pos 2;
  source = record { secret_ref = some (record { name = "ssh"; key = "id" }) };
  status = record {
    phase = TunnelKeyPhase.pending;
    last_error = none;
    observed_generation = pos 1;
  };
}

abbrev secrets : String → Got Secret
secrets name = found (record { name = name; data_of = ("id", 1 ∷ []) ∷ [] })

abbrev settled : TunnelKeyStatus
settled = record { phase = TunnelKeyPhase.ready; last_error = none; observed_generation = pos 2 }

-- Two texts, compared no further than as empty or not.
abbrev same : Option Err → Option Err → Bool
same none none = true
same (some a) (some b) = true
same _ _ = false

same_refl : (e : Option Err) → same e e ≡ true
same_refl none = refl
same_refl (some e) = refl

settles : Keys.reconcile same (λ st. none) (found key) secrets ≡ (some settled, done)
unfolding Keys.reconcile lookup
settles = refl

reconcile_settles_example :
    Keys.reconcile same (λ st. none) (found (record key { status = settled })) secrets
    ≡ (none, done)
reconcile_settles_example = reconcile_settles same (λ st. none) same_refl key secrets settles

abbrev condition : Condition
condition = record {
  type = "Ready";
  status = false;
  reason = "Degraded";
  message = Err.io "no node";
  last_transition_time = 5;
  observed_generation = pos 1;
}

abbrev labels : GoMap String
labels = ("app", "db") ∷ []

abbrev more_labels : GoMap String
more_labels = ("tier", "back") ∷ []

resolve_key-to_proto_example : "prod--ssh" ≡ reference sent.type
unfolding resolve_key lookup tunneld.K8s.Convert.daemon_key_name to_proto
    tunneld.K8s.Convert.daemon_tunnel_name tunneld.K8s.Convert.key_ref
resolve_key-to_proto_example =
    resolve_key-to_proto thousandth world tunnel "prod--ssh" (1 ∷ []) sent
      (λ n k e. absurd (ground (arith, e))) refl refl
