-- ===== src/K8s/Nodes.antt =====
-- k8s/controllers/scheduler.go and the two readers of nodes in tunnel_controller.go. `matches`
-- is the selector of k8s.io/apimachinery, labels.SelectorFromSet(selector).Matches. Go's order
-- `<` on names is a parameter, as the library has no order on texts.
pub mod Picking
use tunneld.Prelude.{
  String, Bool, true, false, not, ◌&&◌, Option, none, some, List, [], ◌∷◌, GoMap, lookup,
  if◌then◌else◌, ◌==◌,
}
use tunneld.Errors.{Err, Result, ok, err, io, wrapped}
use tunneld.K8s.Types.{
  AddressType, internal_ip, external_ip, other_address, NodeAddress, NodeCondition, Node, Got,
  found, absent, failing,
}

-- The loop of nodeInternalIP, with the external address that it keeps.
unfoldable pub internal_ip_from : String → List NodeAddress → String
internal_ip_from ext [] = ext
internal_ip_from ext (a ∷ addresses) =
    let skipped = internal_ip_from ext addresses in
    let kept = internal_ip_from a.address addresses in
    elim a.type [
      | internal_ip ↦ a.address
      | external_ip ↦ if ext == "" then kept else skipped
      | other_address ↦ skipped
    ]

-- nodeInternalIP
unfoldable pub node_internal_ip : Node → String
unfolding internal_ip_from
node_internal_ip n = internal_ip_from "" n.addresses

unfoldable pub ready_from : List NodeCondition → Bool
ready_from [] = false
ready_from (c ∷ cs) = let rest = ready_from cs in if c.is_ready_type then c.is_true else rest

-- isNodeReady
unfoldable pub is_node_ready : Node → Bool
unfolding ready_from
is_node_ready n = ready_from n.conditions

module _ (matches : GoMap String → GoMap String → Bool) (before : String → String → Bool) where
  -- The loop of pickNode.
  unfoldable pub choose : GoMap String → Option Node → List Node → Option Node
  unfolding is_node_ready
  choose selector chosen [] = chosen
  choose selector chosen (n ∷ ns) =
      let skipped = choose selector chosen ns in
      let taken = choose selector (some n) ns in
      if matches selector n.labels && is_node_ready n
      then elim chosen [ none ↦ taken | some c ↦ if before n.name c.name then taken else skipped ]
      else skipped

  -- pickNode: the name and the address of the node. `listed` answers client.List.
  unfoldable pub pick_node : Result (List Node) → GoMap String → Result (String × String)
  unfolding choose node_internal_ip
  pick_node listed selector = elim listed [
    | err e ↦ err (wrapped "list nodes" e)
    | ok nodes ↦ elim (choose selector none nodes) [
      | none ↦ err (io "no Ready node matches selector")
      | some n ↦ ok (n.name, node_internal_ip n)
    ]
  ]

-- n.Labels[k] of Go: "" for a missing key.
unfoldable pub label : String → GoMap String → String
label k m = elim (lookup k m) [ none ↦ "" | some v ↦ v ]

-- The loop of nodeStillValid over the selector.
unfoldable pub labels_agree : GoMap String → GoMap String → Bool
unfolding label
labels_agree [] labels = true
labels_agree ((k, v) ∷ selector) labels =
    if label k labels == v then labels_agree selector labels else false

-- nodeStillValid
unfoldable pub node_still_valid : Got Node → GoMap String → Bool
unfolding labels_agree is_node_ready
node_still_valid absent selector = false
node_still_valid (failing e) selector = false
node_still_valid (found n) selector =
    if labels_agree selector n.labels then is_node_ready n else false
