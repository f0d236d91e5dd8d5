-- ===== src/Config/Validate.antt =====
-- ToSpecs and Validate of internal/config/config.go.
pub mod Ports
pub mod Keys
pub mod Order
pub mod Specs
use tunneld.Prelude.{
  String, Bool, true, false, Option, none, some, List, [], ◌∷◌, ◌==◌, GoMap, lookup, insert,
  if◌then◌else◌,
}
use tunneld.Errors.{Err, Result, ok, err, ◌>>=◌, wrapped, map_err, type_required, port_conflict}
use tunneld.Proto.{TunnelSpec}
use tunneld.Config.{TunnelConfig, Config}
use tunneld.Config.Convert.{to_proto, to_spec}
use tunneld.Tunnel.{Spec}
use tunneld.Tunnel.Ports.{local_port_keys}

-- The loop of ToSpecs: a disabled tunnel is skipped.
specs_from : GoMap TunnelConfig → GoMap Spec → Result (GoMap Spec)
specs_from [] specs = ok specs
specs_from ((name, t) ∷ rest) specs = elim t.enabled [
  | false ↦ specs_from rest specs
  | true ↦
      (map_err (wrapped name) (to_spec t name)) >>= λ spec. specs_from rest (insert name spec specs)
]

unfoldable pub to_specs : Config → Result (GoMap Spec)
unfolding specs_from
to_specs c = specs_from c.tunnels []

-- The first loop of Validate.
unfoldable pub check_types : GoMap TunnelConfig → Option Err
check_types [] = none
check_types ((name, t) ∷ rest) = elim t.enabled [
  | false ↦ check_types rest
  | true ↦
      if t.type == ""
      then some (type_required name)
      else elim (to_spec t name) [ err e ↦ some (wrapped name e) | ok spec ↦ check_types rest ]
]

-- The loop over the keys of one tunnel: `seen` maps a key to its owner.
unfoldable pub claim : String → List String → GoMap String → Result (GoMap String)
claim name [] seen = ok seen
claim name (key ∷ keys) seen = elim (lookup key seen) [
  | some owner ↦ err (port_conflict name owner key)
  | none ↦ claim name keys (insert key name seen)
]

-- proto, _ := t.ToProto(name): a failed conversion leaves a nil message, which claims nothing.
unfoldable pub keys_of : Result TunnelSpec → List String
keys_of (ok p) = local_port_keys p
keys_of (err e) = []

-- The second loop of Validate.
unfoldable pub check_ports : GoMap TunnelConfig → GoMap String → Option Err
unfolding claim keys_of
check_ports [] seen = none
check_ports ((name, t) ∷ rest) seen = elim t.enabled [
  | false ↦ check_ports rest seen
  | true ↦ elim (claim name (keys_of (to_proto t name)) seen) [
    | err e ↦ some e
    | ok seen' ↦ check_ports rest seen'
  ]
]

unfoldable pub validate : Config → Option Err
unfolding check_types check_ports
validate c = elim (check_types c.tunnels) [ some e ↦ some e | none ↦ check_ports c.tunnels [] ]
