-- ===== src/Tunnel/Command/Reads.antt =====
-- The command line of ssh, read by its synopsis: flags, a destination and a command behind it.
use text.Mathlib.Text.{starts_with}
use tunneld.Prelude.{
  String, Bool, true, false, Option, none, some, List, [], ◌∷◌, ◌==◌, ◌<>◌, show, if◌then◌else◌,
}
use tunneld.Proto.{SshForward}
use tunneld.Tunnel.Ports.{listen_on}

-- What a command line asks for.
pub record Asked : Type 0 where
  pub no_command : Bool
  pub options : List String
  pub ports : List String
  pub identities : List String
  pub forwards : List String
  pub destination : Option String
  pub command : List String

abbrev reached : Option String → List String → Asked
reached destination command = record {
  no_command = false;
  options = [];
  ports = [];
  identities = [];
  forwards = [];
  destination = destination;
  command = command;
}

-- An argument that is taken for a flag.
abbrev pub is_flag : String → Bool
is_flag x = starts_with x "-"

-- A flag with its argument; any other flag than these is refused.
with_flag : String → String → Option Asked → Option Asked
with_flag x y none = none
with_flag x y (some a) =
    if x == "-o"
    then some (record a { options = y ∷ a.options })
    else if x == "-p"
    then some (record a { ports = y ∷ a.ports })
    else if x == "-i"
    then some (record a { identities = y ∷ a.identities })
    else if x == "-L"
    then some (record a { forwards = y ∷ a.forwards })
    else none

without_command : Option Asked → Option Asked
without_command none = none
without_command (some a) = some (record a { no_command = true })

-- -N stands alone, every other flag takes the next argument whatever that is, and the first
-- argument that is no flag is the destination, with the command behind it.
pub read : List String → Option Asked
unfolding with_flag without_command
read [] = some (reached none [])
read (x ∷ []) =
    if x == "-N"
    then some (record (reached none []) { no_command = true })
    else if is_flag x
    then none
    else some (reached (some x) [])
read (x ∷ y ∷ rest) =
    let alone = read (y ∷ rest) in
    let paired = read rest in
    if x == "-N"
    then without_command alone
    else if is_flag x
    then with_flag x y paired
    else some (reached (some x) (y ∷ rest))

-- "listen:port:target:port"
abbrev pub forward_text : SshForward → String
forward_text f =
    listen_on f.listen_address
    <> ":"
    <> show f.listen_port
    <> ":"
    <> f.target_host
    <> ":"
    <> show f.target_port

abbrev option_text : String × String → String
option_text b = b.0 <> "=" <> b.1

abbrev pub only : Bool → String → List String
only b x = if b then x ∷ [] else []
