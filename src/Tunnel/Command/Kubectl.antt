-- ===== src/Tunnel/Command/Kubectl.antt =====
-- The command line of kubectl, whose flags may stand anywhere among the other arguments.
use mathlib.Core.List.{append-nil}
use tunneld.Prelude.{
  String, ◌≡◌, refl, Bool, true, false, not, ◌||◌, Option, none, some, List, [], ◌∷◌, ◌++◌, map,
  arith, ◌==◌, ◌<>◌, show, if◌then◌else◌, Bool-cases, inl, inr, All,
}
use tunneld.Proto.{KubectlForward, KubectlSpec}
use tunneld.Tunnel.Command.{pair_args, address_args, when, kubectl_args}
use tunneld.Tunnel.Command.Reads.{only, is_flag}

-- What a command line asks for.
pub record Forwarding : Type 0 where
  pub kubeconfigs : List String
  pub contexts : List String
  pub servers : List String
  pub insecure : Bool
  pub namespaces : List String
  pub addresses : List String
  pub positional : List String

abbrev plain : List String → Forwarding
plain positional = record {
  kubeconfigs = [];
  contexts = [];
  servers = [];
  insecure = false;
  namespaces = [];
  addresses = [];
  positional = positional;
}

-- A flag with its argument; any other flag than these is refused.
with_flag : String → String → Option Forwarding → Option Forwarding
with_flag x y none = none
with_flag x y (some a) =
    if x == "--kubeconfig"
    then some (record a { kubeconfigs = y ∷ a.kubeconfigs })
    else if x == "--context"
    then some (record a { contexts = y ∷ a.contexts })
    else if x == "--server"
    then some (record a { servers = y ∷ a.servers })
    else if x == "-n"
    then some (record a { namespaces = y ∷ a.namespaces })
    else if x == "--address"
    then some (record a { addresses = y ∷ a.addresses })
    else none

insecurely : Option Forwarding → Option Forwarding
insecurely none = none
insecurely (some a) = some (record a { insecure = true })

behind : String → Option Forwarding → Option Forwarding
behind x none = none
behind x (some a) = some (record a { positional = x ∷ a.positional })

-- One flag holds its value, each other takes the next argument whatever that is, and what is no
-- flag is positional.
pub read : List String → Option Forwarding
unfolding with_flag insecurely behind
read [] = some (plain [])
read (x ∷ []) =
    if is_flag x
    then if x == "--insecure-skip-tls-verify=true"
      then some (record (plain []) { insecure = true })
      else none
    else some (plain (x ∷ []))
read (x ∷ y ∷ rest) =
    let alone = read (y ∷ rest) in
    let paired = read rest in
    if is_flag x
    then if x == "--insecure-skip-tls-verify=true" then insecurely alone else with_flag x y paired
    else behind x alone

read-when_kubeconfig :
    (b : Bool) (x : String) (rest : List String) (a : Forwarding)
    → read rest ≡ some a
    → read (when b ("--kubeconfig" ∷ x ∷ []) ++ rest)
      ≡ some (record a { kubeconfigs = only b x ++ a.kubeconfigs })
unfolding read when with_flag
read-when_kubeconfig true x rest a h = ground (arith, h)
read-when_kubeconfig false x rest a h = h

read-when_context :
    (b : Bool) (x : String) (rest : List String) (a : Forwarding)
    → read rest ≡ some a
    → read (when b ("--context" ∷ x ∷ []) ++ rest)
      ≡ some (record a { contexts = only b x ++ a.contexts })
unfolding read when with_flag
read-when_context true x rest a h = ground (arith, h)
read-when_context false x rest a h = h

read-when_server :
    (b : Bool) (x : String) (rest : List String) (a : Forwarding)
    → read rest ≡ some a
    → read (when b ("--server" ∷ x ∷ []) ++ rest)
      ≡ some (record a { servers = only b x ++ a.servers })
unfolding read when with_flag
read-when_server true x rest a h = ground (arith, h)
read-when_server false x rest a h = h

read-when_namespace :
    (b : Bool) (x : String) (rest : List String) (a : Forwarding)
    → read rest ≡ some a
    → read (when b ("-n" ∷ x ∷ []) ++ rest)
      ≡ some (record a { namespaces = only b x ++ a.namespaces })
unfolding read when with_flag
read-when_namespace true x rest a h = ground (arith, h)
read-when_namespace false x rest a h = h

read-when_insecure :
    (b : Bool) (rest : List String) (a : Forwarding)
    → read rest ≡ some a
    → read (when b ("--insecure-skip-tls-verify=true" ∷ []) ++ rest)
      ≡ some (record a { insecure = b || a.insecure })
unfolding read when insecurely
read-when_insecure true [] a h = ground (arith, h)
read-when_insecure true (y ∷ rest) a h = ground (arith, h)
read-when_insecure false rest a h = h

read-positional :
    (x : String) (rest : List String) (a : Forwarding)
    → is_flag x ≡ false
    → read rest ≡ some a
    → read (x ∷ rest) ≡ some (record a { positional = x ∷ a.positional })
unfolding read behind
read-positional x [] a f h = ground (arith, f, h)
read-positional x (y ∷ rest) a f h = ground (arith, f, h)

-- "local:remote"
abbrev pub pair_text : KubectlForward → String
pair_text f = show f.local_port <> ":" <> show f.remote_port

read-pairs :
    (forwards : List KubectlForward)
    → All (λ f. is_flag (pair_text f) ≡ false) forwards
    → read (pair_args forwards) ≡ some (plain (map pair_text forwards))
unfolding pair_args read
read-pairs [] h = refl
read-pairs (f ∷ fs) (h, hs) =
    read-positional (pair_text f) (pair_args fs) (plain (map pair_text fs)) h (read-pairs fs hs)

-- The address of the first forward, if it has one.
abbrev first_address : List KubectlForward → List String
first_address [] = []
first_address (f ∷ fs) = only (not (f.local_address == "")) f.local_address

read-address_args :
    (forwards : List KubectlForward) (rest : List String) (a : Forwarding)
    → read rest ≡ some a
    → read (address_args forwards ++ rest)
      ≡ some (record a { addresses = first_address forwards ++ a.addresses })
unfolding read address_args with_flag
read-address_args [] rest a h = h
read-address_args (f ∷ fs) rest a h = elim (Bool-cases (f.local_address == "")) [
  | inl e ↦ ground (arith, e, h)
  | inr e ↦ ground (arith, e, h)
]

or-false : (b : Bool) → (b || false) ≡ b
or-false true = refl
or-false false = refl

-- If neither the resource nor a pair of ports begins with "-", then the command line of kubectl is
-- read without a refusal and asks for exactly this: the kubeconfig, the context, the server and the
-- namespace that are not empty; certificates left unchecked where the spec says so; the address of
-- the first forward if that is not empty; and port-forward of the resource with the two ports of
-- each forward in order.
pub read-kubectl_args :
    (kubeconfig : String) (k : KubectlSpec)
    → is_flag k.resource ≡ false
    → All (λ f. is_flag (pair_text f) ≡ false) k.forwards
    → read (kubectl_args kubeconfig k)
      ≡ some (record {
        kubeconfigs = only (not (kubeconfig == "")) kubeconfig;
        contexts = only (not (k.context == "")) k.context;
        servers = only (not (k.api_server == "")) k.api_server;
        insecure = k.insecure_skip_tls_verify;
        namespaces = only (not (k.namespace == "")) k.namespace;
        addresses = first_address k.forwards;
        positional = "port-forward" ∷ k.resource ∷ map pair_text k.forwards;
      })
unfolding kubectl_args
read-kubectl_args kubeconfig k h hs =
    let b = not (kubeconfig == "") in
    let c = not (k.context == "") in
    let d = not (k.api_server == "") in
    let e = k.insecure_skip_tls_verify in
    let g = not (k.namespace == "") in
    let r₀ = k.resource ∷ pair_args k.forwards in
    let a₀ = plain (k.resource ∷ map pair_text k.forwards) in
    let e₀ : read r₀ ≡ some a₀ =
      read-positional k.resource (pair_args k.forwards) (plain (map pair_text k.forwards)) h
        (read-pairs k.forwards hs) in
    let r₁ = address_args k.forwards ++ r₀ in
    let a₁ = record a₀ { addresses = first_address k.forwards ++ [] } in
    let e₁ : read r₁ ≡ some a₁ = read-address_args k.forwards r₀ a₀ e₀ in
    let r₂ = "port-forward" ∷ r₁ in
    let a₂ = record a₁ { positional = "port-forward" ∷ k.resource ∷ map pair_text k.forwards } in
    let e₂ : read r₂ ≡ some a₂ = read-positional "port-forward" r₁ a₁ refl e₁ in
    let r₃ = when g ("-n" ∷ k.namespace ∷ []) ++ r₂ in
    let a₃ = record a₂ { namespaces = only g k.namespace ++ [] } in
    let e₃ : read r₃ ≡ some a₃ = read-when_namespace g k.namespace r₂ a₂ e₂ in
    let r₄ = when e ("--insecure-skip-tls-verify=true" ∷ []) ++ r₃ in
    let a₄ = record a₃ { insecure = e || false } in
    let e₄ : read r₄ ≡ some a₄ = read-when_insecure e r₃ a₃ e₃ in
    let r₅ = when d ("--server" ∷ k.api_server ∷ []) ++ r₄ in
    let a₅ = record a₄ { servers = only d k.api_server ++ [] } in
    let e₅ : read r₅ ≡ some a₅ = read-when_server d k.api_server r₄ a₄ e₄ in
    let r₆ = when c ("--context" ∷ k.context ∷ []) ++ r₅ in
    let a₆ = record a₅ { contexts = only c k.context ++ [] } in
    let e₆ : read r₆ ≡ some a₆ = read-when_context c k.context r₅ a₅ e₅ in
    rw
      (
        read-when_kubeconfig b kubeconfig r₆ a₆ e₆,
        append-nil (first_address k.forwards),
        append-nil (only b kubeconfig),
        append-nil (only c k.context),
        append-nil (only d k.api_server),
        append-nil (only g k.namespace),
        or-false e,
      )
      refl
