-- ===== src/Prelude/Text.antt =====
-- The texts that `fmt.Sprintf` and `net.JoinHostPort` build, and tests on texts.
use Prim.Native.Nat.{ℕ, zero, suc, ◌+◌, ◌/◌, ◌%◌}
use Prim.Native.String.{String, ◌++◌}
use mathlib.Core.Bool.{Bool, true, false}
use mathlib.Core.List.{List, [], ◌∷◌}
use text.Mathlib.Text.{find?, ◌==◌}
use tunneld.Prelude.Tests.{ltb, eqb, is_some, if◌then◌else◌}
use tunneld.Prelude.Int.{ℤ, pos, negsuc}

-- s + t
infixr 65 ◌<>◌
abbrev pub ◌<>◌ : String → String → String
s <> t = s ++ t

-- strings.Contains(s, sub)
abbrev pub contains : String → String → Bool
contains s sub = is_some (find? s sub)

digit : ℕ → String
digit d =
    if eqb d 0
    then "0"
    else if eqb d 1
    then "1"
    else if eqb d 2
    then "2"
    else if eqb d 3
    then "3"
    else if eqb d 4
    then "4"
    else if eqb d 5
    then "5"
    else if eqb d 6
    then "6"
    else if eqb d 7
    then "7"
    else if eqb d 8
    then "8"
    else "9"

-- Each round takes one digit off, so `n + 1` rounds are enough.
decimal : ℕ → ℕ → String
unfolding digit
decimal zero n = ""
decimal (suc f) n =
    let more = decimal f (n / 10) in if ltb n 10 then digit n else more <> digit (n % 10)

-- fmt.Sprintf("%d", z) and strconv.Itoa
unfoldable pub show : ℤ → String
unfolding decimal
show (pos n) = decimal (n + 1) n
show (negsuc n) = "-" <> decimal (n + 2) (n + 1)

-- net.JoinHostPort: a host with a colon is put in brackets.
unfoldable pub join_host_port : String → String → String
join_host_port host port =
    if contains host ":" then "[" <> host <> "]:" <> port else host <> ":" <> port

-- membership of a text in a list
unfoldable pub elem : String → List String → Bool
elem k [] = false
elem k (x ∷ xs) = if x == k then true else elem k xs
