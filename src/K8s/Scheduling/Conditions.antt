-- ===== src/K8s/Scheduling/Conditions.antt =====
-- The conditions of a Tunnel.
use tunneld.Prelude.{
  ◌≡◌, refl, String, Option, none, some, List, [], ◌∷◌, arith, if◌then◌else◌, ◌==◌, eq_iff,
}
use tunneld.K8s.Types.{Condition}
use tunneld.K8s.Scheduling.{set_condition}

types : List Condition → List String
types [] = []
types (c ∷ cs) = c.type ∷ types cs

-- The condition of a type.
unfoldable pub find_condition : String → List Condition → Option Condition
find_condition type [] = none
find_condition type (c ∷ cs) = if c.type == type then some c else find_condition type cs

-- setCondition sets the condition of its type and keeps those of the others.
pub find-set_condition :
    (cond : Condition) (type : String) (cs : List Condition)
    → find_condition type (set_condition cond cs)
      ≡ (if cond.type == type then some cond else find_condition type cs)
unfolding find_condition set_condition
find-set_condition cond type [] = refl
find-set_condition cond type (c ∷ cs) = ground (
  arith,
  find-set_condition cond type cs,
  eq_iff c.type cond.type,
  eq_iff c.type type,
  eq_iff cond.type type,
)
