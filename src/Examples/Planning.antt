-- ===== src/Examples/Planning.antt =====
-- A plan of two tunnels, one of which depends on the other.
use mathlib.Core.List.{Perm}
use tunneld.Prelude.{
  HasUniqueKeys, String, pos, ◌≡◌, refl, List, [], ◌∷◌, GoMap, lookup, some, Memᴰ,
}
use tunneld.Errors.{ok}
use tunneld.Tunnel.{Spec}
use tunneld.Dependency.{Planner, new_planner, plan, connect_deps}
use tunneld.Dependency.Laws.{Before, range_from}
use tunneld.Dependency.Plan.{values, plan-perm, plan_ordered}
use tunneld.Examples.Samples.{spec}
use tunneld.Examples.Graph.{Digraph, digraphs, digraphs-laws}

abbrev db : Spec
db = spec "db" [] (pos 5432)

abbrev web : Spec
web = spec "web" ("db" ∷ []) (pos 8080)

abbrev planner : Planner Digraph
unfolding new_planner
planner = new_planner digraphs (("db", db) ∷ ("web", web) ∷ [])

planned : (plan digraphs planner).1 ≡ ok (db ∷ web ∷ [])
unfolding plan planner connect_deps lookup tunneld.Prelude.insert range_from
planned = refl

unique : HasUniqueKeys planner.specs
unfolding new_planner lookup
unique = (refl, (refl, tt))

plan-perm_example : Perm (db ∷ web ∷ []) (values planner.specs)
plan-perm_example = plan-perm digraphs digraphs-laws planner (db ∷ web ∷ []) unique planned

plan_ordered_example :
    (t : Spec) × (lookup "db" planner.specs ≡ some t) × Before t web (db ∷ web ∷ [])
unfolding planner
plan_ordered_example =
    plan_ordered digraphs digraphs-laws planner (db ∷ web ∷ []) unique planned "web" web "db"
      (Memᴰ.tail (Memᴰ.head refl)) (Memᴰ.head refl)
