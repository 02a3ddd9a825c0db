-- ===== src/Replication/Neighbors/Tests.antt =====
-- Six phones in a ring with three chords.
use mesh_lab.Prelude.{ℕ, ◌≡◌, refl, true, List, [], ◌∷◌, some, any, replicate, map, ok}
use mathlib.Core.List.{Permᴰ}
use mesh_lab.Prelude.Ord.{equal}
use mesh_lab.Prelude.Sort.{sort, insert_sorted}
use mesh_lab.Durable.{MemberId, member_ord}
use mesh_lab.Replication.Neighbors.{NeighborPlan, neighbor_plan}
use mesh_lab.Replication.Neighbors.Symmetry.{neighbor_plan-wifi, neighbor_plan_order}

abbrev member : ℕ → MemberId
member n = record { id = replicate 32 n }

abbrev roster : List MemberId
roster = map member (4 ∷ 2 ∷ 6 ∷ 1 ∷ 3 ∷ 5 ∷ [])

abbrev swapped : List MemberId
swapped = map member (2 ∷ 4 ∷ 6 ∷ 1 ∷ 3 ∷ 5 ∷ [])

abbrev plan_of_1 : NeighborPlan
plan_of_1 = record { wifi_aware = member 6 ∷ member 2 ∷ []; bluetooth_fallback = some (member 4) }

abbrev plan_of_4 : NeighborPlan
plan_of_4 = record { wifi_aware = member 3 ∷ member 5 ∷ []; bluetooth_fallback = some (member 1) }

abbrev plan_of_6 : NeighborPlan
plan_of_6 = record { wifi_aware = member 5 ∷ member 1 ∷ []; bluetooth_fallback = some (member 3) }

plan_1 : neighbor_plan (member 1) roster ≡ ok plan_of_1
unfolding neighbor_plan sort insert_sorted
plan_1 = refl

plan_4 : neighbor_plan (member 4) roster ≡ ok plan_of_4
unfolding neighbor_plan sort insert_sorted
plan_4 = refl

plan_6 : neighbor_plan (member 6) roster ≡ ok plan_of_6
unfolding neighbor_plan sort insert_sorted
plan_6 = refl

neighbor_plan-wifi_example : any (equal (member 1)) plan_of_6.wifi_aware ≡ true
neighbor_plan-wifi_example =
    neighbor_plan-wifi (member 1) (member 6) roster plan_of_1 plan_of_6 plan_1 plan_6 refl

neighbor_plan_order_example : neighbor_plan (member 1) roster ≡ neighbor_plan (member 1) swapped
neighbor_plan_order_example = neighbor_plan_order (member 1) roster swapped (Permᴰ.swap refl refl)
