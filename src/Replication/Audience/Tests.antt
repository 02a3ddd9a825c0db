-- ===== src/Replication/Audience/Tests.antt =====
-- A roster of twelve, in no order.
use mesh_lab.Prelude.{ℕ, ◌≤◌, ◌≡◌, refl, List, [], ◌∷◌, All, length, replicate, map, ok}
use mathlib.Core.List.{Permᴰ}
use mesh_lab.Prelude.Sort.{sort, insert_sorted}
use mesh_lab.Durable.{MemberId, member_ord}
use mesh_lab.Replication.Audience.{chunks, broadcast_audiences}
use mesh_lab.Replication.Audience.Partition.{concat, broadcast_audiences_inv}

abbrev member : ℕ → MemberId
member n = record { id = replicate 32 n }

abbrev roster : List MemberId
roster = map member (9 ∷ 2 ∷ 12 ∷ 1 ∷ 3 ∷ 4 ∷ 5 ∷ 6 ∷ 7 ∷ 8 ∷ 11 ∷ 10 ∷ [])

abbrev swapped : List MemberId
swapped = map member (2 ∷ 9 ∷ 12 ∷ 1 ∷ 3 ∷ 4 ∷ 5 ∷ 6 ∷ 7 ∷ 8 ∷ 11 ∷ 10 ∷ [])

abbrev audiences : List (List MemberId)
audiences = map member (1 ∷ 3 ∷ 4 ∷ 5 ∷ 6 ∷ 7 ∷ 8 ∷ 9 ∷ 10 ∷ 11 ∷ []) ∷ (member 12 ∷ []) ∷ []

twelve_cut : broadcast_audiences (member 2) roster ≡ ok audiences
unfolding broadcast_audiences sort insert_sorted chunks
twelve_cut = refl

broadcast_audiences_inv_example :
    Permᴰ (member 2 ∷ concat audiences) roster
    × All (λ group. (1 ≤ length group) × (length group ≤ 10)) audiences
    × (length audiences ≤ 5)
broadcast_audiences_inv_example = broadcast_audiences_inv (member 2) roster audiences twelve_cut
