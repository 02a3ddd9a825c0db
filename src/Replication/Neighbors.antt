-- ===== src/Replication/Neighbors.antt =====
-- crates/mesh-replication/src/lib.rs: `neighbor_plan`, the sparse overlay that each phone derives from
-- the roster.
pub mod Symmetry
mod Tests
use mesh_lab.Prelude.{
  ℕ, ◌+◌, ◌-◌, ◌*◌, ◌/◌, ◌%◌, Bool, true, false, not, ◌&&◌, ◌||◌, List, [], ◌∷◌, Option, some, none,
  length, get_or, ltb, leb, ◌==◌, if◌then◌else◌, ok, err, ◌>>=◌, ◌>>◌, reject, ok_or,
}
use mesh_lab.Prelude.Sort.{sort, ascending, position}
use mesh_lab.Durable.{Outcome, MemberId, member_ord, invalid_input, max_group_members}

pub record NeighborPlan : Type 0 where
  pub wifi_aware : List MemberId
  pub bluetooth_fallback : Option MemberId

-- `roster[i % count]`; the remainder is below the length, so the default `local` is not read.
abbrev pub around : List MemberId → MemberId → ℕ → MemberId
around roster local i = get_or roster (i % length roster) local

abbrev pub wifi_of : List MemberId → MemberId → ℕ → List MemberId
wifi_of roster local index =
    let count = length roster in
    if count == 1
    then []
    else if count == 2
    then around roster local (index + 1) ∷ []
    else around roster local (index + count - 1) ∷ around roster local (index + 1) ∷ []

abbrev pub bluetooth_of : List MemberId → MemberId → ℕ → Option MemberId
bluetooth_of roster local index =
    let count = length roster in
    if leb 4 count && count % 2 == 0 then some (around roster local (index + count / 2)) else none

pub neighbor_plan : MemberId → List MemberId → Outcome NeighborPlan
neighbor_plan local members = do
  reject (length members == 0 || ltb max_group_members (length members)) invalid_input
  let roster = sort members
  reject (not (ascending roster)) invalid_input
  index ← ok_or (position local roster) invalid_input
  ok (record {
    wifi_aware = wifi_of roster local index;
    bluetooth_fallback = bluetooth_of roster local index;
  })
