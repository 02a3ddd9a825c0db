-- ===== src/Replication/Audience.antt =====
-- crates/mesh-replication/src/lib.rs: `broadcast_audiences`, a group message cut into audiences.
pub mod Partition
mod Tests
use mesh_lab.Prelude.{
  ℕ, zero, suc, ◌+◌, Bool, true, false, not, ◌||◌, List, [], ◌∷◌, ◌++◌, Option, some, none, length,
  take, drop, select, ltb, ◌==◌, if◌then◌else◌, ok, err, ◌>>=◌, ◌>>◌, reject,
}
use mesh_lab.Prelude.Ord.{equal}
use mesh_lab.Prelude.Sort.{sort, ascending, position}
use mesh_lab.Durable.{Outcome, MemberId, member_ord, invalid_input, max_group_members, max_targets}

abbrev pub is_none {ℓ} : {A : Type ℓ} → Option A → Bool
is_none none = true
is_none (some _) = false

-- `chunks(size)`, with a step for each chunk at most.
unfoldable pub chunks {ℓ} : {A : Type ℓ} → ℕ → ℕ → List A → List (List A)
chunks zero size xs = []
chunks (suc steps) size [] = []
chunks (suc steps) size (x ∷ xs) = take size (x ∷ xs) ∷ chunks steps size (drop size (x ∷ xs))

abbrev pub others : MemberId → List MemberId → List MemberId
others local roster = select (λ member. not (equal member local)) roster

-- The checks on a sorted roster.
abbrev pub unfit : MemberId → List MemberId → Bool
unfit local roster = not (ascending roster) || is_none (position local roster)

pub broadcast_audiences : MemberId → List MemberId → Outcome (List (List MemberId))
broadcast_audiences local members = do
  reject (length members == 0 || ltb max_group_members (length members)) invalid_input
  let roster = sort members
  reject (unfit local roster) invalid_input
  ok (chunks (length roster) max_targets (others local roster))
