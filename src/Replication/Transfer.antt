-- ===== src/Replication/Transfer.antt =====
-- crates/mesh-replication/src/lib.rs: `plan`, the missing chunks that are sent next.
pub mod Budget
mod Tests
use mesh_lab.Prelude.{
  ℕ, ◌+◌, ◌-◌, ◌*◌, min, Bool, true, false, not, ◌&&◌, ◌||◌, List, [], ◌∷◌, length, any, ltb, leb,
  if◌then◌else◌, ok, err, ◌>>=◌, ◌>>◌, reject,
}
use mesh_lab.Durable.{Outcome, invalid_input, expired, max_logical_time, max_chunks, chunk_bytes}
use mesh_lab.Object.{Manifest}

-- `missing.windows(2).all(|v| v[0] < v[1])`
abbrev pub in_order : List ℕ → Bool
in_order [] = true
in_order (i ∷ []) = true
in_order (i ∷ j ∷ rest) = ltb i j && in_order (j ∷ rest)

-- The length of the chunk; an index in range lies within the content.
abbrev pub chunk_length : Manifest → ℕ → ℕ
chunk_length m index = min (m.content_len - index * chunk_bytes) chunk_bytes

-- The loop, which stops at the first chunk that does not fit.
unfoldable pub within : Manifest → ℕ → List ℕ → List ℕ
within m budget [] = []
within m budget (index ∷ rest) =
    let more = within m (budget - chunk_length m index) rest in
    if ltb budget (chunk_length m index) then [] else index ∷ more

abbrev pub ill_formed : Manifest → List ℕ → ℕ → Bool
ill_formed m missing now =
    ltb max_logical_time now
    || ltb max_chunks (length missing)
    || not (in_order missing)
    || any (λ i. leb (length m.hashes) i) missing

pub plan : Manifest → List ℕ → ℕ → ℕ → ℕ → Outcome (List ℕ)
unfolding within
plan m missing now hops byte_budget = do
  reject (ill_formed m missing now) invalid_input
  reject (leb m.expires_at now) expired
  ok (if leb m.hop_limit hops then [] else within m byte_budget missing)
