-- ===== src/Replication/Transfer/Tests.antt =====
-- Three chunks of an object of 2500 bytes, with room for two.
use mesh_lab.Prelude.{ℕ, ◌-◌, ◌≤◌, ◌<◌, ◌≡◌, ◌++◌, refl, List, [], ◌∷◌, replicate, ok, arith}
use mesh_lab.Durable.{MemberId}
use mesh_lab.Object.{Manifest}
use mesh_lab.Replication.Transfer.{within, plan}
use mesh_lab.Replication.Transfer.Budget.{total, Stops, plan_inv}

abbrev member : ℕ → MemberId
member n = record { id = replicate 32 n }

abbrev manifest : Manifest
manifest = record {
  origin = member 1;
  sequence = 1;
  namespace = record { name = 0x6d ∷ [] };
  epoch = 1;
  targets = member 2 ∷ [];
  expires_at = 100;
  hop_limit = 2;
  content_len = 2500;
  hashes = replicate 3 (replicate 32 0);
}

planned : plan manifest (0 ∷ 1 ∷ 2 ∷ []) 1 0 2048 ≡ ok (0 ∷ 1 ∷ [])
unfolding plan within
planned = refl

plan_inv_example :
    (1 < 100)
    × (left : List ℕ) × (0 ∷ 1 ∷ 2 ∷ [] ≡ (0 ∷ 1 ∷ []) ++ left)
    × (total manifest (0 ∷ 1 ∷ []) ≤ 2048)
    × Stops manifest (2048 - total manifest (0 ∷ 1 ∷ [])) left
plan_inv_example = plan_inv manifest (0 ∷ 1 ∷ 2 ∷ []) 1 0 2048 (0 ∷ 1 ∷ []) planned (omega arith)
