-- ===== src/Replication/Relay/Cache/Bounds.antt =====
-- The cache never holds more than `MAX_RELAY_DEDUP` entries, nor a key twice.
use mesh_lab.Prelude.{
  ℕ, ◌≤◌, ◌<◌, ◌≡◌, inl, inr, Bool, true, false, [], ◌∷◌, length, ltb, leb, if◌then◌else◌, arith,
  Bool-cases,
}
use mesh_lab.Prelude.Ord.{cmp_self}
use mesh_lab.Prelude.OrdMap.{
  OrdMap, IsSorted, insert-IsSorted, remove-IsSorted, retain-IsSorted, length-insert_le,
  length-remove_contained, contains_key, length-retain_le,
}
use mesh_lab.Durable.{MemberId}
use mesh_lab.Replication.Relay.{RelayFrame, max_relay_dedup}
use mesh_lab.Replication.Relay.Cache.{
  RelayKey, SeenRelay, RelayCache, key_ord, new, expire_seen, earlier, min_from, oldest_key,
  remove_oldest, reserve, key_of, decide, accept,
}

pub record IsValid (c : RelayCache) : Type 0 where
  pub bounded : length c.seen ≤ max_relay_dedup
  pub sorted : IsSorted c.seen

pub new-IsValid : (local : MemberId) → IsValid (new local)
unfolding new
new-IsValid local = record { bounded = omega arith; sorted = tt }

least_of_two :
    (k j : RelayKey) (s t : SeenRelay) (m : OrdMap RelayKey SeenRelay) (b : Bool)
    → contains_key (min_from j t m) ((j, t) ∷ m) ≡ true
    → contains_key (min_from k s m) ((k, s) ∷ m) ≡ true
    → contains_key (min_from (if b then j else k) (if b then t else s) m) ((k, s) ∷ (j, t) ∷ m)
      ≡ true
unfolding contains_key
least_of_two k j s t m true hj hk = ground (arith, hj)
least_of_two k j s t m false hj hk = ground (arith, hk)

min_from-present :
    (k : RelayKey) (s : SeenRelay) (m : OrdMap RelayKey SeenRelay)
    → contains_key (min_from k s m) ((k, s) ∷ m) ≡ true
unfolding min_from contains_key
min_from-present k s [] = rw (cmp_self k)
min_from-present k s ((j, t) ∷ m) =
    least_of_two k j s t m (earlier t s) (min_from-present j t m) (min_from-present k s m)

remove_oldest-shorter :
    (m : OrdMap RelayKey SeenRelay) → 1 ≤ length m → length (remove_oldest m) < length m
unfolding oldest_key
remove_oldest-shorter [] h = absurd (omega arith)
remove_oldest-shorter ((k, s) ∷ m) h =
    length-remove_contained (min_from k s m) ((k, s) ∷ m) (min_from-present k s m)

remove_oldest-IsSorted : (m : OrdMap RelayKey SeenRelay) → IsSorted m → IsSorted (remove_oldest m)
unfolding oldest_key
remove_oldest-IsSorted [] s = tt
remove_oldest-IsSorted ((k, v) ∷ m) s = remove-IsSorted (min_from k v m) ((k, v) ∷ m) s

reserve-IsValid :
    (key : RelayKey) (expires_at now : ℕ) (c : RelayCache)
    → IsValid c
    → IsValid (reserve key expires_at now c)
unfolding reserve
reserve-IsValid key expires_at now c v =
    let entry : SeenRelay = record { expires_at = expires_at; received_at = now } in
    let less = remove_oldest c.seen in
    elim (Bool-cases (leb max_relay_dedup (length c.seen))) [
      | inl full ↦ rw full (record {
        bounded =
            ground (
              arith,
              v.bounded,
              full,
              remove_oldest-shorter c.seen,
              length-insert_le key entry less,
            );
        sorted = insert-IsSorted key entry less (remove_oldest-IsSorted c.seen v.sorted);
      })
      | inr free ↦ rw free (record {
        bounded = ground (arith, free, length-insert_le key entry c.seen);
        sorted = insert-IsSorted key entry c.seen v.sorted;
      })
    ]

expire_seen-IsValid : (now : ℕ) (c : RelayCache) → IsValid c → IsValid (expire_seen now c)
unfolding expire_seen
expire_seen-IsValid now c v = record {
  bounded =
      omega (arith, v.bounded, length-retain_le (λ _ (s : SeenRelay). ltb now s.expires_at) c.seen);
  sorted = retain-IsSorted (λ _ s. ltb now s.expires_at) c.seen v.sorted;
}

decide-IsValid :
    (frame : RelayFrame) (now : ℕ) (c : RelayCache) → IsValid c → IsValid (decide frame now c).1
unfolding decide
decide-IsValid frame now c v =
    ground (arith, v, reserve-IsValid (key_of frame) frame.expires_at now c v)

-- Whatever the frame, the neighbour and the time, and on every branch, the cache stays within its
-- bound with its keys distinct and in order.
pub accept-IsValid :
    (frame : RelayFrame) (via : MemberId) (now : ℕ) (c : RelayCache)
    → IsValid c
    → IsValid (accept frame via now c).1
unfolding accept
accept-IsValid frame via now c v =
    ground (arith, v, decide-IsValid frame now (expire_seen now c) (expire_seen-IsValid now c v))
