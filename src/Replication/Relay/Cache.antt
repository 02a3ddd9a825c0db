-- ===== src/Replication/Relay/Cache.antt =====
-- crates/mesh-replication/src/lib.rs: `RelayCache`, the bounded forwarding gate.
pub mod Bounds
pub mod Once
pub mod Hops
mod Tests
use mesh_lab.Prelude.{
  Ordering, ℕ, ◌+◌, ◌≡◌, Bool, true, false, not, ◌&&◌, ◌||◌, List, [], ◌∷◌, Option, some, none,
  length, ltb, leb, ◌==◌, if◌then◌else◌, Result, ok, err, reject, arith,
}
use Prim.Native.Nat.Ordering.{lt, eq, gt}
use mesh_lab.Prelude.Ord.{
  Ord, equal, first, flip, cmp_bytes, cmp_bytes-flip, cmp_bytes-eq, cmp_bytes_trans,
}
use mesh_lab.Prelude.OrdMap.{OrdMap, contains_key, insert, remove, retain}
use mesh_lab.Durable.{Outcome, MemberId, member_ord, invalid_input, max_logical_time}
use mesh_lab.Replication.Relay.{RelayId, RelayFrame, max_relay_hops, max_relay_dedup}

pub record RelayKey : Type 0 where
  pub origin : MemberId
  pub id : RelayId

-- The derived order: by origin, then by identifier.
abbrev pub key_cmp : RelayKey → RelayKey → Ordering
key_cmp a b = first (cmp_bytes a.origin.id b.origin.id) (cmp_bytes a.id.id b.id.id)

key_of_parts : {a b : RelayKey} → a.origin.id ≡ b.origin.id → a.id.id ≡ b.id.id → a ≡ b
key_of_parts p q = λ i. record { origin = record { id = p i }; id = record { id = q i } }

pub key_cmp-flip : (a b : RelayKey) → key_cmp b a ≡ flip (key_cmp a b)
key_cmp-flip a b =
    ground (arith, cmp_bytes-flip a.origin.id b.origin.id, cmp_bytes-flip a.id.id b.id.id)

pub key_cmp-eq : (a b : RelayKey) → key_cmp a b ≡ eq → a ≡ b
key_cmp-eq a b h =
    key_of_parts (ground (arith, h, cmp_bytes-eq a.origin.id b.origin.id))
      (ground (arith, h, cmp_bytes-eq a.id.id b.id.id))

pub key_cmp_trans : (a b c : RelayKey) → key_cmp a b ≡ lt → key_cmp b c ≡ lt → key_cmp a c ≡ lt
key_cmp_trans a b c h k = ground (
  arith,
  h,
  k,
  cmp_bytes-eq a.origin.id b.origin.id,
  cmp_bytes-eq b.origin.id c.origin.id,
  cmp_bytes_trans a.origin.id b.origin.id c.origin.id,
  cmp_bytes_trans a.id.id b.id.id c.id.id,
)

instance abbrev pub key_ord : Ord RelayKey
key_ord = record {
  cmp = key_cmp;
  cmp_flip = key_cmp-flip;
  cmp_eq = key_cmp-eq;
  cmp_trans = key_cmp_trans;
}

pub data RelayDecision : Type 0 where
  forward : RelayFrame → RelayDecision
  duplicate expired hop_limit : RelayDecision

pub record SeenRelay : Type 0 where
  pub expires_at : ℕ
  pub received_at : ℕ

pub record RelayCache : Type 0 where
  pub local : MemberId
  pub seen : OrdMap RelayKey SeenRelay

pub new : MemberId → RelayCache
new local = record { local = local; seen = [] }

abbrev pub out_of_range : RelayFrame → MemberId → ℕ → Bool
out_of_range frame via now =
    ltb max_logical_time now
    || ltb max_logical_time frame.expires_at
    || not (equal frame.previous_hop via)
    || frame.hop_limit == 0
    || ltb max_relay_hops frame.hop_limit
    || ltb frame.hop_limit frame.hops

pub valid : RelayFrame → MemberId → ℕ → Outcome (Unit {0})
valid frame via now = reject (out_of_range frame via now) invalid_input

pub expire_seen : ℕ → RelayCache → RelayCache
expire_seen now c = record c { seen = retain (λ _ s. ltb now s.expires_at) c.seen }

-- `(seen.expires_at, seen.received_at)` of `s` is below that of `t`.
pub earlier : SeenRelay → SeenRelay → Bool
earlier s t =
    ltb s.expires_at t.expires_at
    || (s.expires_at == t.expires_at && ltb s.received_at t.received_at)

-- `min_by_key` keeps the first of equal entries.
min_from : RelayKey → SeenRelay → OrdMap RelayKey SeenRelay → RelayKey
min_from k s [] = k
min_from k s ((j, t) ∷ m) = min_from (if earlier t s then j else k) (if earlier t s then t else s) m

pub oldest_key : OrdMap RelayKey SeenRelay → Option RelayKey
unfolding min_from
oldest_key [] = none
oldest_key ((k, s) ∷ m) = some (min_from k s m)

abbrev pub remove_oldest : OrdMap RelayKey SeenRelay → OrdMap RelayKey SeenRelay
remove_oldest m = elim (oldest_key m) [ none ↦ m | some k ↦ remove k m ]

pub reserve : RelayKey → ℕ → ℕ → RelayCache → RelayCache
reserve key expires_at now c =
    let room = if leb max_relay_dedup (length c.seen) then remove_oldest c.seen else c.seen in
    record c { seen = insert key (record { expires_at = expires_at; received_at = now }) room }

abbrev pub key_of : RelayFrame → RelayKey
key_of frame = record { origin = frame.origin; id = frame.id }

-- The cases behind the checks, on the cache with the expired entries dropped.
pub decide : RelayFrame → ℕ → RelayCache → RelayDecision × RelayCache
unfolding reserve
decide frame now c =
    if leb frame.expires_at now
    then (expired, c)
    else if leb frame.hop_limit frame.hops
    then (hop_limit, c)
    else if contains_key (key_of frame) c.seen
    then (duplicate, c)
    else (
      forward (record frame { previous_hop = c.local; hops = frame.hops + 1 }),
      reserve (key_of frame) frame.expires_at now c,
    )

pub accept : RelayFrame → MemberId → ℕ → RelayCache → Outcome RelayDecision × RelayCache
unfolding valid
accept frame via now c = elim (valid frame via now) [
  | err e ↦ (err e, c)
  | ok _ ↦
      if equal frame.origin c.local || equal via c.local
      then (err invalid_input, c)
      else (let (d, c') = decide frame now (expire_seen now c) in (ok d, c'))
]
