-- ===== src/Durable.antt =====
-- crates/mesh-types/src/durable.rs: the bounds, identifiers and errors of durable objects.
-- An identifier `[u8; N]` is the list of its N bytes; the derived order is lexicographic.
use mesh_lab.Prelude.{
  ℕ, ◌^◌, ◌<◌, ◌≡◌, Bool, not, ◌&&◌, ◌||◌, List, [], ◌∷◌, length, any, all, All, ltb, leb, ◌==◌,
  if◌then◌else◌, Result, ok, err,
}
use Prim.Native.Nat.Ordering.{eq}
use mesh_lab.Prelude.Ord.{Ord, cmp_bytes, cmp_bytes-flip, cmp_bytes-eq, cmp_bytes_trans}

abbrev pub chunk_bytes : ℕ
chunk_bytes = 1024

abbrev pub max_object_bytes : ℕ
max_object_bytes = 65536

abbrev pub max_chunks : ℕ
max_chunks = 64

abbrev pub max_targets : ℕ
max_targets = 10

abbrev pub max_group_members : ℕ
max_group_members = 50

abbrev pub max_manifest_bytes : ℕ
max_manifest_bytes = 4096

-- `i64::MAX as u64`.
abbrev pub max_logical_time : ℕ
max_logical_time = 0x7fff_ffff_ffff_ffff

pub data DurableError : Type 0 where
  invalid_input resource_pressure not_found conflict expired corrupt : DurableError
  key_or_corruption cipher_unavailable crypto_unavailable unsupported_schema : DurableError
  storage_unavailable injected_failure invalid_receipt authentication_failed : DurableError

abbrev pub Outcome {ℓ} : Type ℓ → Type ℓ
Outcome A = Result DurableError A

-- A byte string holds numbers below 256, an unsigned 64-bit word a number below 2 ^ 64.
abbrev pub IsByte : ℕ → Type 0
IsByte b = b < 256

abbrev pub IsU64 : ℕ → Type 0
IsU64 n = n < 2 ^ 64

-- `[u8; n]`.
pub record IsArray (n : ℕ) (xs : List ℕ) : Type 0 where
  pub sized : length xs ≡ n
  pub bytes : All IsByte xs

pub record MemberId : Type 0 where
  pub id : List ℕ

pub record ObjectId : Type 0 where
  pub id : List ℕ

pub record OperationId : Type 0 where
  pub id : List ℕ

member_eq : {a b : MemberId} → a.id ≡ b.id → a ≡ b
member_eq p = λ i. record { id = p i }

object_eq : {a b : ObjectId} → a.id ≡ b.id → a ≡ b
object_eq p = λ i. record { id = p i }

operation_eq : {a b : OperationId} → a.id ≡ b.id → a ≡ b
operation_eq p = λ i. record { id = p i }

pub member_cmp_eq : (a b : MemberId) → cmp_bytes a.id b.id ≡ eq → a ≡ b
member_cmp_eq a b h = member_eq (cmp_bytes-eq a.id b.id h)

pub object_cmp_eq : (a b : ObjectId) → cmp_bytes a.id b.id ≡ eq → a ≡ b
object_cmp_eq a b h = object_eq (cmp_bytes-eq a.id b.id h)

pub operation_cmp_eq : (a b : OperationId) → cmp_bytes a.id b.id ≡ eq → a ≡ b
operation_cmp_eq a b h = operation_eq (cmp_bytes-eq a.id b.id h)

instance abbrev pub member_ord : Ord MemberId
member_ord = record {
  cmp = λ a b. cmp_bytes a.id b.id;
  cmp_flip = λ a b. cmp_bytes-flip a.id b.id;
  cmp_eq = member_cmp_eq;
  cmp_trans = λ a b c. cmp_bytes_trans a.id b.id c.id;
}

instance abbrev pub object_ord : Ord ObjectId
object_ord = record {
  cmp = λ a b. cmp_bytes a.id b.id;
  cmp_flip = λ a b. cmp_bytes-flip a.id b.id;
  cmp_eq = object_cmp_eq;
  cmp_trans = λ a b c. cmp_bytes_trans a.id b.id c.id;
}

instance abbrev pub operation_ord : Ord OperationId
operation_ord = record {
  cmp = λ a b. cmp_bytes a.id b.id;
  cmp_flip = λ a b. cmp_bytes-flip a.id b.id;
  cmp_eq = operation_cmp_eq;
  cmp_trans = λ a b c. cmp_bytes_trans a.id b.id c.id;
}

pub record Namespace : Type 0 where
  pub name : List ℕ

-- `b.is_ascii_alphanumeric() || b"._-".contains(&b)`
abbrev pub is_name_byte : ℕ → Bool
is_name_byte b =
    (leb 0x30 b && leb b 0x39)
    || (leb 0x41 b && leb b 0x5a)
    || (leb 0x61 b && leb b 0x7a)
    || any (λ c. c == b) (0x2e ∷ 0x5f ∷ 0x2d ∷ [])

unfoldable pub new_namespace : List ℕ → Outcome Namespace
new_namespace value =
    if length value == 0 || ltb 64 (length value) || not (all is_name_byte value)
    then err invalid_input
    else ok (record { name = value })

pub data DeliveryState : Type 0 where
  stored relaying delivered expired : DeliveryState

pub record DeliveryProgress : Type 0 where
  pub state : DeliveryState
  pub confirmed : ℕ
  pub required : ℕ
