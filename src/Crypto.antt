-- ===== src/Crypto.antt =====
-- crates/mesh-crypto/src/lib.rs: what is signed, and how a signature is checked. Ed25519 is a
-- library's.
pub mod Signing
pub mod Toy
use mesh_lab.Prelude.{
  ℕ, ◌%◌, ◌^◌, Bool, not, ◌||◌, List, [], ◌∷◌, ◌++◌, length, ltb, ◌==◌, Result, ok, ◌>>=◌, ◌>>◌,
  reject,
}
use mesh_lab.Durable.{max_logical_time}
use mesh_lab.Codec.Words.{be_bytes}

abbrev pub suite_id : ℕ
suite_id = 1

abbrev pub max_signed_bytes : ℕ
max_signed_bytes = 65536

pub data CryptoError : Type 0 where
  invalid_input invalid_key authentication random_unavailable nonce_exhausted : CryptoError

pub data Domain : Type 0 where
  certificate object receipt transition recovery session enrollment presence : Domain
  receipt_ack cloud_relay : Domain

-- `domain as u8`
abbrev pub code_of : Domain → ℕ
code_of certificate = 1
code_of object = 2
code_of receipt = 3
code_of transition = 4
code_of recovery = 5
code_of session = 6
code_of enrollment = 7
code_of presence = 8
code_of receipt_ack = 9
code_of cloud_relay = 10

pub record Scope : Type 0 where
  pub group : List ℕ
  pub epoch : ℕ

-- `b"MeshLab/Crypto/v1\0"`
abbrev pub crypto_domain : List ℕ
crypto_domain =
    0x4d ∷ 0x65 ∷ 0x73 ∷ 0x68 ∷ 0x4c ∷ 0x61 ∷ 0x62 ∷ 0x2f ∷ 0x43 ∷ 0x72 ∷ 0x79 ∷ 0x70 ∷ 0x74 ∷ 0x6f
    ∷ 0x2f ∷ 0x76 ∷ 0x31 ∷ 0x00 ∷ []

unfoldable pub prefix : Scope → ℕ → Result CryptoError (List ℕ)
prefix scope purpose = do
  reject (scope.epoch == 0 || ltb max_logical_time scope.epoch) invalid_input
  ok (crypto_domain ++ (be_bytes 2 suite_id ++ (purpose ∷ (scope.group ++ be_bytes 8 scope.epoch))))

unfoldable pub signature_input : Scope → Domain → List ℕ → Result CryptoError (List ℕ)
signature_input scope domain bytes = do
  reject (ltb max_signed_bytes (length bytes)) invalid_input
  b ← prefix scope (code_of domain)
  ok (b ++ (be_bytes 4 (length bytes % 2 ^ 32) ++ bytes))

-- The library's keys: `Key` is a signing key, a public key is its 32 bytes.
pub record Ed25519 (Key : Type 0) : Type 0 where
  pub verifying_key : Key → List ℕ
  pub signature_of : Key → List ℕ → List ℕ
  pub is_key : List ℕ → Bool
  pub verify_strict : List ℕ → List ℕ → List ℕ → Bool

module _ {Key : Type 0} (ed : Ed25519 Key) where
  unfoldable pub sign : Key → Scope → Domain → List ℕ → Result CryptoError (List ℕ)
  sign key scope domain canonical = do
    input ← signature_input scope domain canonical
    ok (ed.signature_of key input)

  unfoldable pub verify : List ℕ → Scope → Domain → List ℕ → List ℕ → Result CryptoError (Unit {0})
  verify public scope domain canonical signature = do
    input ← signature_input scope domain canonical
    reject (not (ed.is_key public)) invalid_key
    reject (not (ed.verify_strict public input signature)) authentication

-- `b"MeshLab/IdentityKeyId/v1\0"`
abbrev pub identity_domain : List ℕ
identity_domain =
    0x4d ∷ 0x65 ∷ 0x73 ∷ 0x68 ∷ 0x4c ∷ 0x61 ∷ 0x62 ∷ 0x2f ∷ 0x49 ∷ 0x64 ∷ 0x65 ∷ 0x6e ∷ 0x74 ∷ 0x69
    ∷ 0x74 ∷ 0x79 ∷ 0x4b ∷ 0x65 ∷ 0x79 ∷ 0x49 ∷ 0x64 ∷ 0x2f ∷ 0x76 ∷ 0x31 ∷ 0x00 ∷ []

-- SHA-256 is a library's.
unfoldable pub identity_key_id : (List ℕ → List ℕ) → List ℕ → List ℕ
identity_key_id sha256 public = sha256 (identity_domain ++ public)
