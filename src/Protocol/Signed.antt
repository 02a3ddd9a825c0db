-- ===== src/Protocol/Signed.antt =====
-- crates/mesh-protocol/src/lib.rs: what its signed records share.
pub mod Parts
use mesh_lab.Prelude.{ℕ, List, ◌++◌, ltb, ◌==◌, not, Result, ok, err, ◌>>=◌, reject}
use mesh_lab.Durable.{
  Outcome, invalid_input, unsupported_schema, authentication_failed, max_logical_time,
}
use mesh_lab.Codec.{
  new_reader, array, byte_string, fixed, end, default_writer, write_array, write_bytes, finish,
}
use mesh_lab.Crypto.{CryptoError}

-- `auth`: a failure of the cryptography.
abbrev pub auth {ℓ} : {A : Type ℓ} → Result CryptoError A → Outcome A
auth (ok a) = ok a
auth (err e) = err authentication_failed

unfoldable pub version : ℕ → Outcome (Unit {0})
version v = reject (not (v == 1)) unsupported_schema

unfoldable pub time : ℕ → Outcome (Unit {0})
time now = reject (ltb max_logical_time now) invalid_input

-- SHA-256 is a library's.
unfoldable pub domain_hash : (List ℕ → List ℕ) → List ℕ → List ℕ → List ℕ
domain_hash sha256 label bytes = sha256 (label ++ bytes)

unfoldable pub signed : List ℕ → List ℕ → List ℕ
unfolding write_array write_bytes finish
signed body signature =
    finish (write_bytes signature (write_bytes body (write_array 2 default_writer)))

unfoldable pub signed_parts : List ℕ → ℕ → Outcome (List ℕ × List ℕ)
signed_parts bytes max = do
  r ← new_reader bytes max
  (_, r₁) ← array 2 r
  (body, r₂) ← byte_string max r₁
  (signature, r₃) ← fixed 64 r₂
  _ ← end r₃
  ok (body, signature)
