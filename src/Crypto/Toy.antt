-- ===== src/Crypto/Toy.antt =====
-- Signatures that repeat the public key: an instance of Ed25519's interface to run the code on.
use mesh_lab.Prelude.{ℕ, refl, true, ◌++◌, replicate}
use mesh_lab.Prelude.Ord.{equal, equal_iff, bytes_ord}
use mesh_lab.Crypto.{Ed25519}
use mesh_lab.Crypto.Signing.{IsEd25519}

abbrev pub toy : Ed25519 ℕ
toy = record {
  verifying_key = λ k. replicate 32 k;
  signature_of = λ k m. replicate 64 k;
  is_key = λ public. true;
  verify_strict = λ public m s. equal s (public ++ public);
}

pub toy-IsEd25519 : IsEd25519 toy
toy-IsEd25519 = record {
  key_sized = λ k. refl;
  sized = λ k m. refl;
  keyed = λ k. refl;
  checked = λ k m. (equal_iff (replicate 64 k) (replicate 64 k)).1 refl;
}
