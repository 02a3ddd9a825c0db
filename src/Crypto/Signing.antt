-- ===== src/Crypto/Signing.antt =====
-- What a signature is made for: that the signer's public key verifies it.
use mesh_lab.Prelude.{ℕ, ◌≡◌, refl, true, List, length, ok, >>=-eq-ok, ok-subst}
use mesh_lab.Crypto.{Scope, Ed25519, Domain, signature_input, sign, verify}

-- What RFC 8032 says of keys and signatures.
pub record IsEd25519 {Key : Type 0} (ed : Ed25519 Key) : Type 0 where
  pub key_sized : (k : Key) → length (ed.verifying_key k) ≡ 32
  pub sized : (k : Key) (m : List ℕ) → length (ed.signature_of k m) ≡ 64
  pub keyed : (k : Key) → ed.is_key (ed.verifying_key k) ≡ true
  pub checked :
      (k : Key) (m : List ℕ) → ed.verify_strict (ed.verifying_key k) m (ed.signature_of k m) ≡ true

pub sign_inv :
    {Key : Type 0} {ed : Ed25519 Key}
    → IsEd25519 ed
    → (k : Key) (scope : Scope) (d : Domain) (m s : List ℕ) → sign ed k scope d m ≡ ok s
    → (length s ≡ 64) × (verify ed (ed.verifying_key k) scope d m s ≡ ok tt)
unfolding sign verify
sign_inv {ed} law k scope d m s h =
    let (input, made, last) = >>=-eq-ok (signature_input scope d m) _ h in
    ok-subst (λ s. (length s ≡ 64) × (verify ed (ed.verifying_key k) scope d m s ≡ ok tt))
      (ed.signature_of k input) s last
      (law.sized k input, rw (made, law.keyed k, law.checked k input) refl)
