-- ===== src/Protocol/Presence/Claims.antt =====
-- What presence records are accepted: those that are written canonically and signed by a member.
use mesh_lab.Prelude.{
  ℕ, ◌≤◌, ◌<◌, ◌≡◌, ◌↔◌, refl, ap, subst, false, not, List, length, ok, All, arith, >>=-eq-ok,
  ok-subst, reject_inv, reject_then,
}
use mesh_lab.Prelude.Ord.{equal, equal_iff, bytes_ord}
use mesh_lab.Durable.{member_ord, IsByte, invalid_input, authentication_failed}
use mesh_lab.Crypto.{Scope, Ed25519, Domain, verify}
use mesh_lab.Protocol.Signed.{auth, signed, signed_parts}
use mesh_lab.Protocol.Signed.Parts.{signed_parts_inv, signed_parts-signed, length-signed, auth_inv}
use mesh_lab.Protocol.Roster.{VerifiedRoster, validate_at, signing_key_of}
use mesh_lab.Protocol.Presence.{
  PresenceRecord, presence_body, read_presence, lapsed, authenticate_presence, max_presence_claim,
}
use mesh_lab.Protocol.Presence.Framing.{
  written, presence_body-written, presence_body_inv, Sized, read_presence_inv, length-written,
  read_presence-written, fit_of,
}

-- A record that a member signed: the bytes are its canonical body for the roster's scope under a
-- signature by the key that the roster certifies for the member.
pub record Attests {Key : Type 0} (ed : Ed25519 Key) (bytes : List ℕ) (roster : VerifiedRoster)
    (now : ℕ) (q : PresenceRecord) : Type 0 where
  pub body : List ℕ
  pub signature : List ℕ
  pub key : List ℕ
  pub sized : Sized roster.scope q
  pub canonical : presence_body roster.scope q ≡ ok body
  pub enclosed : bytes ≡ signed body signature
  pub tagged : length signature ≡ 64
  pub certified : signing_key_of q.member roster ≡ ok key
  pub proven : verify ed key roster.scope Domain.presence body signature ≡ ok tt
  pub current : validate_at now roster ≡ ok tt
  pub lasting : now < q.expires_at

own_scope :
    (s own : Scope) (q : PresenceRecord) (now : ℕ)
    → lapsed s own q now ≡ false
    → (s ≡ own) × (now < q.expires_at)
own_scope s own q now h =
    let group : s.group ≡ own.group = (equal_iff s.group own.group).0 (ground (arith, h)) in
    let epoch : s.epoch ≡ own.epoch = ground (arith, h) in
    (λ i. record { group = group i; epoch = epoch i }, ground (arith, h))

module _ {Key : Type 0} (ed : Ed25519 Key) (bytes : List ℕ) (roster : VerifiedRoster) (now : ℕ)
    (q : PresenceRecord) where
  accepted-Attests :
      All IsByte bytes
      → authenticate_presence ed bytes roster now ≡ ok q
      → Attests ed bytes roster now q
  unfolding authenticate_presence
  accepted-Attests those h =
      let (tt, current, h₁) = >>=-eq-ok (validate_at now roster) _ h in
      let ((body, signature), parted, h₂) =
        >>=-eq-ok (signed_parts bytes max_presence_claim) _ h₁ in
      let (enclosed, tagged, _, _, inner) =
        signed_parts_inv bytes body signature max_presence_claim those parted in
      let ((s, p), read, h₃) = >>=-eq-ok (read_presence body) _ h₂ in
      let (split, sized) = read_presence_inv body (s, p) inner read in
      let (own, lasting) =
        own_scope s roster.scope p now
          (reject_inv (lapsed s roster.scope p now) authentication_failed _ h₃) in
      let h₄ = reject_then (lapsed s roster.scope p now) authentication_failed _ h₃ in
      let (again, fit, h₅) = >>=-eq-ok (presence_body roster.scope p) _ h₄ in
      let h₆ = reject_then (not (equal again body)) invalid_input _ h₅ in
      let (key, certified, h₇) = >>=-eq-ok (signing_key_of p.member roster) _ h₆ in
      let (u, proven, last) =
        >>=-eq-ok (auth (verify ed key roster.scope Domain.presence body signature)) _ h₇ in
      ok-subst (Attests ed bytes roster now) p q last (record {
        body = body;
        signature = signature;
        key = key;
        sized = subst (λ s. Sized s p) own sized;
        canonical =
            rw (subst (λ s. body ≡ written s p) own split)
              (presence_body-written roster.scope p (fit_of roster.scope p again fit));
        enclosed = enclosed;
        tagged = tagged.sized;
        certified = certified;
        proven = auth_inv _ u proven;
        current = current;
        lasting = lasting;
      })

  pub Attests-accepted :
      Attests ed bytes roster now q → authenticate_presence ed bytes roster now ≡ ok q
  unfolding authenticate_presence
  Attests-accepted a =
      let (fit, split) = presence_body_inv roster.scope q a.body a.canonical in
      let small = length-written roster.scope q a.sized in
      let framed : length (signed a.body a.signature) ≤ max_presence_claim =
        omega (arith, length-signed a.body a.signature, a.tagged, small, ap length split) in
      let parted =
        signed_parts-signed a.body a.signature max_presence_claim (omega arith) a.tagged framed in
      let read : read_presence a.body ≡ ok (roster.scope, q) =
        rw split (read_presence-written roster.scope q fit a.sized) in
      let own = (equal_iff roster.scope.group roster.scope.group).1 refl in
      let same = (equal_iff a.body a.body).1 refl in
      rw (a.enclosed, a.current, parted, read, a.canonical, same, own, a.certified, a.proven)
        (ground (arith, a.lasting))

  -- A byte string is accepted as a presence record at `now` exactly if the roster is valid then, the
  -- record has not expired, and the bytes are its canonical body for the roster's scope under a
  -- signature by the key that the roster certifies for the record's member.
  pub authenticate_presence_iff :
      All IsByte bytes
      → (authenticate_presence ed bytes roster now ≡ ok q) ↔ Attests ed bytes roster now q
  authenticate_presence_iff those = (accepted-Attests those, Attests-accepted)
