-- ===== src/Protocol/Presence/Attested.antt =====
-- What a member signs is accepted by the others, until it expires.
use mesh_lab.Prelude.{
  ℕ, ◌≤◌, ◌<◌, ◌≡◌, refl, not, ◌||◌, List, length, ltb, leb, ok, arith, >>=-eq-ok, ok-subst,
  reject_inv, reject_then,
}
use mesh_lab.Prelude.Ord.{equal, equal_iff, bytes_ord}
use mesh_lab.Durable.{authentication_failed, invalid_input, max_logical_time}
use mesh_lab.Crypto.{Ed25519, Domain, sign}
use mesh_lab.Crypto.Signing.{IsEd25519, sign_inv}
use mesh_lab.Protocol.Signed.{auth, signed}
use mesh_lab.Protocol.Signed.Parts.{auth_ok}
use mesh_lab.Protocol.Roster.{VerifiedRoster, validate_at, signing_key_of}
use mesh_lab.Protocol.Presence.{PresenceRecord, presence_body, sign_presence, authenticate_presence}
use mesh_lab.Protocol.Presence.Framing.{fit_of}
use mesh_lab.Protocol.Presence.Claims.{Attests, Attests-accepted}

-- A roster stays valid up to its end.
validate_at_later :
    (roster : VerifiedRoster) (now later : ℕ)
    → validate_at now roster ≡ ok tt
    → now ≤ later
    → later < roster.valid_until
    → later ≤ max_logical_time
    → validate_at later roster ≡ ok tt
unfolding validate_at
validate_at_later roster now later h after before logical =
    let begun = reject_then (ltb max_logical_time now) invalid_input _ h in
    ground (arith, begun, after, before, logical)

module _ {Key : Type 0} (ed : Ed25519 Key) (signer : Key) (roster : VerifiedRoster) (now later : ℕ)
    (q : PresenceRecord) (bytes : List ℕ) where
  signed-Attests :
      IsEd25519 ed
      → length roster.scope.group ≡ 32
      → length q.member.id ≡ 32
      → sign_presence ed signer q roster now ≡ ok bytes
      → now ≤ later
      → later < q.expires_at
      → Attests ed bytes roster later q
  unfolding sign_presence
  signed-Attests law group member h after before =
      let (tt, current, h₁) = >>=-eq-ok (validate_at now roster) _ h in
      let (key, certified, h₂) = >>=-eq-ok (signing_key_of q.member roster) _ h₁ in
      let wrong =
        not (equal key (ed.verifying_key signer))
        || leb q.expires_at now
        || ltb roster.valid_until q.expires_at in
      let fits = reject_inv wrong authentication_failed _ h₂ in
      let own : key ≡ ed.verifying_key signer =
        (equal_iff key (ed.verifying_key signer)).0 (ground (arith, fits)) in
      let h₃ = reject_then wrong authentication_failed _ h₂ in
      let (body, canonical, h₄) = >>=-eq-ok (presence_body roster.scope q) _ h₃ in
      let (signature, made, last) =
        >>=-eq-ok (auth (sign ed signer roster.scope Domain.presence body)) _ h₄ in
      let (tagged, proven) =
        sign_inv law signer roster.scope Domain.presence body signature
          (auth_ok _ signature made) in
      let fit = fit_of roster.scope q body canonical in
      ok-subst (λ b. Attests ed b roster later q) (signed body signature) bytes last
        (record {
          body = body;
          signature = signature;
          key = key;
          sized = (group, member);
          canonical = canonical;
          enclosed = refl;
          tagged = tagged;
          certified = certified;
          proven = rw own proven;
          current =
              validate_at_later roster now later current after (ground (arith, fits, before))
                (ground (arith, fit, before));
          lasting = before;
        })

  -- If Ed25519 verifies what it signs, then a presence record that a member could sign is accepted by
  -- every holder of the roster, from then on until it expires.
  pub signed_accepted :
      IsEd25519 ed
      → length roster.scope.group ≡ 32
      → length q.member.id ≡ 32
      → sign_presence ed signer q roster now ≡ ok bytes
      → now ≤ later
      → later < q.expires_at
      → authenticate_presence ed bytes roster later ≡ ok q
  signed_accepted law group member h after before =
      Attests-accepted ed bytes roster later q (signed-Attests law group member h after before)
