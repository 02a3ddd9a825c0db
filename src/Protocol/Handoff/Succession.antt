-- ===== src/Protocol/Handoff/Succession.antt =====
-- For whom a handoff is good.
use mesh_lab.Prelude.{
  ℕ, ◌≤◌, ◌<◌, ◌≡◌, ◌↔◌, refl, ap, sym, ◌∙◌, List, length, replicate, ltb, ok, ok_or, arith,
  >>=-eq-ok, ok-subst, reject_inv, reject_then,
}
use mesh_lab.Prelude.Ord.{equal_iff, bytes_ord}
use mesh_lab.Durable.{authentication_failed, invalid_input, max_logical_time}
use mesh_lab.Codec.{checked_add}
use mesh_lab.Crypto.{Scope, Ed25519, Domain, sign, verify}
use mesh_lab.Crypto.Signing.{IsEd25519, sign_inv}
use mesh_lab.Protocol.Signed.{auth, time, signed}
use mesh_lab.Protocol.Signed.Parts.{auth_ok, auth_inv}
use mesh_lab.Protocol.Handoff.{
  AuthorityHandoff, handoff_body, encode_handoff, decode_handoff, out_of_place, verify_for,
  issue_authority_handoff,
}
use mesh_lab.Protocol.Handoff.Body.{
  IsSized, IsFit, handoff_body-IsFit, written, handoff_body-written,
}
use mesh_lab.Protocol.Handoff.Framing.{encode_handoff-written, encode-decoded}

-- The handoff is the pinned authority's word, for the pinned policy and this time.
pub record Succeeds {Key : Type 0} (ed : Ed25519 Key) (authority : List ℕ) (scope : Scope)
    (digest : List ℕ) (now : ℕ) (h : AuthorityHandoff) : Type 0 where
  pub lasting : now < h.valid_until
  pub logical : now ≤ max_logical_time
  pub own_authority : h.prior_authority ≡ authority
  pub own_scope : h.prior_scope ≡ scope
  pub own_roster : h.prior_roster_digest ≡ digest
  pub fit : IsFit h
  pub proven : verify ed authority scope Domain.transition (written h) h.signature ≡ ok tt

module _ {Key : Type 0} (ed : Ed25519 Key) (authority : List ℕ) (scope : Scope) (digest : List ℕ)
    (now : ℕ) (h : AuthorityHandoff) where
  verified-Succeeds :
      verify_for ed h authority scope digest now ≡ ok tt → Succeeds ed authority scope digest now h
  unfolding verify_for time
  verified-Succeeds e =
      let timely = reject_inv (ltb max_logical_time now) invalid_input _ e in
      let e₁ = reject_then (ltb max_logical_time now) invalid_input _ e in
      let wrong = out_of_place h authority scope digest now in
      let placed = reject_inv wrong authentication_failed _ e₁ in
      let e₂ = reject_then wrong authentication_failed _ e₁ in
      let (body, made, last) = >>=-eq-ok (handoff_body h) _ e₂ in
      let fit = handoff_body-IsFit h body made in
      let group : h.prior_scope.group ≡ scope.group =
        (equal_iff h.prior_scope.group scope.group).0 (ground (arith, placed)) in
      let epoch : h.prior_scope.epoch ≡ scope.epoch = ground (arith, placed) in
      record {
        lasting = ground (arith, placed);
        logical = ground (arith, timely);
        own_authority = (equal_iff h.prior_authority authority).0 (ground (arith, placed));
        own_scope = λ i. record { group = group i; epoch = epoch i };
        own_roster = (equal_iff h.prior_roster_digest digest).0 (ground (arith, placed));
        fit = fit;
        proven =
            ok-subst (λ b. verify ed authority scope Domain.transition b h.signature ≡ ok tt) body
              (written h) (sym made ∙ handoff_body-written h fit) (auth_inv _ tt last);
      }

  Succeeds-verified :
      Succeeds ed authority scope digest now h → verify_for ed h authority scope digest now ≡ ok tt
  unfolding verify_for time
  Succeeds-verified s =
      let group = (equal_iff h.prior_scope.group scope.group).1 (ap (λ t. t.group) s.own_scope) in
      let epoch = ap (λ t. t.epoch) s.own_scope in
      let own = (equal_iff h.prior_authority authority).1 s.own_authority in
      let roster = (equal_iff h.prior_roster_digest digest).1 s.own_roster in
      rw (handoff_body-written h s.fit, s.proven, group, own, roster)
        (ground (arith, s.lasting, s.logical, epoch))

  -- A handoff is good at `now` for an authority, a scope and a roster exactly if it names all three,
  -- is not over, hands over to another authority at the next epoch, and the pinned authority signed
  -- its body.
  pub verify_for_iff :
      (verify_for ed h authority scope digest now ≡ ok tt)
      ↔ Succeeds ed authority scope digest now h
  verify_for_iff = (verified-Succeeds, Succeeds-verified)

module _ {Key : Type 0} (ed : Ed25519 Key) (authority : Key) (scope : Scope)
    (digest next_authority : List ℕ) (valid_until now : ℕ) (h : AuthorityHandoff) where
  -- What an authority issues has its fields and its signature.
  issued_inv :
      IsEd25519 ed
      → issue_authority_handoff ed authority scope digest next_authority valid_until ≡ ok h
      → now < valid_until
      → Succeeds ed (ed.verifying_key authority) scope digest now h
        × (h.next_authority ≡ next_authority)
        × (length h.signature ≡ 64)
  unfolding issue_authority_handoff
  issued_inv law e before =
      let (next_epoch, added, e₁) =
        >>=-eq-ok (ok_or (checked_add scope.epoch 1) invalid_input) _ e in
      let blank : AuthorityHandoff = record {
        prior_authority = ed.verifying_key authority;
        prior_scope = scope;
        prior_roster_digest = digest;
        next_authority = next_authority;
        next_epoch = next_epoch;
        valid_until = valid_until;
        signature = replicate 64 0;
      } in
      let (body, made, e₂) = >>=-eq-ok (handoff_body blank) _ e₁ in
      let fit = handoff_body-IsFit blank body made in
      let (signature, sealed, last) =
        >>=-eq-ok (auth (sign ed authority scope Domain.transition body)) _ e₂ in
      let (tagged, proven) =
        sign_inv law authority scope Domain.transition body signature
          (auth_ok _ signature sealed) in
      ok-subst
        (λ x.
          Succeeds ed (ed.verifying_key authority) scope digest now x
          × (x.next_authority ≡ next_authority)
          × (length x.signature ≡ 64))
        (record blank { signature = signature }) h last
        (
          record {
            lasting = before;
            logical = omega (arith, before, fit.valid_until);
            own_authority = refl;
            own_scope = refl;
            own_roster = refl;
            fit = record {
              begun = fit.begun;
              epoch = fit.epoch;
              next = fit.next;
              some_time = fit.some_time;
              valid_until = fit.valid_until;
              another = fit.another;
            };
            proven =
                ok-subst
                  (λ b.
                    verify ed (ed.verifying_key authority) scope Domain.transition b signature
                    ≡ ok tt)
                  body (written blank) (sym made ∙ handoff_body-written blank fit) proven;
          },
          refl,
          tagged,
        )

  -- If Ed25519 verifies what it signs, then a handoff that an authority could issue for a group, a
  -- roster and a successor has an encoding, the encoding decodes to it, and it is good for that
  -- authority, group and roster until it is over.
  pub issued_succeeds :
      IsEd25519 ed
      → length scope.group ≡ 32
      → length digest ≡ 32
      → length next_authority ≡ 32
      → issue_authority_handoff ed authority scope digest next_authority valid_until ≡ ok h
      → now < valid_until
      → ((bytes : List ℕ) × (encode_handoff h ≡ ok bytes) × (decode_handoff bytes ≡ ok h))
        × (verify_for ed h (ed.verifying_key authority) scope digest now ≡ ok tt)
  issued_succeeds law group roster next e before =
      let (s, named, tagged) = issued_inv law e before in
      let sized : IsSized h = record {
        prior_authority = ap length s.own_authority ∙ law.key_sized authority;
        group = ap (λ t. length t.group) s.own_scope ∙ group;
        prior_roster_digest = ap length s.own_roster ∙ roster;
        next_authority = ap length named ∙ next;
        signature = tagged;
      } in
      let (made, _) = encode_handoff-written h s.fit sized in
      (
        (
          signed (written h) h.signature,
          made,
          encode-decoded (signed (written h) h.signature) h made sized,
        ),
        Succeeds-verified ed (ed.verifying_key authority) scope digest now h s,
      )
