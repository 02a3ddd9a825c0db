-- ===== src/Protocol/Roster/Certified.antt =====
-- A roster holds exactly certified members, under keys of their own.
use mesh_lab.Prelude.{
  ℕ, ◌≤◌, ◌<◌, ◌≡◌, ◌⊎◌, inl, inr, refl, sym, subst, ◌∙◌, true, false, List, [], ◌∷◌, some, ok,
  reject_inv, reject_then, >>=-eq-ok, ok-subst, ltb, length, arith, Bool-cases, List-cases, ap,
}
use mesh_lab.Prelude.Ord.{Ord, equal, equal_iff, bytes_ord, nat_ord}
use mesh_lab.Prelude.OrdMap.{get, insert, contains_key, get-insert, contains_key-insert}
use mesh_lab.Durable.{MemberId, member_ord, invalid_input, max_logical_time}
use mesh_lab.Crypto.{Scope, Ed25519}
use mesh_lab.Protocol.Signed.{time}
use mesh_lab.Protocol.Certificate.{CertificateClaims}
use mesh_lab.Protocol.Roster.{
  VerifiedRoster, Roll, OrdSet, empty_roll, collect, taken, enrolled, admit, admit_all,
  unfit_request, verify_roster, validate_at,
}
use mesh_lab.Protocol.Roster.Admission.{Admitted, Admitted-early, admit_inv}

abbrev pub Listed : List ℕ → List (List ℕ) → Type 0
Listed x [] = ⊥
Listed x (y ∷ ys) = (x ≡ y) ⊎ Listed x ys

module _ {K : Type 0} ⦃o : Ord K⦄ (j k : K) (m : OrdSet K) where
  still_there : contains_key j m ≡ true → contains_key j (insert k tt m) ≡ true
  still_there h = ground (arith, contains_key-insert j k tt m, h)

now_there : {K : Type 0} ⦃o : Ord K⦄ (k : K) (m : OrdSet K) → contains_key k (insert k tt m) ≡ true
now_there k m = ground (arith, contains_key-insert k k tt m, (equal_iff k k).1 refl)

-- Two claims share a key or a serial.
abbrev pub Shares : CertificateClaims → CertificateClaims → Type 0
Shares c d =
    (c.signing_key ≡ d.signing_key) ⊎ (c.delivery_key ≡ d.delivery_key) ⊎ (c.serial ≡ d.serial)

Shares-sym : (c d : CertificateClaims) → Shares c d → Shares d c
Shares-sym c d (inl e) = inl (sym e)
Shares-sym c d (inr (inl e)) = inr (inl (sym e))
Shares-sym c d (inr (inr e)) = inr (inr (sym e))

module _ {Key : Type 0} (ed : Ed25519 Key) (sha256 : List ℕ → List ℕ) (authority : List ℕ)
    (scope : Scope) (revoked : OrdSet ℕ) (now : ℕ) (certificates : List (List ℕ)) where
  -- What a member's claims rest on.
  abbrev pub Backed : CertificateClaims → Type 0
  Backed c =
      (encoded : List ℕ) × Listed encoded certificates
      × Admitted ed sha256 authority scope revoked now encoded c

  record Sound (g : Roll) : Type 0 where
    backed :
        (id : MemberId) (c : CertificateClaims)
        → get id g.members ≡ some c
        → (c.member ≡ id) × Backed c
    spans :
        (id : MemberId) (c : CertificateClaims)
        → get id g.members ≡ some c
        → (c.valid_from ≤ g.valid_from) × (g.valid_until ≤ c.valid_until)
    keyed :
        (id : MemberId) (c : CertificateClaims)
        → get id g.members ≡ some c
        → (contains_key c.signing_key g.keys ≡ true)
          × (contains_key c.delivery_key g.delivery_keys ≡ true)
          × (contains_key c.serial g.serials ≡ true)
    distinct :
        (i j : MemberId) (c d : CertificateClaims)
        → get i g.members ≡ some c
        → get j g.members ≡ some d
        → Shares c d
        → i ≡ j
    begun : g.valid_from ≤ now
    lasting : now < g.valid_until

  Sound-empty : now < max_logical_time → Sound empty_roll
  unfolding get
  Sound-empty h = record {
    backed = λ id c there. cc;
    spans = λ id c there. cc;
    keyed = λ id c there. cc;
    distinct = λ i j c d there. cc;
    begun = omega arith;
    lasting = omega arith;
  }

  module _ (g : Roll) (s : Sound g) (c : CertificateClaims) (encoded : List ℕ)
      (listed : Listed encoded certificates)
      (admitted : Admitted ed sha256 authority scope revoked now encoded c)
      (free : taken c g ≡ false) where
    -- A member of the roll is the new one, or one that was there.
    enrolled_inv :
        (id : MemberId) (d : CertificateClaims)
        → get id (enrolled c encoded g).members ≡ some d
        → ((id ≡ c.member) × (d ≡ c)) ⊎ (get id g.members ≡ some d)
    enrolled_inv id d h =
        let found = get-insert id c.member c g.members in
        elim (Bool-cases (equal id c.member)) [
          | inl same ↦ inl ((equal_iff id c.member).0 same, ground (arith, h, found, same))
          | inr other ↦ inr (ground (arith, h, found, other))
        ]

    -- Nothing of the new claims was in use.
    apart : (id : MemberId) (d : CertificateClaims) → get id g.members ≡ some d → Shares c d → ⊥
    apart id d there (inl e) =
        ground
          (arith, free, subst (λ k. contains_key k g.keys ≡ true) (sym e) (s.keyed id d there).0)
    apart id d there (inr (inl e)) = ground (
      arith,
      free,
      subst (λ k. contains_key k g.delivery_keys ≡ true) (sym e) (s.keyed id d there).1,
    )
    apart id d there (inr (inr e)) =
        ground
          (arith, free, subst (λ k. contains_key k g.serials ≡ true) (sym e) (s.keyed id d there).2)

    enrolled-distinct :
        (i j : MemberId) (d e : CertificateClaims)
        → get i (enrolled c encoded g).members ≡ some d
        → get j (enrolled c encoded g).members ≡ some e
        → Shares d e
        → i ≡ j
    enrolled-distinct i j d e hi hj shared = elim (enrolled_inv i d hi) [
      | inl (i_new, d_new) ↦ elim (enrolled_inv j e hj) [
        | inl (j_new, _) ↦ i_new ∙ sym j_new
        | inr there ↦ absurd (apart j e there (subst (λ x. Shares x e) d_new shared))
      ]
      | inr here ↦ elim (enrolled_inv j e hj) [
        | inl (_, e_new) ↦ absurd (apart i d here (Shares-sym d c (subst (Shares d) e_new shared)))
        | inr there ↦ s.distinct i j d e here there shared
      ]
    ]

    enrolled-keyed :
        (id : MemberId) (d : CertificateClaims)
        → get id (enrolled c encoded g).members ≡ some d
        → (contains_key d.signing_key (insert c.signing_key tt g.keys) ≡ true)
          × (contains_key d.delivery_key (insert c.delivery_key tt g.delivery_keys) ≡ true)
          × (contains_key d.serial (insert c.serial tt g.serials) ≡ true)
    enrolled-keyed id d h = elim (enrolled_inv id d h) [
      | inl (_, e) ↦ rw e (
        now_there c.signing_key g.keys,
        now_there c.delivery_key g.delivery_keys,
        now_there c.serial g.serials,
      )
      | inr there ↦
          let (key, delivery, serial) = s.keyed id d there in
          (
            still_there d.signing_key c.signing_key g.keys key,
            still_there d.delivery_key c.delivery_key g.delivery_keys delivery,
            still_there d.serial c.serial g.serials serial,
          )
    ]

    Sound-enrolled : Sound (enrolled c encoded g)
    Sound-enrolled = record {
      backed = λ id d h. elim (enrolled_inv id d h) [
        | inl (i, e) ↦ rw e (sym i, (encoded, listed, admitted))
        | inr there ↦ s.backed id d there
      ];
      spans = λ id d h. elim (enrolled_inv id d h) [
        | inl (_, e) ↦ rw e (omega arith, omega arith)
        | inr there ↦
            let (from, until) = s.spans id d there in (omega (arith, from), omega (arith, until))
      ];
      keyed = enrolled-keyed;
      distinct = enrolled-distinct;
      begun = omega (arith, s.begun, admitted.begun);
      lasting = omega (arith, s.lasting, admitted.lasting);
    }

  admit_all-Sound :
      (rest : List (List ℕ)) (g g' : Roll)
      → ((x : List ℕ) → Listed x rest → Listed x certificates)
      → Sound g
      → admit_all ed sha256 authority scope revoked now rest g ≡ ok g'
      → Sound g'
  unfolding admit_all
  admit_all-Sound [] g g' within s h = ok-subst Sound g g' h s
  admit_all-Sound (encoded ∷ rest) g g' within s h =
      let (g₁, first, more) =
        >>=-eq-ok (admit ed sha256 authority scope revoked now encoded g) _ h in
      let (c, admitted, free, e) =
        admit_inv ed sha256 authority scope revoked now encoded g g₁ first in
      let next =
        subst Sound (sym e)
          (Sound-enrolled g s c encoded (within encoded (inl refl)) admitted free) in
      admit_all-Sound rest g₁ g' (λ x l. within x (inr l)) next more

  -- At least one certificate is admitted, and shows that the time is early enough.
  gathered-Sound :
      1 ≤ length certificates
      → (g : Roll) → admit_all ed sha256 authority scope revoked now certificates empty_roll ≡ ok g
      → Sound g
  unfolding admit_all
  gathered-Sound some_one g h = elim (List-cases certificates) [
    | inl nothing ↦ absurd (omega (arith, some_one, ap length nothing))
    | inr (encoded, rest, e) ↦
        let h₁ =
          subst (λ cs. admit_all ed sha256 authority scope revoked now cs empty_roll ≡ ok g) e h in
        let (g₁, first, _) =
          >>=-eq-ok (admit ed sha256 authority scope revoked now encoded empty_roll) _ h₁ in
        let (c, admitted, _, _) =
          admit_inv ed sha256 authority scope revoked now encoded empty_roll g₁ first in
        let early = Admitted-early ed sha256 authority scope revoked now encoded c admitted in
        admit_all-Sound certificates empty_roll g (λ x l. l) (Sound-empty early) h
  ]

-- What holds of a roster for `certificates`, made at `now`.
module _ {Key : Type 0} (ed : Ed25519 Key) (sha256 : List ℕ → List ℕ) (authority : List ℕ)
    (scope : Scope) (certificates : List (List ℕ)) (revoked : List ℕ) (now : ℕ) where
  pub record IsCertified (r : VerifiedRoster) : Type 0 where
    pub own_scope : r.scope ≡ scope
    pub backed :
        (id : MemberId) (c : CertificateClaims)
        → get id r.members ≡ some c
        → (c.member ≡ id) × Backed ed sha256 authority scope (collect revoked) now certificates c
    pub spans :
        (id : MemberId) (c : CertificateClaims)
        → get id r.members ≡ some c
        → (c.valid_from ≤ r.valid_from) × (r.valid_until ≤ c.valid_until)
    pub distinct :
        (i j : MemberId) (c d : CertificateClaims)
        → get i r.members ≡ some c
        → get j r.members ≡ some d
        → Shares c d
        → i ≡ j
    pub current : validate_at now r ≡ ok tt

  -- Every member of a verified roster is backed by one of its certificates: the pinned authority
  -- signed, for the pinned group and epoch, the very bytes that the member's claims are written as,
  -- the serial is not revoked and the claims hold now. No two members share a signing key, a delivery
  -- key or a serial, and the roster is valid now, and only as long as every member's claims are.
  pub verify_roster-IsCertified :
      (r : VerifiedRoster)
      → verify_roster ed sha256 authority scope certificates revoked now ≡ ok r
      → IsCertified r
  unfolding verify_roster time validate_at
  verify_roster-IsCertified r h =
      let timely = reject_inv (ltb max_logical_time now) invalid_input _ h in
      let h₁ = reject_then (ltb max_logical_time now) invalid_input _ h in
      let h₂ = reject_then (unfit_request scope certificates revoked) invalid_input _ h₁ in
      let (g, gathered, last) =
        >>=-eq-ok
          (admit_all ed sha256 authority scope (collect revoked) now certificates empty_roll) _
          h₂ in
      let sound =
        gathered-Sound ed sha256 authority scope (collect revoked) now certificates
          (ground (arith, reject_inv (unfit_request scope certificates revoked) invalid_input _ h₁))
          g gathered in
      ok-subst IsCertified _ r last (record {
        own_scope = refl;
        backed = sound.backed;
        spans = sound.spans;
        distinct = sound.distinct;
        current = ground (arith, timely, sound.begun, sound.lasting);
      })
