-- ===== src/Protocol/Announcement/Authentic.antt =====
-- What announcements are accepted: those of a member, for members.
use mesh_lab.Prelude.{
  ℕ, ◌≤◌, ◌≡◌, ◌↔◌, refl, sym, ap, subst, ◌∙◌, not, ◌||◌, List, [], ◌∷◌, ◌++◌, length, ◌==◌, ==_iff,
  ok, All, arith, length-append, >>=-eq-ok, ok-subst, reject_inv, reject_then,
}
use mesh_lab.Prelude.Ord.{equal, equal_iff, bytes_ord}
use mesh_lab.Durable.{MemberId, IsByte, authentication_failed, max_manifest_bytes}
use mesh_lab.Codec.{head_bytes}
use mesh_lab.Codec.Decodes.{
  At-start, At-then, At-end, array-Decodes, uint-Decodes, fixed-Decodes, byte_string-Decodes,
}
use mesh_lab.Codec.Inverse.{
  array_then, uint_then, fixed_then, byte_string_then, new_reader_then, end_then, blob,
}
use mesh_lab.Crypto.{Ed25519, Domain, verify}
use mesh_lab.Object
use mesh_lab.Object.{Manifest}
use mesh_lab.Protocol.Certificate.{CertificateClaims}
use mesh_lab.Protocol.Record.{max_announcement}
use mesh_lab.Protocol.Signed.{auth, version, signed, signed_parts}
use mesh_lab.Protocol.Signed.Parts.{
  signed_parts_inv, signed_parts-signed, new_reader-fits, signed_bytes, version_then, auth_inv,
}
use mesh_lab.Protocol.Roster.{VerifiedRoster, validate_at, member_of, signing_key_of}
use mesh_lab.Protocol.Announcement.{
  AuthenticatedAnnouncement, read_announcement, all_members, authenticate_announcement,
}

-- The items of a body around the bytes of a manifest.
abbrev pub written : List ℕ → List ℕ → List ℕ
written group packed = head_bytes 4 3 ++ (head_bytes 0 1 ++ (blob group ++ (blob packed ++ [])))

-- The bytes of a manifest in an announcement.
pub record Packs (packed : List ℕ) (m : Manifest) : Type 0 where
  pub parsed : Object.decode packed ≡ ok m
  pub short : length packed ≤ max_manifest_bytes

read_announcement_inv :
    (body : List ℕ) (t : List ℕ × Manifest)
    → All IsByte body
    → read_announcement body ≡ ok t
    → (length t.0 ≡ 32) × ((packed : List ℕ) × Packs packed t.1 × (body ≡ written t.0 packed))
unfolding read_announcement
read_announcement_inv body t those h = new_reader_then body max_announcement _ t h (λ _ h.
    array_then 3 _ _ t those h (λ _ r₀ (_, e₀, b, h). uint_then _ r₀ t b h (λ v r₁ (_, e₁, b, h).
      version_then v _ t h (λ one h. fixed_then 32 _ r₁ t b h (λ group r₂ (s₂, e₂, b, h).
        byte_string_then max_manifest_bytes _ r₂ t b h (λ packed r₃ (s₃, e₃, b, h).
          let (m, parsed, h₁) = >>=-eq-ok (Object.decode packed) _ h in
          end_then _ r₃ t h₁ (λ nothing last.
            ok-subst
              (λ x.
                (length x.0 ≡ 32)
                × ((packed : List ℕ) × Packs packed x.1 × (body ≡ written x.0 packed)))
              (group, m) t last
              (
                s₂.sized,
                (
                  packed,
                  record { parsed = parsed; short = s₃.0 },
                  e₀ ∙ rw (e₁, e₂, e₃, nothing, one),
                ),
              ))))))))

read_announcement-written :
    (group packed : List ℕ) (m : Manifest)
    → length group ≡ 32
    → Packs packed m
    → length (written group packed) ≤ max_announcement
    → read_announcement (written group packed) ≡ ok (group, m)
unfolding read_announcement version
read_announcement-written group packed m sized k fits =
    let whole = written group packed in
    let tail₃ = blob packed ++ [] in
    let tail₂ = blob group ++ tail₃ in
    At-then _ (head_bytes 0 1 ++ tail₂) (array-Decodes 3 (omega arith))
      (At-start whole (omega (arith, fits)))
      (λ r₀ e₀ at. At-then r₀ tail₂ (uint-Decodes 1 (omega arith)) at (λ r₁ e₁ at.
        At-then r₁ tail₃ (fixed-Decodes 32 group sized) at (λ r₂ e₂ at.
          At-then r₂ [] (byte_string-Decodes max_manifest_bytes packed k.short) at (λ r₃ e₃ at. rw (
            new_reader-fits whole max_announcement fits,
            e₀,
            e₁,
            e₂,
            e₃,
            k.parsed,
            At-end r₃ at,
          )))))

-- Somebody whom the roster certifies.
abbrev pub IsMember : VerifiedRoster → MemberId → Type 0
IsMember roster id = (c : CertificateClaims) × (member_of id roster ≡ ok c)

all_members-IsMember :
    (ts : List MemberId) (roster : VerifiedRoster)
    → all_members ts roster ≡ ok tt
    → All (IsMember roster) ts
unfolding all_members
all_members-IsMember [] roster h = tt
all_members-IsMember (t ∷ ts) roster h =
    let (c, found, more) = >>=-eq-ok (member_of t roster) _ h in
    ((c, found), all_members-IsMember ts roster more)

IsMember-all_members :
    (ts : List MemberId) (roster : VerifiedRoster)
    → All (IsMember roster) ts
    → all_members ts roster ≡ ok tt
unfolding all_members
IsMember-all_members [] roster m = refl
IsMember-all_members (t ∷ ts) roster ((c, found), m) = rw found (IsMember-all_members ts roster m)

-- What is kept of an announcement.
abbrev pub announced : List ℕ → VerifiedRoster → Manifest → AuthenticatedAnnouncement
announced bytes roster m = record {
  manifest = m;
  encoded = bytes;
  scope = roster.scope;
  roster_digest = roster.digest;
}

-- An announcement of `m`: a certified origin signed its bytes for the roster's group and epoch, and
-- every target is certified too.
pub record Announces {Key : Type 0} (ed : Ed25519 Key) (bytes : List ℕ) (roster : VerifiedRoster)
    (now : ℕ) (m : Manifest) : Type 0 where
  pub packed : List ℕ
  pub signature : List ℕ
  pub key : List ℕ
  pub packs : Packs packed m
  pub group : length roster.scope.group ≡ 32
  pub tagged : length signature ≡ 64
  pub enclosed : bytes ≡ signed (written roster.scope.group packed) signature
  pub fits : length bytes ≤ max_announcement
  pub current : validate_at now roster ≡ ok tt
  pub epoch : m.epoch ≡ roster.scope.epoch
  pub targets : All (IsMember roster) m.targets
  pub certified : signing_key_of m.origin roster ≡ ok key
  pub proven :
      verify ed key roster.scope Domain.object (written roster.scope.group packed) signature ≡ ok tt

module _ {Key : Type 0} (ed : Ed25519 Key) (bytes : List ℕ) (roster : VerifiedRoster) (now : ℕ)
    (m : Manifest) where
  accepted-Announces :
      All IsByte bytes
      → authenticate_announcement ed bytes roster now ≡ ok (announced bytes roster m)
      → Announces ed bytes roster now m
  unfolding authenticate_announcement
  accepted-Announces those h =
      let (tt, current, h₁) = >>=-eq-ok (validate_at now roster) _ h in
      let ((body, signature), parted, h₂) = >>=-eq-ok (signed_parts bytes max_announcement) _ h₁ in
      let (enclosed, tagged, fits, _, inner) =
        signed_parts_inv bytes body signature max_announcement those parted in
      let ((g, p), read, h₃) = >>=-eq-ok (read_announcement body) _ h₂ in
      let (sized, (packed, packs, split)) = read_announcement_inv body (g, p) inner read in
      let wrong = not (equal g roster.scope.group) || not (p.epoch == roster.scope.epoch) in
      let placed = reject_inv wrong authentication_failed _ h₃ in
      let h₄ = reject_then wrong authentication_failed _ h₃ in
      let own : g ≡ roster.scope.group =
        (equal_iff g roster.scope.group).0 (ground (arith, placed)) in
      let (tt, there, h₅) = >>=-eq-ok (all_members p.targets roster) _ h₄ in
      let (key, certified, h₆) = >>=-eq-ok (signing_key_of p.origin roster) _ h₅ in
      let (u, proven, last) =
        >>=-eq-ok (auth (verify ed key roster.scope Domain.object body signature)) _ h₆ in
      let text : body ≡ written roster.scope.group packed =
        split ∙ ap (λ x. written x packed) own in
      ok-subst (λ a. Announces ed bytes roster now a.manifest) (announced bytes roster p)
        (announced bytes roster m) last
        (record {
          packed = packed;
          signature = signature;
          key = key;
          packs = packs;
          group = ap length (sym own) ∙ sized;
          tagged = tagged.sized;
          enclosed = enclosed ∙ ap (λ b. signed b signature) text;
          fits = fits;
          current = current;
          epoch = ground (arith, placed);
          targets = all_members-IsMember p.targets roster there;
          certified = certified;
          proven =
              subst (λ b. verify ed key roster.scope Domain.object b signature ≡ ok tt) text
                (auth_inv _ u proven);
        })

  Announces-accepted :
      Announces ed bytes roster now m
      → authenticate_announcement ed bytes roster now ≡ ok (announced bytes roster m)
  unfolding authenticate_announcement
  Announces-accepted k =
      let body = written roster.scope.group k.packed in
      let framed : length (signed body k.signature) ≤ max_announcement =
        subst (λ b. length b ≤ max_announcement) k.enclosed k.fits in
      let parted =
        signed_parts-signed body k.signature max_announcement (omega arith) k.tagged framed in
      let small : length body ≤ max_announcement = omega (
        arith,
        framed,
        ap length (signed_bytes body k.signature),
        length-append (head_bytes 4 2) (blob body ++ blob k.signature),
        length-append (blob body) (blob k.signature),
        length-append (head_bytes 2 (length body)) body,
      ) in
      let read = read_announcement-written roster.scope.group k.packed m k.group k.packs small in
      let same = (equal_iff roster.scope.group roster.scope.group).1 refl in
      let epoch = (==_iff m.epoch roster.scope.epoch).1 k.epoch in
      rw
        (
          ap (λ b. signed_parts b max_announcement) k.enclosed,
          k.current,
          parted,
          read,
          same,
          epoch,
          IsMember-all_members m.targets roster k.targets,
          k.certified,
          k.proven,
        )
        refl

  -- A byte string is accepted as the announcement of a manifest exactly if it holds the manifest, for
  -- the roster's group and epoch, under a signature by the certified origin, every target is certified
  -- and the roster is valid.
  pub authenticate_announcement_iff :
      All IsByte bytes
      → (authenticate_announcement ed bytes roster now ≡ ok (announced bytes roster m))
        ↔ Announces ed bytes roster now m
  authenticate_announcement_iff those = (accepted-Announces those, Announces-accepted)
