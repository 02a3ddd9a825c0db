-- ===== src/Protocol/Handoff/Body.antt =====
-- The bytes of a handoff's body.
use mesh_lab.Prelude.{
  ℕ, ◌+◌, ◌≤◌, ◌≡◌, refl, sym, ap, ◌∙◌, false, not, ◌||◌, List, [], ◌++◌, some, length, ◌==◌,
  ==_iff, ok, ok_or, ok_or-eq-ok, All, arith, append-nil, append_assoc, >>=-eq-ok, ok-subst,
  reject_inv, reject_then,
}
use mesh_lab.Prelude.Ord.{equal, bytes_ord}
use mesh_lab.Durable.{IsByte, invalid_input, max_logical_time}
use mesh_lab.Codec.{head_bytes, checked_add}
use mesh_lab.Codec.Decodes.{At-start, At-then, At-end, array-Decodes, uint-Decodes, fixed-Decodes}
use mesh_lab.Codec.Inverse.{
  array_then, uint_then, fixed_then, new_reader_then, end_then, blob, length-head_append,
  length-blob_append,
}
use mesh_lab.Object.{outside}
use mesh_lab.Protocol.Signed.{version}
use mesh_lab.Protocol.Signed.Parts.{new_reader-fits, version_then}
use mesh_lab.Protocol.Handoff.{AuthorityHandoff, handoff_body, read_handoff, max_authority_handoff}

-- The arrays of a handoff have their sizes.
pub record IsSized (h : AuthorityHandoff) : Type 0 where
  pub prior_authority : length h.prior_authority ≡ 32
  pub group : length h.prior_scope.group ≡ 32
  pub prior_roster_digest : length h.prior_roster_digest ≡ 32
  pub next_authority : length h.next_authority ≡ 32
  pub signature : length h.signature ≡ 64

-- What `body` asks of a handoff.
pub record IsFit (h : AuthorityHandoff) : Type 0 where
  pub begun : 1 ≤ h.prior_scope.epoch
  pub epoch : h.prior_scope.epoch ≤ max_logical_time
  pub next : h.next_epoch ≡ h.prior_scope.epoch + 1
  pub some_time : 1 ≤ h.valid_until
  pub valid_until : h.valid_until ≤ max_logical_time
  pub another : equal h.next_authority h.prior_authority ≡ false

-- The items of a body.
abbrev pub written : AuthorityHandoff → List ℕ
written h =
    head_bytes 4 8
    ++ (head_bytes 0 1
        ++ (blob h.prior_authority
            ++ (blob h.prior_scope.group
                ++ (head_bytes 0 h.prior_scope.epoch
                    ++ (blob h.prior_roster_digest
                        ++ (blob h.next_authority
                            ++ (head_bytes 0 h.next_epoch
                                ++ (head_bytes 0 h.valid_until ++ []))))))))

pub handoff_body-written : (h : AuthorityHandoff) → IsFit h → handoff_body h ≡ ok (written h)
unfolding handoff_body
handoff_body-written h f =
    let legal : outside max_logical_time h.prior_scope.epoch ≡ false =
      ground (arith, f.begun, f.epoch) in
    let timed : outside max_logical_time h.valid_until ≡ false =
      ground (arith, f.some_time, f.valid_until) in
    let next : checked_add h.prior_scope.epoch 1 ≡ some h.next_epoch =
      rw f.next (ground (arith, f.epoch)) in
    rw (legal, next, timed, f.another, (==_iff h.next_epoch h.next_epoch).1 refl)
      (ap ok (simp (append_assoc, append-nil)))

pub handoff_body-IsFit : (h : AuthorityHandoff) (body : List ℕ) → handoff_body h ≡ ok body → IsFit h
unfolding handoff_body
handoff_body-IsFit h body e =
    let legal = reject_inv (outside max_logical_time h.prior_scope.epoch) invalid_input _ e in
    let e₁ = reject_then (outside max_logical_time h.prior_scope.epoch) invalid_input _ e in
    let (next, added, e₂) =
      >>=-eq-ok (ok_or (checked_add h.prior_scope.epoch 1) invalid_input) _ e₁ in
    let sum = ok_or-eq-ok (checked_add h.prior_scope.epoch 1) invalid_input next added in
    let fits =
      reject_inv
        (not (h.next_epoch == next)
          || outside max_logical_time h.valid_until
          || equal h.next_authority h.prior_authority)
        invalid_input _ e₂ in
    record {
      begun = ground (arith, legal);
      epoch = ground (arith, legal);
      next = ground (arith, sum, fits);
      some_time = ground (arith, fits);
      valid_until = ground (arith, fits);
      another = ground (arith, fits);
    }

pub handoff_body_inv :
    (h : AuthorityHandoff) (body : List ℕ) → handoff_body h ≡ ok body → IsFit h × (body ≡ written h)
handoff_body_inv h body e =
    let fit = handoff_body-IsFit h body e in
    (
      fit,
      ok-subst (λ b. b ≡ written h) (written h) body (sym (handoff_body-written h fit) ∙ e) refl,
    )

pub read_handoff_inv :
    (body signature : List ℕ) (h : AuthorityHandoff)
    → All IsByte body
    → length signature ≡ 64
    → read_handoff body signature ≡ ok h
    → (body ≡ written h) × (h.signature ≡ signature) × IsSized h
unfolding read_handoff
read_handoff_inv body signature t those tagged h =
    new_reader_then body max_authority_handoff _ t h (λ _ h.
      array_then 8 _ _ t those h (λ _ r₀ (_, e₀, b, h). uint_then _ r₀ t b h (λ v r₁ (_, e₁, b, h).
        version_then v _ t h (λ one h. fixed_then 32 _ r₁ t b h (λ prior r₂ (s₂, e₂, b, h).
          fixed_then 32 _ r₂ t b h (λ group r₃ (s₃, e₃, b, h).
            uint_then _ r₃ t b h (λ epoch r₄ (_, e₄, b, h).
              fixed_then 32 _ r₄ t b h (λ digest r₅ (s₅, e₅, b, h).
                fixed_then 32 _ r₅ t b h (λ next r₆ (s₆, e₆, b, h).
                  uint_then _ r₆ t b h (λ next_epoch r₇ (_, e₇, b, h).
                    uint_then _ r₇ t b h (λ until r₈ (_, e₈, b, h).
                      end_then _ r₈ t h (λ nothing last.
                        ok-subst (λ x. (body ≡ written x) × (x.signature ≡ signature) × IsSized x) _
                          t last
                          (
                            e₀ ∙ rw (e₁, e₂, e₃, e₄, e₅, e₆, e₇, e₈, nothing, one),
                            refl,
                            record {
                              prior_authority = s₂.sized;
                              group = s₃.sized;
                              prior_roster_digest = s₅.sized;
                              next_authority = s₆.sized;
                              signature = tagged;
                            },
                          )))))))))))))

pub length-written : (h : AuthorityHandoff) → IsSized h → length (written h) ≤ 209
length-written h s =
    let tail₈ = head_bytes 0 h.valid_until ++ [] in
    let tail₇ = head_bytes 0 h.next_epoch ++ tail₈ in
    let tail₆ = blob h.next_authority ++ tail₇ in
    let tail₅ = blob h.prior_roster_digest ++ tail₆ in
    let tail₄ = head_bytes 0 h.prior_scope.epoch ++ tail₅ in
    let tail₃ = blob h.prior_scope.group ++ tail₄ in
    let tail₂ = blob h.prior_authority ++ tail₃ in
    omega (
      arith,
      length-head_append 4 8 (head_bytes 0 1 ++ tail₂),
      length-head_append 0 1 tail₂,
      length-blob_append h.prior_authority tail₃,
      length-blob_append h.prior_scope.group tail₄,
      length-head_append 0 h.prior_scope.epoch tail₅,
      length-blob_append h.prior_roster_digest tail₆,
      length-blob_append h.next_authority tail₇,
      length-head_append 0 h.next_epoch tail₈,
      length-head_append 0 h.valid_until [],
      s.prior_authority,
      s.group,
      s.prior_roster_digest,
      s.next_authority,
    )

pub read_handoff-written :
    (h : AuthorityHandoff) → IsFit h → IsSized h → read_handoff (written h) h.signature ≡ ok h
unfolding read_handoff version
read_handoff-written h f s =
    let small = length-written h s in
    let tail₈ = head_bytes 0 h.valid_until ++ [] in
    let tail₇ = head_bytes 0 h.next_epoch ++ tail₈ in
    let tail₆ = blob h.next_authority ++ tail₇ in
    let tail₅ = blob h.prior_roster_digest ++ tail₆ in
    let tail₄ = head_bytes 0 h.prior_scope.epoch ++ tail₅ in
    let tail₃ = blob h.prior_scope.group ++ tail₄ in
    let tail₂ = blob h.prior_authority ++ tail₃ in
    let tail₁ = head_bytes 0 1 ++ tail₂ in
    At-then _ tail₁ (array-Decodes 8 (omega arith)) (At-start (written h) (omega (arith, small)))
      (λ r₀ e₀ at. At-then r₀ tail₂ (uint-Decodes 1 (omega arith)) at (λ r₁ e₁ at.
        At-then r₁ tail₃ (fixed-Decodes 32 h.prior_authority s.prior_authority) at (λ r₂ e₂ at.
          At-then r₂ tail₄ (fixed-Decodes 32 h.prior_scope.group s.group) at (λ r₃ e₃ at.
            At-then r₃ tail₅ (uint-Decodes h.prior_scope.epoch (omega (arith, f.epoch))) at
              (λ r₄ e₄ at.
                At-then r₄ tail₆ (fixed-Decodes 32 h.prior_roster_digest s.prior_roster_digest) at
                  (λ r₅ e₅ at.
                    At-then r₅ tail₇ (fixed-Decodes 32 h.next_authority s.next_authority) at
                      (λ r₆ e₆ at.
                        At-then r₆ tail₈
                          (uint-Decodes h.next_epoch (omega (arith, f.epoch, f.next))) at
                          (λ r₇ e₇ at.
                            At-then r₇ []
                              (uint-Decodes h.valid_until (omega (arith, f.valid_until))) at
                              (λ r₈ e₈ at. rw (
                                new_reader-fits (written h) max_authority_handoff
                                    (omega (arith, small)),
                                e₀,
                                e₁,
                                e₂,
                                e₃,
                                e₄,
                                e₅,
                                e₆,
                                e₇,
                                e₈,
                                At-end r₈ at,
                              ))))))))))
