-- ===== src/Protocol/Enrollment/Framing.antt =====
-- The bytes of a request's body.
use mesh_lab.Prelude.{
  ℕ, ◌≤◌, ◌≡◌, refl, sym, ap, ◌∙◌, false, List, [], ◌++◌, length, ok, All, arith, append-nil,
  append_assoc, ok-subst, reject_inv,
}
use mesh_lab.Prelude.Ord.{bytes_ord}
use mesh_lab.Durable.{IsByte, invalid_input}
use mesh_lab.Codec.{head_bytes}
use mesh_lab.Codec.Decodes.{At-start, At-then, At-end, array-Decodes, uint-Decodes, fixed-Decodes}
use mesh_lab.Codec.Inverse.{
  array_then, uint_then, fixed_then, new_reader_then, end_then, blob, length-head_append,
  length-blob_append,
}
use mesh_lab.Protocol.Signed.{version}
use mesh_lab.Protocol.Signed.Parts.{new_reader-fits, version_then}
use mesh_lab.Protocol.Enrollment.{
  EnrollmentRequest, unfit_enrollment, enrollment_body, read_enrollment, max_enrollment_request,
}

-- The arrays of a request have their sizes.
pub record IsSized (q : EnrollmentRequest) : Type 0 where
  pub group : length q.scope.group ≡ 32
  pub member : length q.member.id ≡ 32
  pub signing_key : length q.signing_key ≡ 32
  pub delivery_key : length q.delivery_key ≡ 32
  pub nonce : length q.nonce ≡ 16

-- The items of a body.
abbrev pub written : EnrollmentRequest → List ℕ
written q =
    head_bytes 4 9
    ++ (head_bytes 0 1
        ++ (blob q.scope.group
            ++ (head_bytes 0 q.scope.epoch
                ++ (blob q.member.id
                    ++ (blob q.signing_key
                        ++ (blob q.delivery_key
                            ++ (head_bytes 0 q.valid_from
                                ++ (head_bytes 0 q.valid_until ++ (blob q.nonce ++ [])))))))))

pub enrollment_body-written :
    (q : EnrollmentRequest) → unfit_enrollment q ≡ false → enrollment_body q ≡ ok (written q)
unfolding enrollment_body
enrollment_body-written q fit = rw (fit) (ap ok (simp (append_assoc, append-nil)))

pub fit_of :
    (q : EnrollmentRequest) (body : List ℕ)
    → enrollment_body q ≡ ok body
    → unfit_enrollment q ≡ false
unfolding enrollment_body
fit_of q body h = reject_inv (unfit_enrollment q) invalid_input _ h

pub enrollment_body_inv :
    (q : EnrollmentRequest) (body : List ℕ)
    → enrollment_body q ≡ ok body
    → (unfit_enrollment q ≡ false) × (body ≡ written q)
enrollment_body_inv q body h =
    let fit = fit_of q body h in
    (
      fit,
      ok-subst (λ b. b ≡ written q) (written q) body (sym (enrollment_body-written q fit) ∙ h) refl,
    )

pub read_enrollment_inv :
    (body : List ℕ) (q : EnrollmentRequest)
    → All IsByte body
    → read_enrollment body ≡ ok q
    → (body ≡ written q) × IsSized q
unfolding read_enrollment
read_enrollment_inv body q those h = new_reader_then body max_enrollment_request _ q h (λ _ h.
    array_then 9 _ _ q those h (λ _ r₀ (_, e₀, b, h). uint_then _ r₀ q b h (λ v r₁ (_, e₁, b, h).
      version_then v _ q h (λ one h. fixed_then 32 _ r₁ q b h (λ group r₂ (s₂, e₂, b, h).
        uint_then _ r₂ q b h (λ epoch r₃ (_, e₃, b, h).
          fixed_then 32 _ r₃ q b h (λ member r₄ (s₄, e₄, b, h).
            fixed_then 32 _ r₄ q b h (λ signing r₅ (s₅, e₅, b, h).
              fixed_then 32 _ r₅ q b h (λ delivery r₆ (s₆, e₆, b, h).
                uint_then _ r₆ q b h (λ from r₇ (_, e₇, b, h).
                  uint_then _ r₇ q b h (λ until r₈ (_, e₈, b, h).
                    fixed_then 16 _ r₈ q b h (λ nonce r₉ (s₉, e₉, b, h).
                      end_then _ r₉ q h (λ nothing last.
                        ok-subst (λ x. (body ≡ written x) × IsSized x) _ q last
                          (
                            e₀ ∙ rw (e₁, e₂, e₃, e₄, e₅, e₆, e₇, e₈, e₉, nothing, one),
                            record {
                              group = s₂.sized;
                              member = s₄.sized;
                              signing_key = s₅.sized;
                              delivery_key = s₆.sized;
                              nonce = s₉.sized;
                            },
                          ))))))))))))))

pub length-written : (q : EnrollmentRequest) → IsSized q → length (written q) ≤ 266
length-written q s =
    let tail₈ = head_bytes 0 q.valid_until ++ (blob q.nonce ++ []) in
    let tail₇ = head_bytes 0 q.valid_from ++ tail₈ in
    let tail₆ = blob q.delivery_key ++ tail₇ in
    let tail₅ = blob q.signing_key ++ tail₆ in
    let tail₄ = blob q.member.id ++ tail₅ in
    let tail₃ = head_bytes 0 q.scope.epoch ++ tail₄ in
    let tail₂ = blob q.scope.group ++ tail₃ in
    omega (
      arith,
      length-head_append 4 9 (head_bytes 0 1 ++ tail₂),
      length-head_append 0 1 tail₂,
      length-blob_append q.scope.group tail₃,
      length-head_append 0 q.scope.epoch tail₄,
      length-blob_append q.member.id tail₅,
      length-blob_append q.signing_key tail₆,
      length-blob_append q.delivery_key tail₇,
      length-head_append 0 q.valid_from tail₈,
      length-head_append 0 q.valid_until (blob q.nonce ++ []),
      length-blob_append q.nonce [],
      s.group,
      s.member,
      s.signing_key,
      s.delivery_key,
      s.nonce,
    )

pub read_enrollment-written :
    (q : EnrollmentRequest)
    → unfit_enrollment q ≡ false
    → IsSized q
    → read_enrollment (written q) ≡ ok q
unfolding read_enrollment version
read_enrollment-written q fit s =
    let small = length-written q s in
    let tail₉ = blob q.nonce ++ [] in
    let tail₈ = head_bytes 0 q.valid_until ++ tail₉ in
    let tail₇ = head_bytes 0 q.valid_from ++ tail₈ in
    let tail₆ = blob q.delivery_key ++ tail₇ in
    let tail₅ = blob q.signing_key ++ tail₆ in
    let tail₄ = blob q.member.id ++ tail₅ in
    let tail₃ = head_bytes 0 q.scope.epoch ++ tail₄ in
    let tail₂ = blob q.scope.group ++ tail₃ in
    let tail₁ = head_bytes 0 1 ++ tail₂ in
    At-then _ tail₁ (array-Decodes 9 (omega arith)) (At-start (written q) (omega (arith, small)))
      (λ r₀ e₀ at. At-then r₀ tail₂ (uint-Decodes 1 (omega arith)) at (λ r₁ e₁ at.
        At-then r₁ tail₃ (fixed-Decodes 32 q.scope.group s.group) at (λ r₂ e₂ at.
          At-then r₂ tail₄ (uint-Decodes q.scope.epoch (ground (arith, fit))) at (λ r₃ e₃ at.
            At-then r₃ tail₅ (fixed-Decodes 32 q.member.id s.member) at (λ r₄ e₄ at.
              At-then r₄ tail₆ (fixed-Decodes 32 q.signing_key s.signing_key) at (λ r₅ e₅ at.
                At-then r₅ tail₇ (fixed-Decodes 32 q.delivery_key s.delivery_key) at (λ r₆ e₆ at.
                  At-then r₆ tail₈ (uint-Decodes q.valid_from (ground (arith, fit))) at (λ r₇ e₇ at.
                    At-then r₇ tail₉ (uint-Decodes q.valid_until (ground (arith, fit))) at
                      (λ r₈ e₈ at. At-then r₈ [] (fixed-Decodes 16 q.nonce s.nonce) at (λ r₉ e₉ at.
                        rw (
                          new_reader-fits (written q) max_enrollment_request (omega (arith, small)),
                          e₀,
                          e₁,
                          e₂,
                          e₃,
                          e₄,
                          e₅,
                          e₆,
                          e₇,
                          e₈,
                          e₉,
                          At-end r₉ at,
                        )))))))))))
