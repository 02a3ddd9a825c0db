-- ===== src/Protocol/Presence/Framing.antt =====
-- The bytes of a presence record's body.
use mesh_lab.Prelude.{
  ℕ, ◌≤◌, ◌≡◌, refl, sym, ap, ◌∙◌, false, List, [], ◌++◌, length, ok, All, arith, append-nil,
  append_assoc, ok-subst, reject_inv,
}
use mesh_lab.Prelude.Ord.{bytes_ord}
use mesh_lab.Durable.{member_ord, IsByte, invalid_input}
use mesh_lab.Codec.{head_bytes}
use mesh_lab.Codec.Decodes.{At-start, At-then, At-end, array-Decodes, uint-Decodes, fixed-Decodes}
use mesh_lab.Codec.Inverse.{
  array_then, uint_then, fixed_then, new_reader_then, end_then, blob, length-head_append,
  length-blob_append,
}
use mesh_lab.Crypto.{Scope}
use mesh_lab.Protocol.Signed.{version}
use mesh_lab.Protocol.Signed.Parts.{new_reader-fits, version_then}
use mesh_lab.Protocol.Presence.{
  PresenceRecord, unfit_presence, presence_body, read_presence, max_presence_claim,
}

-- The items of a body.
abbrev pub written : Scope → PresenceRecord → List ℕ
written scope q =
    head_bytes 4 7
    ++ (head_bytes 0 1
        ++ (blob scope.group
            ++ (head_bytes 0 scope.epoch
                ++ (blob q.member.id
                    ++ (head_bytes 0 q.incarnation
                        ++ (head_bytes 0 q.sequence ++ (head_bytes 0 q.expires_at ++ [])))))))

pub presence_body-written :
    (scope : Scope) (q : PresenceRecord)
    → unfit_presence scope q ≡ false
    → presence_body scope q ≡ ok (written scope q)
unfolding presence_body
presence_body-written scope q fit = rw (fit) (ap ok (simp (append_assoc, append-nil)))

pub fit_of :
    (scope : Scope) (q : PresenceRecord) (body : List ℕ)
    → presence_body scope q ≡ ok body
    → unfit_presence scope q ≡ false
unfolding presence_body
fit_of scope q body h = reject_inv (unfit_presence scope q) invalid_input _ h

pub presence_body_inv :
    (scope : Scope) (q : PresenceRecord) (body : List ℕ)
    → presence_body scope q ≡ ok body
    → (unfit_presence scope q ≡ false) × (body ≡ written scope q)
presence_body_inv scope q body h =
    let fit = fit_of scope q body h in
    (
      fit,
      ok-subst (λ b. b ≡ written scope q) (written scope q) body
          (sym (presence_body-written scope q fit) ∙ h) refl,
    )

abbrev pub Sized : Scope → PresenceRecord → Type 0
Sized scope q = (length scope.group ≡ 32) × (length q.member.id ≡ 32)

pub read_presence_inv :
    (body : List ℕ) (t : Scope × PresenceRecord)
    → All IsByte body
    → read_presence body ≡ ok t
    → (body ≡ written t.0 t.1) × Sized t.0 t.1
unfolding read_presence
read_presence_inv body t those h = new_reader_then body max_presence_claim _ t h (λ _ h.
    array_then 7 _ _ t those h (λ _ r₀ (_, e₀, b, h). uint_then _ r₀ t b h (λ v r₁ (_, e₁, b, h).
      version_then v _ t h (λ one h. fixed_then 32 _ r₁ t b h (λ group r₂ (s₂, e₂, b, h).
        uint_then _ r₂ t b h (λ epoch r₃ (_, e₃, b, h).
          fixed_then 32 _ r₃ t b h (λ member r₄ (s₄, e₄, b, h).
            uint_then _ r₄ t b h (λ incarnation r₅ (_, e₅, b, h).
              uint_then _ r₅ t b h (λ sequence r₆ (_, e₆, b, h).
                uint_then _ r₆ t b h (λ expiry r₇ (_, e₇, b, h). end_then _ r₇ t h (λ nothing last.
                  ok-subst (λ x. (body ≡ written x.0 x.1) × Sized x.0 x.1) _ t last
                    (
                      e₀ ∙ rw (e₁, e₂, e₃, e₄, e₅, e₆, e₇, nothing, one),
                      (s₂.sized, s₄.sized),
                    ))))))))))))

pub length-written :
    (scope : Scope) (q : PresenceRecord) → Sized scope q → length (written scope q) ≤ 136
length-written scope q (group, member) =
    let tail₆ = head_bytes 0 q.sequence ++ (head_bytes 0 q.expires_at ++ []) in
    let tail₅ = head_bytes 0 q.incarnation ++ tail₆ in
    let tail₄ = blob q.member.id ++ tail₅ in
    let tail₃ = head_bytes 0 scope.epoch ++ tail₄ in
    let tail₂ = blob scope.group ++ tail₃ in
    omega (
      arith,
      length-head_append 4 7 (head_bytes 0 1 ++ tail₂),
      length-head_append 0 1 tail₂,
      length-blob_append scope.group tail₃,
      length-head_append 0 scope.epoch tail₄,
      length-blob_append q.member.id tail₅,
      length-head_append 0 q.incarnation tail₆,
      length-head_append 0 q.sequence (head_bytes 0 q.expires_at ++ []),
      length-head_append 0 q.expires_at [],
      group,
      member,
    )

pub read_presence-written :
    (scope : Scope) (q : PresenceRecord)
    → unfit_presence scope q ≡ false
    → Sized scope q
    → read_presence (written scope q) ≡ ok (scope, q)
unfolding read_presence version
read_presence-written scope q fit s =
    let small = length-written scope q s in
    let tail₇ = head_bytes 0 q.expires_at ++ [] in
    let tail₆ = head_bytes 0 q.sequence ++ tail₇ in
    let tail₅ = head_bytes 0 q.incarnation ++ tail₆ in
    let tail₄ = blob q.member.id ++ tail₅ in
    let tail₃ = head_bytes 0 scope.epoch ++ tail₄ in
    let tail₂ = blob scope.group ++ tail₃ in
    let tail₁ = head_bytes 0 1 ++ tail₂ in
    At-then _ tail₁ (array-Decodes 7 (omega arith))
      (At-start (written scope q) (omega (arith, small)))
      (λ r₀ e₀ at. At-then r₀ tail₂ (uint-Decodes 1 (omega arith)) at (λ r₁ e₁ at.
        At-then r₁ tail₃ (fixed-Decodes 32 scope.group s.0) at (λ r₂ e₂ at.
          At-then r₂ tail₄ (uint-Decodes scope.epoch (ground (arith, fit))) at (λ r₃ e₃ at.
            At-then r₃ tail₅ (fixed-Decodes 32 q.member.id s.1) at (λ r₄ e₄ at.
              At-then r₄ tail₆ (uint-Decodes q.incarnation (ground (arith, fit))) at (λ r₅ e₅ at.
                At-then r₅ tail₇ (uint-Decodes q.sequence (ground (arith, fit))) at (λ r₆ e₆ at.
                  At-then r₆ [] (uint-Decodes q.expires_at (ground (arith, fit))) at (λ r₇ e₇ at.
                    rw (
                      new_reader-fits (written scope q) max_presence_claim (omega (arith, small)),
                      e₀,
                      e₁,
                      e₂,
                      e₃,
                      e₄,
                      e₅,
                      e₆,
                      e₇,
                      At-end r₇ at,
                    )))))))))
