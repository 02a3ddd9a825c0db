-- ===== src/Protocol/ReceiptAck/Framing.antt =====
-- The bytes of an acknowledgement's body.
use mesh_lab.Prelude.{
  ℕ, ◌≤◌, ◌≡◌, ◌∙◌, List, [], ◌++◌, length, ok, All, arith, append-nil, append_assoc, ok-subst,
}
use mesh_lab.Prelude.Ord.{bytes_ord}
use mesh_lab.Durable.{IsByte, IsU64}
use mesh_lab.Codec.{head_bytes}
use mesh_lab.Codec.Decodes.{At-start, At-then, At-end, array-Decodes, uint-Decodes, fixed-Decodes}
use mesh_lab.Codec.Inverse.{
  array_then, uint_then, fixed_then, new_reader_then, end_then, blob, length-head_append,
  length-blob_append,
}
use mesh_lab.Crypto.{Scope}
use mesh_lab.Protocol.Signed.{version}
use mesh_lab.Protocol.Signed.Parts.{new_reader-fits, version_then}
use mesh_lab.Protocol.ReceiptAck.{ReceiptAckRoute, receipt_ack_body, read_ack, max_receipt_ack}

-- The arrays of an acknowledgement have their sizes, and its numbers are words.
pub record IsSized (q : ReceiptAckRoute) (scope : Scope) (at_time : ℕ) : Type 0 where
  pub group : length scope.group ≡ 32
  pub receipt_id : length q.receipt_id ≡ 32
  pub object : length q.object.id ≡ 32
  pub origin : length q.origin.id ≡ 32
  pub actor : length q.actor.id ≡ 32
  pub epoch : IsU64 scope.epoch
  pub word : IsU64 at_time

-- The items of a body.
abbrev pub written : Scope → ReceiptAckRoute → ℕ → List ℕ
written scope q at_time =
    head_bytes 4 9
    ++ (head_bytes 0 1
        ++ (head_bytes 0 1
            ++ (blob scope.group
                ++ (head_bytes 0 scope.epoch
                    ++ (blob q.receipt_id
                        ++ (blob q.object.id
                            ++ (blob q.origin.id
                                ++ (blob q.actor.id ++ (head_bytes 0 at_time ++ [])))))))))

pub receipt_ack_body-written :
    (scope : Scope) (q : ReceiptAckRoute) (at_time : ℕ)
    → receipt_ack_body scope q at_time ≡ written scope q at_time
unfolding receipt_ack_body
receipt_ack_body-written scope q at_time = simp (append_assoc, append-nil)

pub read_ack_inv :
    (body : List ℕ) (t : ReceiptAckRoute × Scope × ℕ)
    → All IsByte body
    → read_ack body ≡ ok t
    → (body ≡ written t.1 t.0 t.2) × IsSized t.0 t.1 t.2
unfolding read_ack
read_ack_inv body t those h = new_reader_then body max_receipt_ack _ t h (λ _ h.
    array_then 9 _ _ t those h (λ _ r₀ (_, e₀, b, h). uint_then _ r₀ t b h (λ v r₁ (_, e₁, b, h).
      version_then v _ t h (λ one h. uint_then _ r₁ t b h (λ w r₂ (_, e₂, b, h).
        version_then w _ t h (λ two h. fixed_then 32 _ r₂ t b h (λ group r₃ (s₃, e₃, b, h).
          uint_then _ r₃ t b h (λ epoch r₄ (u₄, e₄, b, h).
            fixed_then 32 _ r₄ t b h (λ receipt_id r₅ (s₅, e₅, b, h).
              fixed_then 32 _ r₅ t b h (λ object r₆ (s₆, e₆, b, h).
                fixed_then 32 _ r₆ t b h (λ origin r₇ (s₇, e₇, b, h).
                  fixed_then 32 _ r₇ t b h (λ actor r₈ (s₈, e₈, b, h).
                    uint_then _ r₈ t b h (λ stamp r₉ (u₉, e₉, b, h).
                      end_then _ r₉ t h (λ nothing last.
                        ok-subst (λ x. (body ≡ written x.1 x.0 x.2) × IsSized x.0 x.1 x.2) _ t last
                          (
                            e₀ ∙ rw (e₁, e₂, e₃, e₄, e₅, e₆, e₇, e₈, e₉, nothing, one, two),
                            record {
                              group = s₃.sized;
                              receipt_id = s₅.sized;
                              object = s₆.sized;
                              origin = s₇.sized;
                              actor = s₈.sized;
                              epoch = u₄;
                              word = u₉;
                            },
                          )))))))))))))))

pub length-written :
    (scope : Scope) (q : ReceiptAckRoute) (at_time : ℕ)
    → IsSized q scope at_time
    → length (written scope q at_time) ≤ 250
length-written scope q at_time s =
    let tail₈ = blob q.actor.id ++ (head_bytes 0 at_time ++ []) in
    let tail₇ = blob q.origin.id ++ tail₈ in
    let tail₆ = blob q.object.id ++ tail₇ in
    let tail₅ = blob q.receipt_id ++ tail₆ in
    let tail₄ = head_bytes 0 scope.epoch ++ tail₅ in
    let tail₃ = blob scope.group ++ tail₄ in
    let tail₂ = head_bytes 0 1 ++ tail₃ in
    omega (
      arith,
      length-head_append 4 9 (head_bytes 0 1 ++ tail₂),
      length-head_append 0 1 tail₂,
      length-head_append 0 1 tail₃,
      length-blob_append scope.group tail₄,
      length-head_append 0 scope.epoch tail₅,
      length-blob_append q.receipt_id tail₆,
      length-blob_append q.object.id tail₇,
      length-blob_append q.origin.id tail₈,
      length-blob_append q.actor.id (head_bytes 0 at_time ++ []),
      length-head_append 0 at_time [],
      s.group,
      s.receipt_id,
      s.object,
      s.origin,
      s.actor,
    )

pub read_ack-written :
    (scope : Scope) (q : ReceiptAckRoute) (at_time : ℕ)
    → IsSized q scope at_time
    → read_ack (written scope q at_time) ≡ ok (q, scope, at_time)
unfolding read_ack version
read_ack-written scope q at_time s =
    let whole = written scope q at_time in
    let small = length-written scope q at_time s in
    let tail₉ = head_bytes 0 at_time ++ [] in
    let tail₈ = blob q.actor.id ++ tail₉ in
    let tail₇ = blob q.origin.id ++ tail₈ in
    let tail₆ = blob q.object.id ++ tail₇ in
    let tail₅ = blob q.receipt_id ++ tail₆ in
    let tail₄ = head_bytes 0 scope.epoch ++ tail₅ in
    let tail₃ = blob scope.group ++ tail₄ in
    let tail₂ = head_bytes 0 1 ++ tail₃ in
    let tail₁ = head_bytes 0 1 ++ tail₂ in
    At-then _ tail₁ (array-Decodes 9 (omega arith)) (At-start whole (omega (arith, small)))
      (λ r₀ e₀ at. At-then r₀ tail₂ (uint-Decodes 1 (omega arith)) at (λ r₁ e₁ at.
        At-then r₁ tail₃ (uint-Decodes 1 (omega arith)) at (λ r₂ e₂ at.
          At-then r₂ tail₄ (fixed-Decodes 32 scope.group s.group) at (λ r₃ e₃ at.
            At-then r₃ tail₅ (uint-Decodes scope.epoch s.epoch) at (λ r₄ e₄ at.
              At-then r₄ tail₆ (fixed-Decodes 32 q.receipt_id s.receipt_id) at (λ r₅ e₅ at.
                At-then r₅ tail₇ (fixed-Decodes 32 q.object.id s.object) at (λ r₆ e₆ at.
                  At-then r₆ tail₈ (fixed-Decodes 32 q.origin.id s.origin) at (λ r₇ e₇ at.
                    At-then r₇ tail₉ (fixed-Decodes 32 q.actor.id s.actor) at (λ r₈ e₈ at.
                      At-then r₈ [] (uint-Decodes at_time s.word) at (λ r₉ e₉ at. rw (
                        new_reader-fits whole max_receipt_ack (omega (arith, small)),
                        e₀,
                        e₁,
                        e₂,
                        e₃,
                        e₄,
                        e₅,
                        e₆,
                        e₇,
                        e₈,
                        e₉,
                        At-end r₉ at,
                      )))))))))))
