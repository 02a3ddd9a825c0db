-- ===== src/Protocol/Receipt/Framing.antt =====
-- What a relay learns of a receipt.
use mesh_lab.Prelude.{ℕ, ◌≤◌, ◌≡◌, List, [], ◌++◌, length, ok, arith, append-nil, append_assoc}
use mesh_lab.Durable.{MemberId, ObjectId, IsU64}
use mesh_lab.Codec.{head_bytes}
use mesh_lab.Codec.Decodes.{At-start, At-then, At-end, array-Decodes, uint-Decodes, fixed-Decodes}
use mesh_lab.Codec.Inverse.{blob, length-head_append, length-blob_append}
use mesh_lab.Crypto.{Scope}
use mesh_lab.Protocol.Signed.{version, signed}
use mesh_lab.Protocol.Signed.Parts.{signed_parts-signed, new_reader-fits, length-signed}
use mesh_lab.Protocol.ReceiptAck.{max_receipt}
use mesh_lab.Protocol.Receipt.{receipt_body, read_route, receipt_route}

module _ (scope : Scope) (context_id : List ℕ) (id : ObjectId) (origin : MemberId) (sequence : ℕ)
    (actor : MemberId) (at_time : ℕ) where
  -- The arrays of a receipt have their sizes, and its numbers are words.
  pub record IsSized : Type 0 where
    pub group : length scope.group ≡ 32
    pub context : length context_id ≡ 32
    pub object : length id.id ≡ 32
    pub sender : length origin.id ≡ 32
    pub receiver : length actor.id ≡ 32
    pub epoch : IsU64 scope.epoch
    pub number : IsU64 sequence
    pub word : IsU64 at_time

  -- The items of a body.
  abbrev written : List ℕ
  written =
      head_bytes 4 10
      ++ (head_bytes 0 1
          ++ (head_bytes 0 1
              ++ (blob scope.group
                  ++ (head_bytes 0 scope.epoch
                      ++ (blob context_id
                          ++ (blob id.id
                              ++ (blob origin.id
                                  ++ (head_bytes 0 sequence
                                      ++ (blob actor.id ++ (head_bytes 0 at_time ++ []))))))))))

  receipt_body-written : receipt_body scope context_id id origin sequence actor at_time ≡ written
  unfolding receipt_body
  receipt_body-written = simp (append_assoc, append-nil)

  length-written : IsSized → length written ≤ 259
  length-written s =
      let tail₉ = blob actor.id ++ (head_bytes 0 at_time ++ []) in
      let tail₈ = head_bytes 0 sequence ++ tail₉ in
      let tail₇ = blob origin.id ++ tail₈ in
      let tail₆ = blob id.id ++ tail₇ in
      let tail₅ = blob context_id ++ tail₆ in
      let tail₄ = head_bytes 0 scope.epoch ++ tail₅ in
      let tail₃ = blob scope.group ++ tail₄ in
      let tail₂ = head_bytes 0 1 ++ tail₃ in
      omega (
        arith,
        length-head_append 4 10 (head_bytes 0 1 ++ tail₂),
        length-head_append 0 1 tail₂,
        length-head_append 0 1 tail₃,
        length-blob_append scope.group tail₄,
        length-head_append 0 scope.epoch tail₅,
        length-blob_append context_id tail₆,
        length-blob_append id.id tail₇,
        length-blob_append origin.id tail₈,
        length-head_append 0 sequence tail₉,
        length-blob_append actor.id (head_bytes 0 at_time ++ []),
        length-head_append 0 at_time [],
        s.group,
        s.context,
        s.object,
        s.sender,
        s.receiver,
      )

  read_route-written : IsSized → read_route written ≡ ok (record { object = id; actor = actor })
  unfolding read_route version
  read_route-written s =
      let small = length-written s in
      let tail₁₀ = head_bytes 0 at_time ++ [] in
      let tail₉ = blob actor.id ++ tail₁₀ in
      let tail₈ = head_bytes 0 sequence ++ tail₉ in
      let tail₇ = blob origin.id ++ tail₈ in
      let tail₆ = blob id.id ++ tail₇ in
      let tail₅ = blob context_id ++ tail₆ in
      let tail₄ = head_bytes 0 scope.epoch ++ tail₅ in
      let tail₃ = blob scope.group ++ tail₄ in
      let tail₂ = head_bytes 0 1 ++ tail₃ in
      let tail₁ = head_bytes 0 1 ++ tail₂ in
      At-then _ tail₁ (array-Decodes 10 (omega arith)) (At-start written (omega (arith, small)))
        (λ r₀ e₀ at. At-then r₀ tail₂ (uint-Decodes 1 (omega arith)) at (λ r₁ e₁ at.
          At-then r₁ tail₃ (uint-Decodes 1 (omega arith)) at (λ r₂ e₂ at.
            At-then r₂ tail₄ (fixed-Decodes 32 scope.group s.group) at (λ r₃ e₃ at.
              At-then r₃ tail₅ (uint-Decodes scope.epoch s.epoch) at (λ r₄ e₄ at.
                At-then r₄ tail₆ (fixed-Decodes 32 context_id s.context) at (λ r₅ e₅ at.
                  At-then r₅ tail₇ (fixed-Decodes 32 id.id s.object) at (λ r₆ e₆ at.
                    At-then r₆ tail₈ (fixed-Decodes 32 origin.id s.sender) at (λ r₇ e₇ at.
                      At-then r₇ tail₉ (uint-Decodes sequence s.number) at (λ r₈ e₈ at.
                        At-then r₈ tail₁₀ (fixed-Decodes 32 actor.id s.receiver) at (λ r₉ e₉ at.
                          At-then r₉ [] (uint-Decodes at_time s.word) at (λ r₁₀ e₁₀ at. rw (
                            new_reader-fits written max_receipt (omega (arith, small)),
                            e₀,
                            e₁,
                            e₂,
                            e₃,
                            e₄,
                            e₅,
                            e₆,
                            e₇,
                            e₈,
                            e₉,
                            e₁₀,
                            At-end r₁₀ at,
                          ))))))))))))

  -- A relay routes a signed receipt by the object and the actor that it was made for.
  pub receipt_route-signed :
      (signature : List ℕ)
      → IsSized
      → length signature ≡ 64
      → receipt_route
          (signed (receipt_body scope context_id id origin sequence actor at_time) signature)
        ≡ ok (record { object = id; actor = actor })
  unfolding receipt_route
  receipt_route-signed signature s tagged =
      let framed : length (signed written signature) ≤ max_receipt =
        omega (arith, length-signed written signature, tagged, length-written s) in
      rw
        (
          receipt_body-written,
          signed_parts-signed written signature max_receipt (omega arith) tagged framed,
        )
        (read_route-written s)
