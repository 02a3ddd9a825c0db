-- ===== src/Runtime/Sender.antt =====
-- crates/mesh-runtime/src/durable.rs: `DurableSender`, the durable-send reducer.
pub mod Moves
pub mod Tokens
pub mod Once
pub mod Progress
mod Tests
use mesh_lab.Prelude.{
  ℕ, ◌+◌, ◌%◌, ◌^◌, Bool, true, false, not, ◌&&◌, ◌||◌, List, [], ◌∷◌, ◌++◌, Option, some, none,
  map, length, ltb, leb, ◌==◌, if◌then◌else◌, ok, err, ◌>>◌, reject, ok_or,
}
use mesh_lab.Prelude.Ord.{equal, bytes_ord}
use mesh_lab.Prelude.OrdMap.{OrdMap, get, insert, remove}
use mesh_lab.Prelude.Find.{find_key}
use mesh_lab.Prelude.Sort.{sort, ascending}
use mesh_lab.Durable.{
  DurableError, Outcome, MemberId, ObjectId, OperationId, member_ord, object_ord, operation_ord,
  invalid_input, resource_pressure, conflict, not_found, expired, max_targets, max_logical_time,
}
use mesh_lab.Codec.Words.{be_bytes}
use mesh_lab.Object.{Manifest, ObjectPolicy, outside, id_of}

abbrev pub max_pending_sends : ℕ
max_pending_sends = 8

abbrev pub max_send_bytes : ℕ
max_send_bytes = 49152

pub record SendRequest : Type 0 where
  pub operation : OperationId
  pub policy : ObjectPolicy
  pub plaintext : List ℕ

pub new_request : OperationId → ObjectPolicy → List ℕ → Outcome SendRequest
new_request operation policy plaintext = do
  reject
      (outside max_send_bytes (length plaintext)
        || outside max_targets (length policy.targets)
        || outside max_logical_time policy.epoch
        || outside max_logical_time policy.expires_at
        || outside 16 policy.hop_limit)
      invalid_input
  let targets = sort policy.targets
  reject (not (ascending targets)) invalid_input
  ok (record {
    operation = operation;
    policy = record policy { targets = targets };
    plaintext = plaintext;
  })

-- `b"MeshLab/SendCommand/v1\0"`
abbrev pub command_domain : List ℕ
command_domain =
    0x4d ∷ 0x65 ∷ 0x73 ∷ 0x68 ∷ 0x4c ∷ 0x61 ∷ 0x62 ∷ 0x2f ∷ 0x53 ∷ 0x65 ∷ 0x6e ∷ 0x64 ∷ 0x43 ∷ 0x6f
    ∷ 0x6d ∷ 0x6d ∷ 0x61 ∷ 0x6e ∷ 0x64 ∷ 0x2f ∷ 0x76 ∷ 0x31 ∷ 0x00 ∷ []

abbrev concat : List (List ℕ) → List ℕ
concat [] = []
concat (b ∷ bs) = b ++ concat bs

pub record EffectToken : Type 0 where
  pub incarnation : ℕ
  pub sequence : ℕ

abbrev pub same_token : EffectToken → EffectToken → Bool
same_token a b = a.incarnation == b.incarnation && a.sequence == b.sequence

pub data SendPhase : Type 0 where
  reserving protecting committing : SendPhase

abbrev pub same_phase : SendPhase → SendPhase → Bool
same_phase reserving reserving = true
same_phase protecting protecting = true
same_phase committing committing = true
same_phase _ _ = false

pub data SendEvent : Type 0 where
  accepted : OperationId → ObjectId → SendEvent
  needs_retry : OperationId → DurableError → SendEvent

-- What the reducer reads of a `SealedMessage`, which only the protocol can make.
pub record Sealed (Message : Type 0) : Type 0 where
  pub manifest_of : Message → Manifest

pub data SendEffect (Message : Type 0) : Type 0 where
  reserve : EffectToken → OperationId → List ℕ → Bool → SendEffect Message
  protect : EffectToken → MemberId → ℕ → SendRequest → SendEffect Message
  commit : EffectToken → OperationId → List ℕ → Message → SendEffect Message

pub record SendTransition (Message : Type 0) : Type 0 where
  pub effect : Option (SendEffect Message)
  pub event : Option SendEvent

pub record Pending : Type 0 where
  pub token : EffectToken
  pub phase : SendPhase
  pub command_digest : List ℕ
  pub policy : ObjectPolicy
  pub request : Option SendRequest
  pub origin_sequence : Option ℕ
  pub expected_object : Option ObjectId

pub record DurableSender : Type 0 where
  pub origin : MemberId
  pub incarnation : ℕ
  pub next_token : ℕ
  pub pending : OrdMap OperationId Pending

pub new : MemberId → ℕ → Outcome DurableSender
new origin incarnation =
    if incarnation == 0
    then err invalid_input
    else ok (record { origin = origin; incarnation = incarnation; next_token = 1; pending = [] })

-- The token handed out next, if the count does not overflow.
abbrev pub token : DurableSender → Outcome EffectToken
token s =
    if ltb (s.next_token + 1) (2 ^ 64)
    then ok (record { incarnation = s.incarnation; sequence = s.next_token })
    else err resource_pressure

abbrev pub is_none_or {ℓ} : {A : Type ℓ} → Option A → (A → Bool) → Bool
is_none_or none p = true
is_none_or (some a) p = p a

abbrev pub waits_for : EffectToken → Option SendPhase → Pending → Bool
waits_for t phase p = same_token p.token t && is_none_or phase (λ wanted. same_phase p.phase wanted)

pub locate : EffectToken → Option SendPhase → DurableSender → Outcome OperationId
locate t phase s = ok_or (find_key (waits_for t phase) s.pending) conflict

-- A call's answer, and the sender that it leaves.
abbrev pub Answer : Type 0 → Type 0
Answer Message = Outcome (SendTransition Message) × DurableSender

pub drop_pending : OperationId → DurableSender → DurableSender
drop_pending operation s = record s { pending = remove operation s.pending }

abbrev pub same_object : Option ObjectId → ObjectId → Bool
same_object none o = false
same_object (some p) o = equal p o

abbrev pub same_number : Option ℕ → ℕ → Bool
same_number none n = false
same_number (some m) n = m == n

abbrev pub same_targets : List MemberId → List MemberId → Bool
same_targets [] [] = true
same_targets (a ∷ xs) (b ∷ ys) = equal a b && same_targets xs ys
same_targets _ _ = false

-- The manifest is not that of the reserved operation.
abbrev pub mismatched : Manifest → Pending → MemberId → Bool
mismatched m p origin =
    not (equal m.origin origin)
    || not (same_number p.origin_sequence m.sequence)
    || not (equal m.namespace.name p.policy.namespace.name)
    || not (m.epoch == p.policy.epoch)
    || not (same_targets m.targets p.policy.targets)
    || not (m.expires_at == p.policy.expires_at)
    || not (m.hop_limit == p.policy.hop_limit)

abbrev pub write : OperationId → Pending → DurableSender → DurableSender
write operation p s = record s { pending = insert operation p s.pending }

module _ {Message : Type 0} where
  abbrev pub asks : SendEffect Message → SendTransition Message
  asks effect = record { effect = some effect; event = none }

  abbrev pub reports : SendEvent → SendTransition Message
  reports event = record { effect = none; event = some event }

  -- `let next = self.token()?;`
  abbrev pub with_token :
      DurableSender
      → Outcome EffectToken
      → (EffectToken → DurableSender → Answer Message)
      → Answer Message
  with_token s (err e) next = (err e, s)
  with_token s (ok t) next = next t (record s { next_token = s.next_token + 1 })

  -- `let operation = self.locate(..)?;`
  abbrev pub located :
      Outcome OperationId → DurableSender → (OperationId → Answer Message) → Answer Message
  located (err e) s next = (err e, s)
  located (ok operation) s next = next operation

  -- `self.pending[&operation]` and `get_mut(&operation)`, for an operation that was located.
  abbrev pub pending_of :
      Option Pending → DurableSender → (Pending → Answer Message) → Answer Message
  pending_of none s next = (err not_found, s)
  pending_of (some p) s next = next p

  pub failed : EffectToken → DurableError → DurableSender → Answer Message
  unfolding locate drop_pending
  failed t error s =
      located (locate t none s) s
        (λ operation. (ok (reports (needs_retry operation error)), drop_pending operation s))

  pub accept : OperationId → ObjectId → DurableSender → Answer Message
  unfolding drop_pending
  accept operation object s = (ok (reports (accepted operation object)), drop_pending operation s)

  -- The request is handed over with the effect; there is none if it was handed over before.
  abbrev pub hand_over :
      OperationId → EffectToken → ℕ → Pending → Option SendRequest → DurableSender → Answer Message
  hand_over operation next sequence p none s = (err conflict, write operation p s)
  hand_over operation next sequence p (some request) s =
      (ok (asks (protect next s.origin sequence request)), write operation p s)

  abbrev pub reserved_at :
      EffectToken → ℕ → Option ObjectId → ℕ → DurableSender → OperationId → Answer Message
  reserved_at t origin_sequence (some object) now s operation =
      if outside max_logical_time origin_sequence || ltb max_logical_time now
      then (err invalid_input, s)
      else accept operation object s
  reserved_at t origin_sequence none now s operation =
      if outside max_logical_time origin_sequence || ltb max_logical_time now
      then (err invalid_input, s)
      else pending_of (get operation s.pending) s (λ p.
        if leb p.policy.expires_at now
        then failed t expired s
        else with_token s (token s) (λ next s'.
          hand_over operation next origin_sequence
            (record p {
              token = next;
              phase = protecting;
              origin_sequence = some origin_sequence;
              request = none;
            })
            p.request s'))

  pub reserved : EffectToken → ℕ → Option ObjectId → ℕ → DurableSender → Answer Message
  unfolding locate accept failed
  reserved t origin_sequence committed_object now s =
      located (locate t (some reserving) s) s (reserved_at t origin_sequence committed_object now s)

  abbrev pub committed_at : ObjectId → DurableSender → OperationId → Answer Message
  committed_at object s operation = pending_of (get operation s.pending) s (λ p.
      if not (same_object p.expected_object object)
      then (err conflict, s)
      else accept operation object s)

  pub committed : EffectToken → ObjectId → DurableSender → Answer Message
  unfolding locate accept
  committed t object s = located (locate t (some committing) s) s (committed_at object s)

-- SHA-256 is a library's.
module _ (digest : List ℕ → List ℕ) where
  pub command_digest_of : SendRequest → MemberId → List ℕ
  command_digest_of r origin = digest (
      command_domain
      ++ (origin.id
          ++ ((length r.policy.namespace.name % 256)
              ∷ (r.policy.namespace.name
                  ++ (be_bytes 8 r.policy.epoch
                      ++ ((length r.policy.targets % 256)
                          ∷ (concat (map (λ t. t.id) r.policy.targets)
                              ++ (be_bytes 8 r.policy.expires_at
                                  ++ (r.policy.hop_limit
                                      ∷ (be_bytes 4 (length r.plaintext % 2 ^ 32)
                                          ++ digest r.plaintext))))))))))

module _ (digest : List ℕ → List ℕ) {Message : Type 0} where
  -- A new operation, or one that is pending with the same command or another one.
  abbrev pub start_at : List ℕ → SendRequest → ℕ → Option Pending → DurableSender → Answer Message
  start_at command request now (some existing) s =
      if equal existing.command_digest command
      then (ok (record { effect = none; event = none }), s)
      else (err conflict, s)
  start_at command request now none s =
      if leb max_pending_sends (length s.pending)
      then (err resource_pressure, s)
      else with_token s (token s) (λ t s'. (
        ok (asks (reserve t request.operation command (ltb now request.policy.expires_at))),
        write request.operation
            (record {
              token = t;
              phase = reserving;
              command_digest = command;
              policy = request.policy;
              request = some request;
              origin_sequence = none;
              expected_object = none;
            })
            s',
      ))

  pub start : SendRequest → ℕ → DurableSender → Answer Message
  unfolding command_digest_of
  start request now s =
      if ltb max_logical_time now
      then (err invalid_input, s)
      else start_at (command_digest_of digest request s.origin) request now
          (get request.operation s.pending) s

  abbrev pub protected_at :
      ⦃d : Sealed Message⦄
      → EffectToken
      → Message
      → ℕ
      → DurableSender
      → OperationId
      → Answer Message
  protected_at ⦃d⦄ t message now s operation =
      let m = d.manifest_of message in
      pending_of (get operation s.pending) s (λ p.
        if ltb max_logical_time now
        then (err invalid_input, s)
        else if mismatched m p s.origin
        then (err conflict, s)
        else if leb p.policy.expires_at now
        then failed t expired s
        else with_token s (token s) (λ next s'. (
          ok (asks (commit next operation p.command_digest message)),
          write operation
              (record p {
                token = next;
                phase = committing;
                expected_object = some (id_of digest m);
              })
              s',
        )))

  pub protected : ⦃d : Sealed Message⦄ → EffectToken → Message → ℕ → DurableSender → Answer Message
  unfolding locate failed
  protected t message now s =
      located (locate t (some protecting) s) s (protected_at t message now s)
