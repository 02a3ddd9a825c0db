-- ===== src/Runtime/Sender/Progress.antt =====
-- A send whose effects the host performs ends in its acceptance.
use mesh_lab.Prelude.{
  ℕ, ◌+◌, ◌^◌, ◌≤◌, ◌<◌, ◌≡◌, refl, ◌∙◌, inl, inr, true, false, List, Option, some, none, length,
  ltb, ok, arith,
}
use mesh_lab.Prelude.Ord.{equal_iff, bytes_ord}
use mesh_lab.Prelude.OrdMap.{get, get-insert_self, get-remove}
use mesh_lab.Prelude.Find.{find_key_only}
use mesh_lab.Durable.{ObjectId, OperationId, operation_ord, object_ord, max_logical_time}
use mesh_lab.Object.{id_of}
use mesh_lab.Runtime.Sender.{
  DurableSender, Pending, EffectToken, SendPhase, SendRequest, Sealed, accepted, reserving,
  protecting, committing, reserve, protect, commit, max_pending_sends, waits_for, locate,
  drop_pending, asks, reports, accept, reserved, committed, command_digest_of, start, protected,
  mismatched,
}
use mesh_lab.Runtime.Sender.Moves.{issued, next_of}
use mesh_lab.Runtime.Sender.Tokens.{IsValid, issued-IsValid}

module _ (k : OperationId) (p : Pending) (s : DurableSender) (v : IsValid s)
    (there : get k s.pending ≡ some p) where
  -- A token is found at its own entry.
  locate_own :
      (phase : Option SendPhase) → waits_for p.token phase p ≡ true → locate p.token phase s ≡ ok k
  unfolding locate
  locate_own phase waits = rw (
      find_key_only (waits_for p.token phase) k p s.pending v.sorted there waits
        (λ j q here same. v.distinct j k q p here there (ground (arith, same))))

-- The entry of an operation in each phase.
abbrev opened : List ℕ → SendRequest → EffectToken → Pending
opened command request t = record {
  token = t;
  phase = reserving;
  command_digest = command;
  policy = request.policy;
  request = some request;
  origin_sequence = none;
  expected_object = none;
}

abbrev pub handed : List ℕ → SendRequest → EffectToken → ℕ → Pending
handed command request t n = record (opened command request t) {
  phase = protecting;
  origin_sequence = some n;
  request = none;
}

abbrev secured : List ℕ → SendRequest → EffectToken → ℕ → ObjectId → Pending
secured command request t n object = record (handed command request t n) {
  phase = committing;
  expected_object = some object;
}

module _ {Message : Type 0} (command : List ℕ) (request : SendRequest) (s : DurableSender) where
  start_opens :
      (digest : List ℕ → List ℕ) (now : ℕ)
      → get request.operation s.pending ≡ none
      → length s.pending < max_pending_sends
      → s.next_token + 1 < 2 ^ 64
      → command_digest_of digest request s.origin ≡ command
      → now ≤ max_logical_time
      → start digest {Message = Message} request now s ≡ (
        ok (
            asks
              (reserve (next_of s) request.operation command (ltb now request.policy.expires_at))),
        issued request.operation (opened command request (next_of s)) s,
      )
  unfolding start
  start_opens digest now new room fits e timely = rw (new, e) (ground (arith, room, fits, timely))

  reserved_goes :
      (t : EffectToken) (n now : ℕ)
      → IsValid s
      → get request.operation s.pending ≡ some (opened command request t)
      → s.next_token + 1 < 2 ^ 64
      → 1 ≤ n
      → n ≤ max_logical_time
      → now ≤ max_logical_time
      → now < request.policy.expires_at
      → reserved {Message = Message} t n none now s ≡ (
        ok (asks (protect (next_of s) s.origin n request)),
        issued request.operation (handed command request (next_of s) n) s,
      )
  unfolding reserved
  reserved_goes t n now v there fits some_number small timely early =
      let found =
        locate_own request.operation (opened command request t) s v there (some reserving)
          (ground arith) in
      rw (found, there) (ground arith)

  protected_goes :
      ⦃d : Sealed Message⦄ (digest : List ℕ → List ℕ) (message : Message) (t : EffectToken)
      (n now : ℕ)
      → IsValid s
      → get request.operation s.pending ≡ some (handed command request t n)
      → s.next_token + 1 < 2 ^ 64
      → mismatched (d.manifest_of message) (handed command request t n) s.origin ≡ false
      → now ≤ max_logical_time
      → now < request.policy.expires_at
      → protected digest t message now s ≡ (
        ok (asks (commit (next_of s) request.operation command message)),
        issued request.operation
            (secured command request (next_of s) n (id_of digest (d.manifest_of message)))
            s,
      )
  unfolding protected
  protected_goes digest message t n now v there fits fit timely early =
      let found =
        locate_own request.operation (handed command request t n) s v there (some protecting)
          (ground arith) in
      rw (found, there, fit) (ground arith)

  committed_ends :
      (t : EffectToken) (n : ℕ) (object : ObjectId)
      → IsValid s
      → get request.operation s.pending ≡ some (secured command request t n object)
      → committed {Message = Message} t object s
        ≡ (ok (reports (accepted request.operation object)), drop_pending request.operation s)
  unfolding committed accept
  committed_ends t n object v there =
      let found =
        locate_own request.operation (secured command request t n object) s v there
          (some committing) (ground arith) in
      rw (found, there, (equal_iff object object).1 refl) (ground arith)

module _ {Message : Type 0} ⦃d : Sealed Message⦄ (digest : List ℕ → List ℕ) (s : DurableSender)
    (request : SendRequest) (message : Message) where
  abbrev pub command : List ℕ
  command = command_digest_of digest request s.origin

  abbrev pub object_of : ObjectId
  object_of = id_of digest (d.manifest_of message)

  -- A sender that has room takes a new request that is not expired, and if the host reserves a number
  -- in range, protects the request by a message whose manifest is that of the request and commits it,
  -- each time before the request expires, then every call goes on to the next effect, with the request
  -- handed over unchanged, and the last one accepts the operation as that message's object and
  -- forgets it.
  pub accepted_at_last :
      (n now₁ now₂ now₃ : ℕ)
      → IsValid s
      → get request.operation s.pending ≡ none
      → length s.pending < max_pending_sends
      → s.next_token + 3 < 2 ^ 64
      → 1 ≤ n
      → n ≤ max_logical_time
      → mismatched (d.manifest_of message) (handed command request (next_of s) n) s.origin ≡ false
      → request.policy.expires_at ≤ max_logical_time
      → now₁ < request.policy.expires_at
      → now₂ < request.policy.expires_at
      → now₃ < request.policy.expires_at
      → (s₁ s₂ s₃ s₄ : DurableSender) × (start digest {Message = Message} request now₁ s
          ≡ (ok (asks (reserve (next_of s) request.operation command true)), s₁))
        × (reserved {Message = Message} (next_of s) n none now₂ s₁
            ≡ (ok (asks (protect (next_of s₁) s.origin n request)), s₂))
        × (protected digest (next_of s₁) message now₃ s₂
            ≡ (ok (asks (commit (next_of s₂) request.operation command message)), s₃))
        × (committed {Message = Message} (next_of s₂) object_of s₃
            ≡ (ok (reports (accepted request.operation object_of)), s₄))
        × (get request.operation s₄.pending ≡ none)
  unfolding drop_pending
  accepted_at_last n now₁ now₂ now₃ v new room fits some_number small fit bound early₁ early₂
        early₃ =
      let k = request.operation in
      let e₁ = opened command request (next_of s) in
      let s₁ = issued k e₁ s in
      let there₁ = get-insert_self k e₁ s.pending in
      let v₁ = issued-IsValid k e₁ s v refl ((request, refl), refl, refl) (inr room) in
      let e₂ = handed command request (next_of s₁) n in
      let s₂ = issued k e₂ s₁ in
      let there₂ = get-insert_self k e₂ s₁.pending in
      let v₂ =
        issued-IsValid k e₂ s₁ v₁ refl (refl, (n, refl, some_number, small), refl)
          (inl (e₁, there₁)) in
      let e₃ = secured command request (next_of s₂) n object_of in
      let s₃ = issued k e₃ s₂ in
      let there₃ = get-insert_self k e₃ s₂.pending in
      let v₃ =
        issued-IsValid k e₃ s₂ v₂ refl (refl, (n, refl, some_number, small), (object_of, refl))
          (inl (e₂, there₂)) in
      (
        s₁,
        s₂,
        s₃,
        drop_pending k s₃,
        rw
            (start_opens {Message = Message} command request s digest now₁ new room
              (omega (arith, fits)) refl (omega (arith, early₁, bound)))
            (ground (arith, early₁)),
        reserved_goes command request s₁ (next_of s) n now₂ v₁ there₁ (omega (arith, fits))
            some_number small (omega (arith, early₂, bound)) early₂,
        protected_goes command request s₂ digest message (next_of s₁) n now₃ v₂ there₂
            (omega (arith, fits)) fit (omega (arith, early₃, bound)) early₃,
        committed_ends command request s₃ (next_of s₂) n object_of v₃ there₃,
        get-remove k k s₃.pending ∙ rw ((equal_iff k k).1 refl),
      )
