-- ===== src/Runtime/Sender/Moves.antt =====
-- The calls of the native host as one type, and the ways in which a call changes the sender.
use mesh_lab.Prelude.{
  ℕ, ◌+◌, ◌^◌, ◌≤◌, ◌<◌, ◌≡◌, refl, inl, inr, Bool, true, false, not, ◌||◌, List, Option, some,
  none, length, ltb, leb, ok, err, arith, subst, Bool-cases, Result-cases, ok_or-eq-ok,
  if◌then◌else◌,
}
use mesh_lab.Prelude.Ord.{equal, bytes_ord}
use mesh_lab.Prelude.OrdMap.{get, insert, IsSorted}
use mesh_lab.Prelude.Find.{find_key, find_key_inv}
use mesh_lab.Durable.{
  DurableError, Outcome, ObjectId, OperationId, operation_ord, conflict, invalid_input,
  resource_pressure, expired, max_logical_time,
}
use mesh_lab.Object.{id_of, outside}
use mesh_lab.Runtime.Sender.{
  DurableSender, Pending, EffectToken, SendPhase, SendRequest, SendEvent, SendEffect,
  SendTransition, Sealed, Answer, accepted, needs_retry, reserving, protecting, committing, reserve,
  protect, commit, max_pending_sends, token, same_token, waits_for, locate, drop_pending, write,
  asks, reports, with_token, located, pending_of, failed, accept, same_phase, hand_over,
  reserved_at, reserved, committed_at, committed, command_digest_of, start_at, start, protected_at,
  protected, same_object, mismatched,
}

pub data Call (Message : Type 0) : Type 0 where
  starts : SendRequest → ℕ → Call Message
  reserves : EffectToken → ℕ → Option ObjectId → ℕ → Call Message
  protects : EffectToken → Message → ℕ → Call Message
  commits : EffectToken → ObjectId → Call Message
  fails : EffectToken → DurableError → Call Message

-- The token that a call answers.
abbrev pub token_of : {Message : Type 0} → Call Message → Option EffectToken
token_of (starts r now) = none
token_of (reserves t n o now) = some t
token_of (protects t m now) = some t
token_of (commits t o) = some t
token_of (fails t e) = some t

module _ {Message : Type 0} ⦃d : Sealed Message⦄ (digest : List ℕ → List ℕ) where
  unfoldable pub call : Call Message → DurableSender → Answer Message
  call (starts request now) s = start digest request now s
  call (reserves t n object now) s = reserved t n object now s
  call (protects t message now) s = protected digest t message now s
  call (commits t object) s = committed t object s
  call (fails t error) s = failed t error s

-- The token that comes next.
abbrev pub next_of : DurableSender → EffectToken
next_of s = record { incarnation = s.incarnation; sequence = s.next_token }

-- The request is there until it is handed over, with the number that it got; the object is known from
-- its protection on.
abbrev pub InPhase : SendPhase → Pending → Type 0
InPhase reserving p =
    ((r : SendRequest) × (p.request ≡ some r))
    × (p.origin_sequence ≡ none)
    × (p.expected_object ≡ none)
InPhase protecting p =
    (p.request ≡ none)
    × ((n : ℕ) × (p.origin_sequence ≡ some n) × (1 ≤ n) × (n ≤ max_logical_time))
    × (p.expected_object ≡ none)
InPhase committing p =
    (p.request ≡ none)
    × ((n : ℕ) × (p.origin_sequence ≡ some n) × (1 ≤ n) × (n ≤ max_logical_time))
    × ((o : ObjectId) × (p.expected_object ≡ some o))

abbrev pub issued : OperationId → Pending → DurableSender → DurableSender
issued k p s = record s { next_token = s.next_token + 1; pending = insert k p s.pending }

-- The token that an effect carries, and the operation of an event.
module _ {Message : Type 0} where
  abbrev pub carried : SendEffect Message → EffectToken
  carried (reserve t k c b) = t
  carried (protect t m n r) = t
  carried (commit t k c m) = t

abbrev pub about : SendEvent → OperationId
about (accepted k o) = k
about (needs_retry k e) = k

-- How a call that answers `t`, or none, changes the sender.
pub data Moves (Message : Type 0) (s : DurableSender)
    : Option EffectToken → Outcome (SendTransition Message) → DurableSender → Type 0 where
  stays : (t : Option EffectToken) (e : DurableError) → Moves Message s t (err e) s
  repeats : Moves Message s none (ok (record { effect = none; event = none })) s
  opens :
      (k : OperationId) (p : Pending) (effect : SendEffect Message)
      → length s.pending < max_pending_sends
      → p.token ≡ next_of s
      → carried effect ≡ p.token
      → InPhase p.phase p
      → Moves Message s none (ok (asks effect)) (issued k p s)
  goes :
      (t : EffectToken) (k : OperationId) (q p : Pending) (effect : SendEffect Message)
      → get k s.pending ≡ some q
      → same_token q.token t ≡ true
      → p.token ≡ next_of s
      → carried effect ≡ p.token
      → InPhase p.phase p
      → Moves Message s (some t) (ok (asks effect)) (issued k p s)
  ends :
      (t : EffectToken) (k : OperationId) (q : Pending) (event : SendEvent)
      → get k s.pending ≡ some q
      → same_token q.token t ≡ true
      → about event ≡ k
      → Moves Message s (some t) (ok (reports event)) (drop_pending k s)

-- A token that is located belongs to an entry that waits for it.
pub locate_inv :
    (t : EffectToken) (phase : Option SendPhase) (s : DurableSender) (k : OperationId)
    → IsSorted s.pending
    → locate t phase s ≡ ok k
    → (p : Pending) × (get k s.pending ≡ some p) × (waits_for t phase p ≡ true)
unfolding locate
locate_inv t phase s k sorted h =
    find_key_inv (waits_for t phase) k s.pending sorted
      (ok_or-eq-ok (find_key (waits_for t phase) s.pending) conflict k h)

module _ {Message : Type 0} (s : DurableSender) (o : Option EffectToken) where
  abbrev MovesTo : Answer Message → Type 0
  MovesTo a = Moves Message s o a.0 a.1

  branch-Moves :
      (b : Bool) (x y : Answer Message)
      → (b ≡ true → MovesTo x)
      → (b ≡ false → MovesTo y)
      → MovesTo (if b then x else y)
  branch-Moves true x y hx hy = hx refl
  branch-Moves false x y hx hy = hy refl

  located-Moves :
      (t : EffectToken) (phase : Option SendPhase) (next : OperationId → Answer Message)
      → IsSorted s.pending
      → ((k : OperationId) (p : Pending)
          → get k s.pending ≡ some p
          → waits_for t phase p ≡ true
          → MovesTo (next k))
      → MovesTo (located (locate t phase s) s next)
  located-Moves t phase next sorted h = elim (Result-cases (locate t phase s)) [
    | inl (k, e) ↦
        let (p, there, waits) = locate_inv t phase s k sorted e in rw e (h k p there waits)
    | inr (x, e) ↦ rw e (stays o x)
  ]

  -- The entry of an operation that was located is there.
  there-Moves :
      (k : OperationId) (p : Pending) (next : Pending → Answer Message)
      → get k s.pending ≡ some p
      → MovesTo (next p)
      → MovesTo (pending_of (get k s.pending) s next)
  there-Moves k p next there h = rw there h

  token-Moves :
      (next : EffectToken → DurableSender → Answer Message)
      → MovesTo (next (next_of s) (record s { next_token = s.next_token + 1 }))
      → MovesTo (with_token s (token s) next)
  token-Moves next h = elim (Bool-cases (ltb (s.next_token + 1) (2 ^ 64))) [
    | inl fits ↦ rw fits h
    | inr full ↦ rw full (stays o resource_pressure)
  ]

same_phase_eq : (a b : SendPhase) → same_phase a b ≡ true → a ≡ b
same_phase_eq reserving reserving h = refl
same_phase_eq reserving protecting h = cc
same_phase_eq reserving committing h = cc
same_phase_eq protecting protecting h = refl
same_phase_eq protecting reserving h = cc
same_phase_eq protecting committing h = cc
same_phase_eq committing committing h = refl
same_phase_eq committing reserving h = cc
same_phase_eq committing protecting h = cc

waits-token :
    (t : EffectToken) (phase : Option SendPhase) (p : Pending)
    → waits_for t phase p ≡ true
    → same_token p.token t ≡ true
waits-token t none p h = ground (arith, h)
waits-token t (some phase) p h = ground (arith, h)

-- An entry that waits in a phase is as that phase has it.
waits-InPhase :
    (t : EffectToken) (phase : SendPhase) (p : Pending)
    → waits_for t (some phase) p ≡ true
    → InPhase p.phase p
    → InPhase phase p
waits-InPhase t phase p h i =
    subst (λ x. InPhase x p) (same_phase_eq p.phase phase (ground (arith, h))) i

module _ {Message : Type 0} (s : DurableSender) (sorted : IsSorted s.pending) where
  failed-Moves :
      (t : EffectToken) (error : DurableError)
      → MovesTo {Message = Message} s (some t) (failed t error s)
  unfolding failed
  failed-Moves t error =
      located-Moves s (some t) t none _ sorted (λ k p there waits.
        ends t k p (needs_retry k error) there (waits-token t none p waits) refl)

  accept-Moves :
      (t : EffectToken) (k : OperationId) (p : Pending) (object : ObjectId)
      → get k s.pending ≡ some p
      → same_token p.token t ≡ true
      → MovesTo {Message = Message} s (some t) (accept k object s)
  unfolding accept
  accept-Moves t k p object there same = ends t k p (accepted k object) there same refl

  reserved_at-Moves :
      (t : EffectToken) (n : ℕ) (object : Option ObjectId) (now : ℕ) (k : OperationId) (p : Pending)
      → get k s.pending ≡ some p
      → same_token p.token t ≡ true
      → InPhase reserving p
      → MovesTo {Message = Message} s (some t) (reserved_at t n object now s k)
  reserved_at-Moves t n (some object) now k p there same i =
      branch-Moves s (some t) (outside max_logical_time n || ltb max_logical_time now)
        (err invalid_input, s) (accept k object s) (λ _. stays (some t) invalid_input)
        (λ _. accept-Moves t k p object there same)
  reserved_at-Moves t n none now k p there same i =
      let ((r, held), _, unknown) = i in
      let next : EffectToken → DurableSender → Answer Message = λ new s'.
        hand_over k new n
          (record p { token = new; phase = protecting; origin_sequence = some n; request = none })
          p.request s' in
      branch-Moves s (some t) (outside max_logical_time n || ltb max_logical_time now)
        (err invalid_input, s) _ (λ _. stays (some t) invalid_input)
        (λ inside. there-Moves s (some t) k p _ there (
          branch-Moves s (some t) (leb p.policy.expires_at now) (failed t expired s)
            (with_token s (token s) next) (λ _. failed-Moves t expired)
            (λ _. token-Moves s (some t) next (
              rw held (
                goes t k p
                  (record p {
                    token = next_of s;
                    phase = protecting;
                    origin_sequence = some n;
                    request = none;
                  })
                  (protect (next_of s) s.origin n r) there same refl refl
                  (refl, (n, refl, ground (arith, inside), ground (arith, inside)), unknown))))))

  committed_at-Moves :
      (t : EffectToken) (object : ObjectId) (k : OperationId) (p : Pending)
      → get k s.pending ≡ some p
      → same_token p.token t ≡ true
      → MovesTo {Message = Message} s (some t) (committed_at object s k)
  committed_at-Moves t object k p there same = there-Moves s (some t) k p _ there (
      branch-Moves s (some t) (not (same_object p.expected_object object)) (err conflict, s)
        (accept k object s) (λ _. stays (some t) conflict)
        (λ _. accept-Moves t k p object there same))

module _ {Message : Type 0} (digest : List ℕ → List ℕ) (s : DurableSender) where
  start_at-Moves :
      (command : List ℕ) (request : SendRequest) (now : ℕ) (old : Option Pending)
      → MovesTo {Message = Message} s none (start_at digest command request now old s)
  start_at-Moves command request now (some old) =
      branch-Moves s none (equal old.command_digest command)
        (ok (record { effect = none; event = none }), s) (err conflict, s) (λ _. repeats)
        (λ _. stays none conflict)
  start_at-Moves command request now none =
      let entry : EffectToken → Pending = λ t. record {
        token = t;
        phase = reserving;
        command_digest = command;
        policy = request.policy;
        request = some request;
        origin_sequence = none;
        expected_object = none;
      } in
      let effect : EffectToken → SendEffect Message =
        λ t. reserve t request.operation command (ltb now request.policy.expires_at) in
      let next : EffectToken → DurableSender → Answer Message =
        λ t s'. (ok (asks (effect t)), write request.operation (entry t) s') in
      branch-Moves s none (leb max_pending_sends (length s.pending)) (err resource_pressure, s)
        (with_token s (token s) next) (λ _. stays none resource_pressure)
        (λ room. token-Moves s none next (
          opens request.operation (entry (next_of s)) (effect (next_of s)) (ground (arith, room))
            refl refl ((request, refl), refl, refl)))

  protected_at-Moves :
      ⦃d : Sealed Message⦄ (sorted : IsSorted s.pending) (t : EffectToken) (message : Message)
      (now : ℕ) (k : OperationId) (p : Pending)
      → get k s.pending ≡ some p
      → same_token p.token t ≡ true
      → InPhase protecting p
      → MovesTo s (some t) (protected_at digest t message now s k)
  protected_at-Moves ⦃d⦄ sorted t message now k p there same (handed, numbered, _) =
      let m = d.manifest_of message in
      let next : EffectToken → DurableSender → Answer Message = λ new s'. (
        ok (asks (commit new k p.command_digest message)),
        write k
            (record p { token = new; phase = committing; expected_object = some (id_of digest m) })
            s',
      ) in
      there-Moves s (some t) k p _ there (
        branch-Moves s (some t) (ltb max_logical_time now) (err invalid_input, s) _
          (λ _. stays (some t) invalid_input)
          (λ _.
            branch-Moves s (some t) (mismatched m p s.origin) (err conflict, s) _
              (λ _. stays (some t) conflict)
              (λ _.
                branch-Moves s (some t) (leb p.policy.expires_at now) (failed t expired s)
                  (with_token s (token s) next) (λ _. failed-Moves s sorted t expired)
                  (λ _. token-Moves s (some t) next (
                    goes t k p
                      (record p {
                        token = next_of s;
                        phase = committing;
                        expected_object = some (id_of digest m);
                      })
                      (commit (next_of s) k p.command_digest message) there same refl refl
                      (handed, numbered, (id_of digest m, refl)))))))

module _ {Message : Type 0} ⦃d : Sealed Message⦄ (digest : List ℕ → List ℕ)
    (s : DurableSender) where
  -- Every call moves the sender in one of these ways.
  pub call-Moves :
      (c : Call Message)
      → IsSorted s.pending
      → ((k : OperationId) (p : Pending) → get k s.pending ≡ some p → InPhase p.phase p)
      → Moves Message s (token_of c) (call digest c s).0 (call digest c s).1
  unfolding call start reserved protected committed
  call-Moves (starts request now) sorted steady =
      branch-Moves s none (ltb max_logical_time now) (err invalid_input, s) _
        (λ _. stays none invalid_input)
        (λ _.
          start_at-Moves digest s (command_digest_of digest request s.origin) request now
            (get request.operation s.pending))
  call-Moves (reserves t n object now) sorted steady =
      located-Moves s (some t) t (some reserving) (reserved_at t n object now s) sorted
        (λ k p there waits.
          reserved_at-Moves s sorted t n object now k p there
            (waits-token t (some reserving) p waits)
            (waits-InPhase t reserving p waits (steady k p there)))
  call-Moves (protects t message now) sorted steady =
      located-Moves s (some t) t (some protecting) (protected_at digest t message now s) sorted
        (λ k p there waits.
          protected_at-Moves digest s sorted t message now k p there
            (waits-token t (some protecting) p waits)
            (waits-InPhase t protecting p waits (steady k p there)))
  call-Moves (commits t object) sorted steady =
      located-Moves s (some t) t (some committing) (committed_at object s) sorted
        (λ k p there waits.
          committed_at-Moves s sorted t object k p there (waits-token t (some committing) p waits))
  call-Moves (fails t error) sorted steady = failed-Moves s sorted t error
