-- ===== src/Runtime/Receiver/Outcomes.antt =====
-- What a successful answer to a token does, and that it happens once.
use mesh_lab.Prelude.{
  ◌≡◌, refl, sym, ap, ◌∙◌, inl, inr, Bool, true, false, not, ◌||◌, Option, some, none, ok, err,
  arith, Result-cases, if◌then◌else◌,
}
use mesh_lab.Prelude.Ord.{equal}
use mesh_lab.Prelude.OrdMap.{get, IsSorted}
use mesh_lab.Durable.{DurableError, ObjectId, member_ord, object_ord, conflict}
use mesh_lab.Runtime.Receiver.{
  DurableReceiver, Pending, ReceiveToken, ReceivePhase, ReceiveEvent, needs_retry, ReceiveEffect,
  ReceiveTransition, Delivery, Answer, received, inspecting, verifying, committing, next_token,
  waits_for, locate, issue, drop_pending, same_token, same_phase, receive, located, inspected_at,
  inspected, verified_at, verified, committed_at, committed, failed, verify, commit, token,
}
use mesh_lab.Runtime.Receiver.Moves.{
  Call, starts, inspects, verifies, commits, fails, call, issued, locate_inv,
}

-- The token that a call of the host answers.
abbrev pub token_of : {Proof : Type 0} → Call Proof → Option ReceiveToken
token_of (starts object) = none
token_of (inspects t _) = some t
token_of (verifies t _) = some t
token_of (commits t _) = some t
token_of (fails t _) = some t

-- The entry of the object waits for the token.
abbrev pub Waits : ReceiveToken → ObjectId → ReceivePhase → DurableReceiver → Type 0
Waits t k phase r =
    (p : Pending) × (get k r.pending ≡ some p) × (same_token p.token t ≡ true) × (p.phase ≡ phase)

module _ {Proof : Type 0} where
  abbrev pub asks : ReceiveEffect Proof → ReceiveTransition Proof
  asks effect = record { effect = some effect; event = none }

  abbrev pub reports : ReceiveEvent → ReceiveTransition Proof
  reports event = record { effect = none; event = some event }

-- The transitions of the receiver on an answer of the host.
pub data Answers {Proof : Type 0} ⦃d : Delivery Proof⦄ (r : DurableReceiver)
    : Call Proof → ReceiveTransition Proof → DurableReceiver → Type 0 where
  already_stored :
      (t : ReceiveToken) (k : ObjectId)
      → Waits t k inspecting r
      → Answers r (inspects t (some k)) (reports (received k)) (drop_pending k r)
  to_verify :
      (t : ReceiveToken) (k : ObjectId)
      → Waits t k inspecting r
      → Answers r (inspects t none) (asks (verify (next_token r) k)) (issued k verifying r)
  to_commit :
      (t : ReceiveToken) (k : ObjectId) (proof : Proof)
      → Waits t k verifying r
      → d.object_id proof ≡ k
      → d.member_of proof ≡ r.member
      → Answers r (verifies t proof) (asks (commit (next_token r) proof)) (issued k committing r)
  stored :
      (t : ReceiveToken) (k : ObjectId)
      → Waits t k committing r
      → Answers r (commits t k) (reports (received k)) (drop_pending k r)
  gives_up :
      (t : ReceiveToken) (k : ObjectId) (phase : ReceivePhase) (error : DurableError)
      → Waits t k phase r
      → Answers r (fails t error) (reports (needs_retry k error)) (drop_pending k r)

same_phase_eq : (a b : ReceivePhase) → same_phase a b ≡ true → b ≡ a
same_phase_eq inspecting inspecting h = refl
same_phase_eq inspecting verifying h = cc
same_phase_eq inspecting committing h = cc
same_phase_eq verifying inspecting h = cc
same_phase_eq verifying verifying h = refl
same_phase_eq verifying committing h = cc
same_phase_eq committing inspecting h = cc
same_phase_eq committing verifying h = cc
same_phase_eq committing committing h = refl

module _ {Proof : Type 0} (r r' : DurableReceiver) (s : IsSorted r.pending) where
  located_ok :
      (t : ReceiveToken) (phase : Option ReceivePhase) (next : ObjectId → Answer Proof)
      (tr : ReceiveTransition Proof)
      → located (locate t phase r) r next ≡ (ok tr, r')
      → (k : ObjectId) × (p : Pending) × (get k r.pending ≡ some p)
        × (waits_for t phase p ≡ true)
        × (next k ≡ (ok tr, r'))
  located_ok t phase next tr h = elim (Result-cases (locate t phase r)) [
    | inl (k, e) ↦
        let (p, there, waits) = locate_inv t phase r k s e in
        (k, p, there, waits, sym (ap (λ o. located o r next) e) ∙ h)
    | inr (x, e) ↦ absurd (ground (arith, h, e))
  ]

  issue_ok :
      (k : ObjectId) (phase : ReceivePhase) (effect : ReceiveToken → ReceiveEffect Proof)
      (tr : ReceiveTransition Proof)
      → issue k phase effect r ≡ (ok tr, r')
      → (r' ≡ issued k phase r)
        × (tr ≡ record { effect = some (effect (next_token r)); event = none })
  unfolding issue token
  issue_ok k phase effect tr h = (ground (arith, h), ground (arith, h))

  located_phase :
      (t : ReceiveToken) (phase : ReceivePhase) (next : ObjectId → Answer Proof)
      (tr : ReceiveTransition Proof)
      → located (locate t (some phase) r) r next ≡ (ok tr, r')
      → (k : ObjectId) × Waits t k phase r × (next k ≡ (ok tr, r'))
  located_phase t phase next tr h =
      let (k, p, there, waits, rest) = located_ok t (some phase) next tr h in
      (
        k,
        (p, there, ground (arith, waits), same_phase_eq phase p.phase (ground (arith, waits))),
        rest,
      )

  guarded_ok :
      (b : Bool) (e : DurableError) (next : Answer Proof) (tr : ReceiveTransition Proof)
      → (if b then (err e, r) else next) ≡ (ok tr, r')
      → (b ≡ false) × (next ≡ (ok tr, r'))
  guarded_ok true e next tr h = absurd (ground (arith, h))
  guarded_ok false e next tr h = (refl, h)

  receive_ok :
      (k : ObjectId) (tr : ReceiveTransition Proof)
      → receive k r ≡ (ok tr, r')
      → (r' ≡ drop_pending k r) × (tr ≡ reports (received k))
  unfolding receive
  receive_ok k tr h = (ground (arith, h), ground (arith, h))

module _ {Proof : Type 0} ⦃d : Delivery Proof⦄ (r r' : DurableReceiver)
    (s : IsSorted r.pending) where
  -- A call that answers a token and succeeds makes one of the five transitions: the token's entry was
  -- in the phase that the call answers, a proof is of that object and for this member, and what is
  -- reported or asked for, and the state left, are those of the transition.
  pub answered :
      (c : Call Proof) (t : ReceiveToken) (tr : ReceiveTransition Proof)
      → token_of c ≡ some t
      → call c r ≡ (ok tr, r')
      → Answers r c tr r'
  unfolding call inspected verified committed failed
  answered (starts object) t tr e h = cc
  answered (inspects u (some id)) t tr e h =
      let (k, waits, rest) = located_phase r r' s u inspecting (inspected_at (some id) r) tr h in
      let (same, rest') = guarded_ok r r' s (not (equal id k)) conflict (receive k r) tr rest in
      let (left, told) = receive_ok r r' s k tr rest' in
      let object : id ≡ k = object_ord.cmp_eq id k (ground (arith, same)) in
      rw (left, told, object) (already_stored u k waits)
  answered (inspects u none) t tr e h =
      let (k, waits, rest) = located_phase r r' s u inspecting (inspected_at none r) tr h in
      let (left, told) = issue_ok r r' s k verifying (λ n. verify n k) tr rest in
      rw (left, told) (to_verify u k waits)
  answered (verifies u proof) t tr e h =
      let (k, waits, rest) = located_phase r r' s u verifying (verified_at proof r) tr h in
      let (good, rest') =
        guarded_ok r r' s
          (not (equal (d.object_id proof) k) || not (equal (d.member_of proof) r.member)) conflict
          (issue k committing (λ n. commit n proof) r) tr rest in
      let (left, told) = issue_ok r r' s k committing (λ n. commit n proof) tr rest' in
      rw (left, told)
        (to_commit u k proof waits (object_ord.cmp_eq (d.object_id proof) k (ground (arith, good)))
          (member_ord.cmp_eq (d.member_of proof) r.member (ground (arith, good))))
  answered (commits u id) t tr e h =
      let (k, waits, rest) = located_phase r r' s u committing (committed_at id r) tr h in
      let (same, rest') = guarded_ok r r' s (not (equal k id)) conflict (receive k r) tr rest in
      let (left, told) = receive_ok r r' s k tr rest' in
      let object : k ≡ id = object_ord.cmp_eq k id (ground (arith, same)) in
      rw (left, told, ← object) (stored u k waits)
  answered (fails u error) t tr e h =
      let (k, p, there, waits, rest) = located_ok r r' s u none _ tr h in
      let left : r' ≡ drop_pending k r = ground (arith, rest) in
      let told : tr ≡ reports (needs_retry k error) = ground (arith, rest) in
      rw (left, told) (gives_up u k p.phase error (p, there, ground (arith, waits), refl))
