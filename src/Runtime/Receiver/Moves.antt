-- ===== src/Runtime/Receiver/Moves.antt =====
-- The calls of the native host as one type, and the three ways in which a call changes the receiver.
use mesh_lab.Prelude.{
  ◌+◌, ◌^◌, ◌<◌, ◌≡◌, ◌⊎◌, inl, inr, Bool, true, false, not, ◌||◌, Option, some, none, length, ltb,
  leb, ok, err, arith, Bool-cases, Result-cases, ok_or-eq-ok, if◌then◌else◌,
}
use mesh_lab.Prelude.Ord.{equal}
use mesh_lab.Prelude.OrdMap.{get, contains_key, insert, IsSorted}
use mesh_lab.Prelude.Find.{find_key, find_key_inv}
use mesh_lab.Durable.{DurableError, ObjectId, member_ord, object_ord, conflict}
use mesh_lab.Runtime.Receiver.{
  DurableReceiver, Pending, ReceiveToken, ReceivePhase, ReceiveEffect, Delivery, Answer, inspecting,
  verifying, committing, inspect, verify, commit, max_pending_receives, next_token, token,
  waits_for, locate, issue, drop_pending, start, receive, located, inspected_at, inspected,
  verified_at, verified, committed_at, committed, failed,
}

pub data Call (Proof : Type 0) : Type 0 where
  starts : ObjectId → Call Proof
  inspects : ReceiveToken → Option ObjectId → Call Proof
  verifies : ReceiveToken → Proof → Call Proof
  commits : ReceiveToken → ObjectId → Call Proof
  fails : ReceiveToken → DurableError → Call Proof

module _ {Proof : Type 0} ⦃d : Delivery Proof⦄ where
  unfoldable pub call : Call Proof → DurableReceiver → Answer Proof
  call (starts object) r = start object r
  call (inspects t object) r = inspected t object r
  call (verifies t proof) r = verified t proof r
  call (commits t object) r = committed t object r
  call (fails t error) r = failed t error r

-- The receiver with a new token that the entry of `object` waits for.
abbrev pub issued : ObjectId → ReceivePhase → DurableReceiver → DurableReceiver
issued object phase r = record r {
  next = r.next + 1;
  pending = insert object (record { token = next_token r; phase = phase }) r.pending;
}

pub data Moves (r : DurableReceiver) : DurableReceiver → Type 0 where
  stays : Moves r r
  drops : (object : ObjectId) → Moves r (drop_pending object r)
  issues :
      (object : ObjectId) (phase : ReceivePhase)
      → r.next + 1 < 2 ^ 64
      → ((p : Pending) × (get object r.pending ≡ some p))
        ⊎ (length r.pending < max_pending_receives)
      → Moves r (issued object phase r)

-- A token that is located belongs to an entry that waits for it.
pub locate_inv :
    (t : ReceiveToken) (phase : Option ReceivePhase) (r : DurableReceiver) (object : ObjectId)
    → IsSorted r.pending
    → locate t phase r ≡ ok object
    → (p : Pending) × (get object r.pending ≡ some p) × (waits_for t phase p ≡ true)
unfolding locate
locate_inv t phase r object s h =
    find_key_inv (waits_for t phase) object r.pending s
      (ok_or-eq-ok (find_key (waits_for t phase) r.pending) conflict object h)

module _ {Proof : Type 0} (r : DurableReceiver) where
  issue_state :
      (object : ObjectId) (phase : ReceivePhase) (effect : ReceiveToken → ReceiveEffect Proof)
      → (issue object phase effect r).1
        ≡ (if ltb (r.next + 1) (2 ^ 64) then issued object phase r else r)
  unfolding issue token
  issue_state object phase effect = ground arith

  issue-Moves :
      (object : ObjectId) (phase : ReceivePhase) (effect : ReceiveToken → ReceiveEffect Proof)
      → ((p : Pending) × (get object r.pending ≡ some p))
        ⊎ (length r.pending < max_pending_receives)
      → Moves r (issue object phase effect r).1
  issue-Moves object phase effect room = elim (Bool-cases (ltb (r.next + 1) (2 ^ 64))) [
    | inl fits ↦
        rw (issue_state object phase effect, fits) (issues object phase (ground (arith, fits)) room)
    | inr full ↦ rw (issue_state object phase effect, full) stays
  ]

  located-Moves :
      (t : ReceiveToken) (phase : Option ReceivePhase) (next : ObjectId → Answer Proof)
      → IsSorted r.pending
      → ((object : ObjectId) (p : Pending)
          → get object r.pending ≡ some p
          → Moves r (next object).1)
      → Moves r (located (locate t phase r) r next).1
  located-Moves t phase next s h = elim (Result-cases (locate t phase r)) [
    | inl (object, e) ↦
        let (p, there, _) = locate_inv t phase r object s e in rw e (h object p there)
    | inr (x, e) ↦ rw e stays
  ]

  guarded-Moves :
      (b : Bool) (e : DurableError) (next : Answer Proof)
      → Moves r next.1
      → Moves r (if b then (err e, r) else next).1
  guarded-Moves true e next h = stays
  guarded-Moves false e next h = h

start-Moves :
    (Proof : Type 0) (r : DurableReceiver) (object : ObjectId)
    → Moves r (start {Proof = Proof} object r).1
unfolding start
start-Moves Proof r object = elim (Bool-cases (contains_key object r.pending)) [
  | inl there ↦ rw there stays
  | inr absent ↦ elim (Bool-cases (leb max_pending_receives (length r.pending))) [
    | inl full ↦ rw (absent, full) stays
    | inr room ↦
        rw (absent, room)
          (issue-Moves {Proof = Proof} r object inspecting (λ t. inspect t object)
            (inr (ground (arith, room))))
  ]
]

receive-Moves :
    (Proof : Type 0) (r : DurableReceiver) (object : ObjectId)
    → Moves r (receive {Proof = Proof} object r).1
unfolding receive
receive-Moves Proof r object = drops object

module _ {Proof : Type 0} ⦃d : Delivery Proof⦄ where
  -- Every call leaves the receiver as it was, drops one entry, or issues one new token.
  pub call-Moves :
      (c : Call Proof) (r : DurableReceiver) → IsSorted r.pending → Moves r (call c r).1
  unfolding call inspected verified committed failed
  call-Moves (starts object) r s = start-Moves Proof r object
  call-Moves (inspects t (some id)) r s =
      located-Moves r t (some inspecting) (inspected_at (some id) r) s (λ object p there.
        guarded-Moves r (not (equal id object)) conflict (receive object r)
          (receive-Moves Proof r object))
  call-Moves (inspects t none) r s =
      located-Moves r t (some inspecting) (inspected_at none r) s
        (λ object p there. issue-Moves r object verifying (λ t. verify t object) (inl (p, there)))
  call-Moves (verifies t proof) r s =
      located-Moves r t (some verifying) (verified_at proof r) s (λ object p there.
        guarded-Moves r
          (not (equal (d.object_id proof) object) || not (equal (d.member_of proof) r.member))
          conflict (issue object committing (λ t. commit t proof) r)
          (issue-Moves r object committing (λ t. commit t proof) (inl (p, there))))
  call-Moves (commits t id) r s =
      located-Moves r t (some committing) (committed_at id r) s (λ object p there.
        guarded-Moves r (not (equal object id)) conflict (receive object r)
          (receive-Moves Proof r object))
  call-Moves (fails t error) r s = located-Moves r t none _ s (λ object p there. drops object)
