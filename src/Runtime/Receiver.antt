-- ===== src/Runtime/Receiver.antt =====
-- crates/mesh-runtime/src/reception.rs: `DurableReceiver`, the authenticated-receive reducer.
pub mod Moves
pub mod Tokens
pub mod Outcomes
pub mod Once
mod Tests
use mesh_lab.Prelude.{
  ℕ, ◌+◌, ◌^◌, Bool, true, false, not, ◌&&◌, ◌||◌, List, [], ◌∷◌, Option, some, none, length, ltb,
  leb, ◌==◌, if◌then◌else◌, Result, ok, err, ok_or,
}
use mesh_lab.Prelude.Ord.{equal}
use mesh_lab.Prelude.OrdMap.{OrdMap, contains_key, insert, remove}
use mesh_lab.Prelude.Find.{find_key}
use mesh_lab.Durable.{
  DurableError, Outcome, MemberId, ObjectId, member_ord, object_ord, invalid_input,
  resource_pressure, conflict,
}

abbrev pub max_pending_receives : ℕ
max_pending_receives = 8

pub record ReceiveToken : Type 0 where
  pub incarnation : ℕ
  pub sequence : ℕ

abbrev pub same_token : ReceiveToken → ReceiveToken → Bool
same_token a b = a.incarnation == b.incarnation && a.sequence == b.sequence

pub data ReceivePhase : Type 0 where
  inspecting verifying committing : ReceivePhase

abbrev pub same_phase : ReceivePhase → ReceivePhase → Bool
same_phase inspecting inspecting = true
same_phase verifying verifying = true
same_phase committing committing = true
same_phase _ _ = false

pub data ReceiveEvent : Type 0 where
  received : ObjectId → ReceiveEvent
  needs_retry : ObjectId → DurableError → ReceiveEvent

-- What the reducer reads of a `VerifiedDelivery`, which only the protocol can make.
pub record Delivery (Proof : Type 0) : Type 0 where
  pub object_id : Proof → ObjectId
  pub member_of : Proof → MemberId

pub record Pending : Type 0 where
  pub token : ReceiveToken
  pub phase : ReceivePhase

pub record DurableReceiver : Type 0 where
  pub member : MemberId
  pub incarnation : ℕ
  pub next : ℕ
  pub pending : OrdMap ObjectId Pending

pub new : MemberId → ℕ → Outcome DurableReceiver
new member incarnation =
    if incarnation == 0
    then err invalid_input
    else ok (record { member = member; incarnation = incarnation; next = 1; pending = [] })

-- The token handed out next, and the receiver that hands out another one after it.
abbrev pub next_token : DurableReceiver → ReceiveToken
next_token r = record { incarnation = r.incarnation; sequence = r.next }

pub token : DurableReceiver → Outcome ReceiveToken × DurableReceiver
token r =
    if ltb (r.next + 1) (2 ^ 64)
    then (ok (next_token r), record r { next = r.next + 1 })
    else (err resource_pressure, r)

abbrev pub is_none_or {ℓ} : {A : Type ℓ} → Option A → (A → Bool) → Bool
is_none_or none p = true
is_none_or (some a) p = p a

-- The entry that waits for this token, in this phase if one is asked for.
abbrev pub waits_for : ReceiveToken → Option ReceivePhase → Pending → Bool
waits_for t phase p = same_token p.token t && is_none_or phase (λ wanted. same_phase wanted p.phase)

pub locate : ReceiveToken → Option ReceivePhase → DurableReceiver → Outcome ObjectId
locate t phase r = ok_or (find_key (waits_for t phase) r.pending) conflict

pub data ReceiveEffect (Proof : Type 0) : Type 0 where
  inspect : ReceiveToken → ObjectId → ReceiveEffect Proof
  verify : ReceiveToken → ObjectId → ReceiveEffect Proof
  commit : ReceiveToken → Proof → ReceiveEffect Proof

pub record ReceiveTransition (Proof : Type 0) : Type 0 where
  pub effect : Option (ReceiveEffect Proof)
  pub event : Option ReceiveEvent

-- A call's answer, and the receiver that it leaves.
abbrev pub Answer : Type 0 → Type 0
Answer Proof = Outcome (ReceiveTransition Proof) × DurableReceiver

pub drop_pending : ObjectId → DurableReceiver → DurableReceiver
drop_pending object r = record r { pending = remove object r.pending }

module _ {Proof : Type 0} where
  abbrev effect_only : ReceiveEffect Proof → ReceiveTransition Proof
  effect_only e = record { effect = some e; event = none }

  abbrev event_only : ReceiveEvent → ReceiveTransition Proof
  event_only e = record { effect = none; event = some e }

  -- A new token and the entry that waits for it: `let token = self.token()?; self.pending.insert(..)`.
  pub issue :
      ObjectId
      → ReceivePhase
      → (ReceiveToken → ReceiveEffect Proof)
      → DurableReceiver
      → Answer Proof
  unfolding token
  issue object phase effect r =
      let (t, r') = token r in
      elim t [
        | err e ↦ (err e, r')
        | ok given ↦ (
          ok (effect_only (effect given)),
          record r' {
            pending = insert object (record { token = given; phase = phase }) r'.pending;
          },
        )
      ]

  pub start : ObjectId → DurableReceiver → Answer Proof
  unfolding issue
  start object r =
      if contains_key object r.pending
      then (ok (record { effect = none; event = none }), r)
      else if leb max_pending_receives (length r.pending)
      then (err resource_pressure, r)
      else issue object inspecting (λ t. inspect t object) r

  pub receive : ObjectId → DurableReceiver → Answer Proof
  unfolding drop_pending
  receive object r = (ok (event_only (received object)), drop_pending object r)

  -- `let object = self.locate(..)?;`
  abbrev pub located : Outcome ObjectId → DurableReceiver → (ObjectId → Answer Proof) → Answer Proof
  located (err e) r next = (err e, r)
  located (ok object) r next = next object

  abbrev pub inspected_at : Option ObjectId → DurableReceiver → ObjectId → Answer Proof
  inspected_at (some id) r object =
      if not (equal id object) then (err conflict, r) else receive object r
  inspected_at none r object = issue object verifying (λ t. verify t object) r

  pub inspected : ReceiveToken → Option ObjectId → DurableReceiver → Answer Proof
  unfolding locate issue receive
  inspected t committed r = located (locate t (some inspecting) r) r (inspected_at committed r)

  abbrev pub verified_at : ⦃d : Delivery Proof⦄ → Proof → DurableReceiver → ObjectId → Answer Proof
  verified_at ⦃d⦄ proof r object =
      if not (equal (d.object_id proof) object) || not (equal (d.member_of proof) r.member)
      then (err conflict, r)
      else issue object committing (λ t. commit t proof) r

  pub verified : ⦃d : Delivery Proof⦄ → ReceiveToken → Proof → DurableReceiver → Answer Proof
  unfolding locate issue
  verified t proof r = located (locate t (some verifying) r) r (verified_at proof r)

  abbrev pub committed_at : ObjectId → DurableReceiver → ObjectId → Answer Proof
  committed_at id r object = if not (equal object id) then (err conflict, r) else receive object r

  pub committed : ReceiveToken → ObjectId → DurableReceiver → Answer Proof
  unfolding locate receive
  committed t id r = located (locate t (some committing) r) r (committed_at id r)

  pub failed : ReceiveToken → DurableError → DurableReceiver → Answer Proof
  unfolding locate drop_pending
  failed t error r =
      located (locate t none r) r
        (λ object. (ok (event_only (needs_retry object error)), drop_pending object r))
