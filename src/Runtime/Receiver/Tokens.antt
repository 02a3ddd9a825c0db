-- ===== src/Runtime/Receiver/Tokens.antt =====
-- Tokens are never given out twice, and a token that was answered is answered no more.
use mesh_lab.Prelude.{
  ℕ, ◌+◌, ◌≤◌, ◌<◌, ◌≡◌, ◌≢◌, refl, sym, ap, ◌∙◌, ◌⊎◌, inl, inr, false, [], some, length, ok, arith,
  Bool-cases,
}
use mesh_lab.Prelude.Ord.{equal}
use mesh_lab.Prelude.OrdMap.{
  get, IsSorted, get-insert, get-remove, insert-IsSorted, remove-IsSorted, length-insert_le,
  length-insert_present, length-remove_le,
}
use mesh_lab.Durable.{MemberId, ObjectId, member_ord, object_ord}
use mesh_lab.Runtime.Receiver.{
  DurableReceiver, Pending, ReceiveToken, ReceivePhase, new, max_pending_receives, next_token,
  drop_pending,
}
use mesh_lab.Runtime.Receiver.Moves.{issued, Moves, stays, drops, issues}

pub record IsValid (r : DurableReceiver) : Type 0 where
  pub bounded : length r.pending ≤ max_pending_receives
  pub sorted : IsSorted r.pending
  pub own :
      (k : ObjectId) (p : Pending)
      → get k r.pending ≡ some p
      → (p.token.incarnation ≡ r.incarnation) × (p.token.sequence < r.next)
  pub distinct :
      (j k : ObjectId) (p q : Pending)
      → get j r.pending ≡ some p
      → get k r.pending ≡ some q
      → p.token.sequence ≡ q.token.sequence
      → j ≡ k

pub new-IsValid :
    (member : MemberId) (incarnation : ℕ) (r : DurableReceiver)
    → new member incarnation ≡ ok r
    → IsValid r
unfolding new get
new-IsValid member incarnation r h =
    let empty : r.pending ≡ [] = ground (arith, h) in
    record {
      bounded = ground (arith, empty);
      sorted = rw empty tt;
      own = λ k p there. absurd (ground (arith, there, ap (get k) empty));
      distinct = λ j k p q there _ _. absurd (ground (arith, there, ap (get j) empty));
    }

pub dropped-inv :
    (object k : ObjectId) (p : Pending) (r : DurableReceiver)
    → get k (drop_pending object r).pending ≡ some p
    → (get k r.pending ≡ some p) × (equal k object ≡ false)
unfolding drop_pending
dropped-inv object k p r h = (
  ground (arith, h, get-remove k object r.pending),
  ground (arith, h, get-remove k object r.pending),
)

pub issued-inv :
    (object k : ObjectId) (phase : ReceivePhase) (p : Pending) (r : DurableReceiver)
    → get k (issued object phase r).pending ≡ some p
    → ((k ≡ object) × (p ≡ record { token = next_token r; phase = phase }))
      ⊎ ((equal k object ≡ false) × (get k r.pending ≡ some p))
issued-inv object k phase p r h =
    let entry : Pending = record { token = next_token r; phase = phase } in
    let found = get-insert k object entry r.pending in
    elim (Bool-cases (equal k object)) [
      | inl same ↦
          inl (object_ord.cmp_eq k object (ground (arith, same)), ground (arith, h, found, same))
      | inr other ↦ inr (other, ground (arith, h, found, other))
    ]

drop_pending-IsValid :
    (object : ObjectId) (r : DurableReceiver) → IsValid r → IsValid (drop_pending object r)
unfolding drop_pending
drop_pending-IsValid object r v = record {
  bounded = omega (arith, v.bounded, length-remove_le object r.pending);
  sorted = remove-IsSorted object r.pending v.sorted;
  own = λ k p h. v.own k p (dropped-inv object k p r h).0;
  distinct = λ j k p q hj hk e.
      v.distinct j k p q (dropped-inv object j p r hj).0 (dropped-inv object k q r hk).0 e;
}

module _ (object : ObjectId) (phase : ReceivePhase) (r : DurableReceiver) (v : IsValid r) where
  issued-own :
      (k : ObjectId) (p : Pending)
      → get k (issued object phase r).pending ≡ some p
      → (p.token.incarnation ≡ r.incarnation) × (p.token.sequence < r.next + 1)
  issued-own k p h = elim (issued-inv object k phase p r h) [
    | inl (_, e) ↦ rw e (refl, omega arith)
    | inr (_, there) ↦ let (mine, below) = v.own k p there in (mine, omega (arith, below))
  ]

  issued-distinct :
      (j k : ObjectId) (p q : Pending)
      → get j (issued object phase r).pending ≡ some p
      → get k (issued object phase r).pending ≡ some q
      → p.token.sequence ≡ q.token.sequence
      → j ≡ k
  issued-distinct j k p q hj hk e = elim (issued-inv object j phase p r hj) [
    | inl (a, p_new) ↦ elim (issued-inv object k phase q r hk) [
      | inl (b, _) ↦ a ∙ sym b
      | inr (_, there) ↦
          absurd (omega (arith, (v.own k q there).1, e, ap (λ x. x.token.sequence) p_new))
    ]
    | inr (_, here) ↦ elim (issued-inv object k phase q r hk) [
      | inl (_, q_new) ↦
          absurd (omega (arith, (v.own j p here).1, e, ap (λ x. x.token.sequence) q_new))
      | inr (_, there) ↦ v.distinct j k p q here there e
    ]
  ]

  issued-IsValid :
      ((p : Pending) × (get object r.pending ≡ some p)) ⊎ (length r.pending < max_pending_receives)
      → IsValid (issued object phase r)
  issued-IsValid room =
      let entry : Pending = record { token = next_token r; phase = phase } in
      record {
        bounded = elim room [
          | inl (p, there) ↦
              omega (arith, v.bounded, length-insert_present object entry r.pending v.sorted there)
          | inr free ↦ omega (arith, free, length-insert_le object entry r.pending)
        ];
        sorted = insert-IsSorted object entry r.pending v.sorted;
        own = issued-own;
        distinct = issued-distinct;
      }

pub Moves-IsValid : {r r' : DurableReceiver} → Moves r r' → IsValid r → IsValid r'
Moves-IsValid stays v = v
Moves-IsValid {r} (drops object) v = drop_pending-IsValid object r v
Moves-IsValid {r} (issues object phase _ room) v = issued-IsValid object phase r v room

-- The token was given out, and no entry waits for it any more.
pub record Spent (t : ReceiveToken) (r : DurableReceiver) : Type 0 where
  pub past : t.sequence < r.next
  pub idle : (k : ObjectId) (p : Pending) → get k r.pending ≡ some p → p.token.sequence ≢ t.sequence

pub Moves-Spent : (t : ReceiveToken) {r r' : DurableReceiver} → Moves r r' → Spent t r → Spent t r'
unfolding drop_pending
Moves-Spent t stays s = s
Moves-Spent t {r} (drops object) s = record {
  past = s.past;
  idle = λ k p h. s.idle k p (dropped-inv object k p r h).0;
}
Moves-Spent t {r} (issues object phase _ room) s = record {
  past = omega (arith, s.past);
  idle = λ k p h e. elim (issued-inv object k phase p r h) [
    | inl (_, p_new) ↦ absurd (omega (arith, s.past, e, ap (λ x. x.token.sequence) p_new))
    | inr (_, there) ↦ s.idle k p there e
  ];
}
