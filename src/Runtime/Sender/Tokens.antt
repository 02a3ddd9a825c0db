-- ===== src/Runtime/Sender/Tokens.antt =====
-- What holds of a sender throughout, and which of its tokens are used up.
use mesh_lab.Prelude.{
  ℕ, ◌+◌, ◌≤◌, ◌<◌, ◌≡◌, ◌≢◌, refl, sym, ap, ◌∙◌, ◌⊎◌, inl, inr, false, [], some, length, ok, arith,
  Option, Bool-cases, subst,
}
use mesh_lab.Prelude.Ord.{equal}
use mesh_lab.Prelude.OrdMap.{
  get, IsSorted, get-insert, get-remove, insert-IsSorted, remove-IsSorted, length-insert_le,
  length-insert_present, length-remove_le,
}
use mesh_lab.Durable.{MemberId, OperationId, Outcome, operation_ord}
use mesh_lab.Runtime.Sender.{
  DurableSender, Pending, EffectToken, SendTransition, new, max_pending_sends, drop_pending,
}
use mesh_lab.Runtime.Sender.Moves.{
  issued, next_of, InPhase, Moves, stays, repeats, opens, goes, ends,
}

pub record IsValid (s : DurableSender) : Type 0 where
  pub bounded : length s.pending ≤ max_pending_sends
  pub sorted : IsSorted s.pending
  pub own :
      (k : OperationId) (p : Pending)
      → get k s.pending ≡ some p
      → (p.token.incarnation ≡ s.incarnation) × (p.token.sequence < s.next_token)
  pub distinct :
      (j k : OperationId) (p q : Pending)
      → get j s.pending ≡ some p
      → get k s.pending ≡ some q
      → p.token.sequence ≡ q.token.sequence
      → j ≡ k
  pub steady : (k : OperationId) (p : Pending) → get k s.pending ≡ some p → InPhase p.phase p

pub new-IsValid :
    (origin : MemberId) (incarnation : ℕ) (s : DurableSender)
    → new origin incarnation ≡ ok s
    → IsValid s
unfolding new get
new-IsValid origin incarnation s h =
    let empty : s.pending ≡ [] = ground (arith, h) in
    record {
      bounded = ground (arith, empty);
      sorted = rw empty tt;
      own = λ k p there. absurd (ground (arith, there, ap (get k) empty));
      distinct = λ j k p q there _ _. absurd (ground (arith, there, ap (get j) empty));
      steady = λ k p there. absurd (ground (arith, there, ap (get k) empty));
    }

pub dropped-inv :
    (operation k : OperationId) (p : Pending) (s : DurableSender)
    → get k (drop_pending operation s).pending ≡ some p
    → (get k s.pending ≡ some p) × (equal k operation ≡ false)
unfolding drop_pending
dropped-inv operation k p s h = (
  ground (arith, h, get-remove k operation s.pending),
  ground (arith, h, get-remove k operation s.pending),
)

-- An entry behind an insertion is the one that was written, or another one that was there.
pub issued-inv :
    (operation k : OperationId) (entry p : Pending) (s : DurableSender)
    → get k (issued operation entry s).pending ≡ some p
    → ((k ≡ operation) × (p ≡ entry)) ⊎ ((equal k operation ≡ false) × (get k s.pending ≡ some p))
issued-inv operation k entry p s h =
    let found = get-insert k operation entry s.pending in
    elim (Bool-cases (equal k operation)) [
      | inl same ↦
          inl (
            operation_ord.cmp_eq k operation (ground (arith, same)),
            ground (arith, h, found, same),
          )
      | inr other ↦ inr (other, ground (arith, h, found, other))
    ]

dropped-IsValid :
    (operation : OperationId) (s : DurableSender) → IsValid s → IsValid (drop_pending operation s)
unfolding drop_pending
dropped-IsValid operation s v = record {
  bounded = omega (arith, v.bounded, length-remove_le operation s.pending);
  sorted = remove-IsSorted operation s.pending v.sorted;
  own = λ k p h. v.own k p (dropped-inv operation k p s h).0;
  distinct = λ j k p q hj hk e.
      v.distinct j k p q (dropped-inv operation j p s hj).0 (dropped-inv operation k q s hk).0 e;
  steady = λ k p h. v.steady k p (dropped-inv operation k p s h).0;
}

module _ (operation : OperationId) (entry : Pending) (s : DurableSender) (v : IsValid s)
    (newest : entry.token ≡ next_of s) (fits : InPhase entry.phase entry) where
  newest_sequence : entry.token.sequence ≡ s.next_token
  newest_sequence = ap (λ t. t.sequence) newest

  issued-own :
      (k : OperationId) (p : Pending)
      → get k (issued operation entry s).pending ≡ some p
      → (p.token.incarnation ≡ s.incarnation) × (p.token.sequence < s.next_token + 1)
  issued-own k p h = elim (issued-inv operation k entry p s h) [
    | inl (_, e) ↦ rw (e, newest) (refl, omega arith)
    | inr (_, there) ↦ let (mine, below) = v.own k p there in (mine, omega (arith, below))
  ]

  issued-distinct :
      (j k : OperationId) (p q : Pending)
      → get j (issued operation entry s).pending ≡ some p
      → get k (issued operation entry s).pending ≡ some q
      → p.token.sequence ≡ q.token.sequence
      → j ≡ k
  issued-distinct j k p q hj hk e = elim (issued-inv operation j entry p s hj) [
    | inl (a, p_new) ↦ elim (issued-inv operation k entry q s hk) [
      | inl (b, _) ↦ a ∙ sym b
      | inr (_, there) ↦
          absurd (
            omega
              (arith, (v.own k q there).1, e, ap (λ x. x.token.sequence) p_new, newest_sequence))
    ]
    | inr (_, here) ↦ elim (issued-inv operation k entry q s hk) [
      | inl (_, q_new) ↦
          absurd (
            omega (arith, (v.own j p here).1, e, ap (λ x. x.token.sequence) q_new, newest_sequence))
      | inr (_, there) ↦ v.distinct j k p q here there e
    ]
  ]

  issued-steady :
      (k : OperationId) (p : Pending)
      → get k (issued operation entry s).pending ≡ some p
      → InPhase p.phase p
  issued-steady k p h = elim (issued-inv operation k entry p s h) [
    | inl (_, e) ↦ subst (λ x. InPhase x.phase x) (sym e) fits
    | inr (_, there) ↦ v.steady k p there
  ]

  pub issued-IsValid :
      ((q : Pending) × (get operation s.pending ≡ some q)) ⊎ (length s.pending < max_pending_sends)
      → IsValid (issued operation entry s)
  issued-IsValid room = record {
    bounded = elim room [
      | inl (q, there) ↦
          omega (arith, v.bounded, length-insert_present operation entry s.pending v.sorted there)
      | inr free ↦ omega (arith, free, length-insert_le operation entry s.pending)
    ];
    sorted = insert-IsSorted operation entry s.pending v.sorted;
    own = issued-own;
    distinct = issued-distinct;
    steady = issued-steady;
  }

-- The token was given out, and no entry waits for it any more.
pub record Spent (t : EffectToken) (s : DurableSender) : Type 0 where
  pub past : t.sequence < s.next_token
  pub idle :
      (k : OperationId) (p : Pending) → get k s.pending ≡ some p → p.token.sequence ≢ t.sequence

dropped-Spent :
    (t : EffectToken) (operation : OperationId) (s : DurableSender)
    → Spent t s
    → Spent t (drop_pending operation s)
unfolding drop_pending
dropped-Spent t operation s g = record {
  past = g.past;
  idle = λ k p h. g.idle k p (dropped-inv operation k p s h).0;
}

issued-Spent :
    (t : EffectToken) (operation : OperationId) (entry : Pending) (s : DurableSender)
    → entry.token ≡ next_of s
    → Spent t s
    → Spent t (issued operation entry s)
issued-Spent t operation entry s newest g = record {
  past = omega (arith, g.past);
  idle = λ k p h e. elim (issued-inv operation k entry p s h) [
    | inl (_, p_new) ↦
        absurd
          (omega (arith, g.past, e, ap (λ x. x.token.sequence) p_new, ap (λ x. x.sequence) newest))
    | inr (_, there) ↦ g.idle k p there e
  ];
}

module _ {Message : Type 0} where
  pub Moves-IsValid :
      {s s' : DurableSender} {o : Option EffectToken} {r : Outcome (SendTransition Message)}
      → Moves Message s o r s'
      → IsValid s
      → IsValid s'
  Moves-IsValid (stays o e) v = v
  Moves-IsValid repeats v = v
  Moves-IsValid {s} (opens k p effect room newest told fits) v =
      issued-IsValid k p s v newest fits (inr room)
  Moves-IsValid {s} (goes t k q p effect there same newest told fits) v =
      issued-IsValid k p s v newest fits (inl (q, there))
  Moves-IsValid {s} (ends t k q event there same told) v = dropped-IsValid k s v

  pub Moves-Spent :
      (t : EffectToken) {s s' : DurableSender} {o : Option EffectToken}
      {r : Outcome (SendTransition Message)}
      → Moves Message s o r s'
      → Spent t s
      → Spent t s'
  Moves-Spent t (stays o e) g = g
  Moves-Spent t repeats g = g
  Moves-Spent t {s} (opens k p effect room newest told fits) g = issued-Spent t k p s newest g
  Moves-Spent t {s} (goes u k q p effect there same newest told fits) g =
      issued-Spent t k p s newest g
  Moves-Spent t {s} (ends u k q event there same told) g = dropped-Spent t k s g
