-- ===== src/Runtime/Sender/Once.antt =====
-- A token of the sender is answered at most once, whatever the host calls in between.
use mesh_lab.Prelude.{
  ℕ, ◌<◌, ◌≡◌, ◌≢◌, sym, ap, subst, ◌∙◌, true, false, List, [], ◌∷◌, Option, some, none, ok, err,
  ok_or, arith, inl, inr,
}
use mesh_lab.Prelude.Ord.{equal, equal_iff}
use mesh_lab.Prelude.OrdMap.{get}
use mesh_lab.Prelude.Find.{find_key-none}
use mesh_lab.Durable.{MemberId, OperationId, Outcome, operation_ord, conflict}
use mesh_lab.Runtime.Sender.{
  DurableSender, Pending, EffectToken, SendPhase, SendTransition, Sealed, same_token, waits_for,
  locate, drop_pending, new, reserved, protected, committed, failed, reserving, protecting,
  committing,
}
use mesh_lab.Runtime.Sender.Moves.{
  Call, starts, reserves, protects, commits, fails, token_of, call, issued, next_of, Moves, stays,
  repeats, opens, goes, ends, call-Moves,
}
use mesh_lab.Runtime.Sender.Tokens.{
  IsValid, new-IsValid, dropped-inv, issued-inv, Moves-IsValid, Spent, Moves-Spent,
}

module _ (t : EffectToken) (k : OperationId) (w : Pending) (s : DurableSender) (v : IsValid s)
    (there : get k s.pending ≡ some w) (same : same_token w.token t ≡ true) where
  waiting_sequence : w.token.sequence ≡ t.sequence
  waiting_sequence = ground (arith, same)

  waiting_past : t.sequence < s.next_token
  waiting_past = omega (arith, waiting_sequence, (v.own k w there).1)

  alone :
      (j : OperationId) (q : Pending)
      → get j s.pending ≡ some q
      → equal j k ≡ false
      → q.token.sequence ≢ t.sequence
  alone j q here other e =
      ground
        (arith, other, (equal_iff j k).1 (v.distinct j k q w here there (e ∙ sym waiting_sequence)))

  dropped-answers : Spent t (drop_pending k s)
  unfolding drop_pending
  dropped-answers = record {
    past = waiting_past;
    idle = λ j q h e. let (here, other) = dropped-inv k j q s h in alone j q here other e;
  }

  issued-answers : (p : Pending) → p.token ≡ next_of s → Spent t (issued k p s)
  issued-answers p newest = record {
    past = omega (arith, waiting_past);
    idle = λ j q h e. elim (issued-inv k j p q s h) [
      | inl (_, q_new) ↦ absurd (
          omega
            (arith, waiting_past, e, ap (λ x. x.token.sequence) q_new, ap (λ x. x.sequence) newest))
      | inr (other, here) ↦ alone j q here other e
    ];
  }

Spent-locate :
    (t : EffectToken) (phase : Option SendPhase) (s : DurableSender)
    → IsValid s
    → Spent t s
    → locate t phase s ≡ err conflict
unfolding locate
Spent-locate t phase s v g =
    ap (λ o. ok_or o conflict)
      (find_key-none (waits_for t phase) s.pending v.sorted
        (λ k p there. ground (arith, g.idle k p there)))

-- What holds of a token that was answered with success.
abbrev OnAnswer :
    {Message : Type 0}
    → (EffectToken → Type 0)
    → Option EffectToken
    → Outcome (SendTransition Message)
    → Type 0
OnAnswer P (some t) (ok tr) = P t
OnAnswer P (some t) (err e) = Unit
OnAnswer P none r = Unit

module _ {Message : Type 0} where
  Moves-answers :
      {s s' : DurableSender} {o : Option EffectToken} {r : Outcome (SendTransition Message)}
      → Moves Message s o r s'
      → IsValid s
      → OnAnswer (λ t. Spent t s') o r
  Moves-answers (stays none e) v = tt
  Moves-answers (stays (some t) e) v = tt
  Moves-answers repeats v = tt
  Moves-answers (opens k p effect room newest told fits) v = tt
  Moves-answers {s} (goes t k q p effect there same newest told fits) v =
      issued-answers t k q s v there same p newest
  Moves-answers {s} (ends t k q event there same told) v = dropped-answers t k q s v there same

some_inv : (u t : EffectToken) → ◌≡◌ {A = Option EffectToken} (some u) (some t) → u ≡ t
some_inv u t h = ground (arith, h)

module _ {Message : Type 0} ⦃d : Sealed Message⦄ (digest : List ℕ → List ℕ) where
  -- The sender after a series of calls, whatever they answer.
  unfoldable pub run : List (Call Message) → DurableSender → DurableSender
  run [] s = s
  run (c ∷ cs) s = run cs (call digest c s).1

  call-IsValid : (c : Call Message) (s : DurableSender) → IsValid s → IsValid (call digest c s).1
  call-IsValid c s v = Moves-IsValid (call-Moves digest s c v.sorted v.steady) v

  run-IsValid : (cs : List (Call Message)) (s : DurableSender) → IsValid s → IsValid (run cs s)
  unfolding run
  run-IsValid [] s v = v
  run-IsValid (c ∷ cs) s v = run-IsValid cs (call digest c s).1 (call-IsValid c s v)

  run-Spent :
      (t : EffectToken) (cs : List (Call Message)) (s : DurableSender)
      → IsValid s
      → Spent t s
      → Spent t (run cs s)
  unfolding run
  run-Spent t [] s v g = g
  run-Spent t (c ∷ cs) s v g =
      run-Spent t cs (call digest c s).1 (call-IsValid c s v)
        (Moves-Spent t (call-Moves digest s c v.sorted v.steady) g)

  Spent-call :
      (c : Call Message) (t : EffectToken) (s : DurableSender)
      → IsValid s
      → token_of c ≡ some t
      → Spent t s
      → call digest c s ≡ (err conflict, s)
  unfolding call reserved protected committed failed
  Spent-call (starts request now) t s v e g = cc
  Spent-call (reserves u n object now) t s v e g =
      rw (some_inv u t e, Spent-locate t (some reserving) s v g)
  Spent-call (protects u message now) t s v e g =
      rw (some_inv u t e, Spent-locate t (some protecting) s v g)
  Spent-call (commits u object) t s v e g =
      rw (some_inv u t e, Spent-locate t (some committing) s v g)
  Spent-call (fails u error) t s v e g = rw (some_inv u t e, Spent-locate t none s v g)

  -- Once a token of the sender was answered with success, every later call with it is refused as a
  -- conflict and changes nothing, whatever calls were made in between.
  pub answered_once :
      (s s' : DurableSender) (c again : Call Message) (t : EffectToken)
      (tr : SendTransition Message) (between : List (Call Message))
      → IsValid s
      → token_of c ≡ some t
      → call digest c s ≡ (ok tr, s')
      → token_of again ≡ some t
      → call digest again (run between s') ≡ (err conflict, run between s')
  answered_once s s' c again t tr between v e h e' =
      let moved : Moves Message s (some t) (ok tr) s' =
        subst (λ o. Moves Message s o (ok tr) s') e
          (subst (λ a. Moves Message s (token_of c) a.0 a.1) h
            (call-Moves digest s c v.sorted v.steady)) in
      let left = Moves-IsValid moved v in
      Spent-call again t (run between s') (run-IsValid between s' left) e'
        (run-Spent t between s' left (Moves-answers moved v))

  -- Whatever the host calls, at most 8 sends are pending, each waits for a token of its own, and each
  -- is as its phase has it: it holds the request until this is handed over, has an origin sequence in
  -- range from then on, and knows the expected object once it is protected.
  pub run_valid :
      (cs : List (Call Message)) (origin : MemberId) (incarnation : ℕ) (s : DurableSender)
      → new origin incarnation ≡ ok s
      → IsValid (run cs s)
  run_valid cs origin incarnation s h = run-IsValid cs s (new-IsValid origin incarnation s h)
