-- ===== src/Runtime/Receiver/Once.antt =====
-- A token is answered at most once, whatever the host calls in between.
use mesh_lab.Prelude.{
  ℕ, ◌<◌, ◌≡◌, ◌≢◌, sym, ap, subst, ◌∙◌, inl, inr, false, List, [], ◌∷◌, Option, some, none, ok,
  err, ok_or, arith,
}
use mesh_lab.Prelude.Ord.{equal, equal_iff}
use mesh_lab.Prelude.OrdMap.{get}
use mesh_lab.Prelude.Find.{find_key-none}
use mesh_lab.Durable.{MemberId, ObjectId, object_ord, conflict}
use mesh_lab.Runtime.Receiver.{
  DurableReceiver, Pending, ReceiveToken, ReceivePhase, ReceiveTransition, Delivery, waits_for,
  locate, drop_pending, inspecting, verifying, committing, new, inspected, verified, committed,
  failed,
}
use mesh_lab.Runtime.Receiver.Moves.{
  Call, starts, inspects, verifies, commits, fails, call, issued, call-Moves,
}
use mesh_lab.Runtime.Receiver.Tokens.{
  IsValid, Moves-IsValid, Spent, new-IsValid, Moves-Spent, dropped-inv, issued-inv,
}
use mesh_lab.Runtime.Receiver.Outcomes.{
  token_of, Waits, Answers, already_stored, to_verify, to_commit, stored, gives_up, answered,
}

some_inv : (u t : ReceiveToken) → ◌≡◌ {A = Option ReceiveToken} (some u) (some t) → u ≡ t
some_inv u t h = ground (arith, h)

module _ (t : ReceiveToken) (k : ObjectId) (phase : ReceivePhase) (r : DurableReceiver)
    (v : IsValid r) (w : Waits t k phase r) where
  -- The waiting entry's own sequence number is that of the token.
  waiting_sequence : w.0.token.sequence ≡ t.sequence
  waiting_sequence = ground (arith, w.2)

  waiting_past : t.sequence < r.next
  waiting_past = omega (arith, waiting_sequence, (v.own k w.0 w.1).1)

  alone :
      (j : ObjectId) (q : Pending)
      → get j r.pending ≡ some q
      → equal j k ≡ false
      → q.token.sequence ≢ t.sequence
  alone j q there other e =
      ground (
        arith,
        other,
        (equal_iff j k).1 (v.distinct j k q w.0 there w.1 (e ∙ sym waiting_sequence)),
      )

  drop-Spent : Spent t (drop_pending k r)
  unfolding drop_pending
  drop-Spent = record {
    past = waiting_past;
    idle = λ j q h e. let (there, other) = dropped-inv k j q r h in alone j q there other e;
  }

  issue-Spent : (next : ReceivePhase) → Spent t (issued k next r)
  issue-Spent next = record {
    past = omega (arith, waiting_past);
    idle = λ j q h e. elim (issued-inv k j next q r h) [
      | inl (_, q_new) ↦ absurd (omega (arith, waiting_past, e, ap (λ x. x.token.sequence) q_new))
      | inr (other, there) ↦ alone j q there other e
    ];
  }

Spent-locate :
    (t : ReceiveToken) (phase : Option ReceivePhase) (r : DurableReceiver)
    → IsValid r
    → Spent t r
    → locate t phase r ≡ err conflict
unfolding locate
Spent-locate t phase r v s =
    ap (λ o. ok_or o conflict)
      (find_key-none (waits_for t phase) r.pending v.sorted
        (λ k p there. ground (arith, s.idle k p there)))

module _ {Proof : Type 0} ⦃d : Delivery Proof⦄ where
  Answers-Spent :
      (r r' : DurableReceiver) (c : Call Proof) (t : ReceiveToken) (tr : ReceiveTransition Proof)
      → IsValid r
      → token_of c ≡ some t
      → Answers r c tr r'
      → Spent t r'
  Answers-Spent r r' c t tr v e (already_stored u k w) =
      rw (← some_inv u t e) (drop-Spent u k inspecting r v w)
  Answers-Spent r r' c t tr v e (to_verify u k w) =
      rw (← some_inv u t e) (issue-Spent u k inspecting r v w verifying)
  Answers-Spent r r' c t tr v e (to_commit u k proof w _ _) =
      rw (← some_inv u t e) (issue-Spent u k verifying r v w committing)
  Answers-Spent r r' c t tr v e (stored u k w) =
      rw (← some_inv u t e) (drop-Spent u k committing r v w)
  Answers-Spent r r' c t tr v e (gives_up u k phase error w) =
      rw (← some_inv u t e) (drop-Spent u k phase r v w)

  -- The receiver after a series of calls, whatever they answer.
  unfoldable pub run : List (Call Proof) → DurableReceiver → DurableReceiver
  run [] r = r
  run (c ∷ cs) r = run cs (call c r).1

  run-IsValid : (cs : List (Call Proof)) (r : DurableReceiver) → IsValid r → IsValid (run cs r)
  unfolding run
  run-IsValid [] r v = v
  run-IsValid (c ∷ cs) r v = run-IsValid cs (call c r).1 (Moves-IsValid (call-Moves c r v.sorted) v)

  run-Spent :
      (t : ReceiveToken) (cs : List (Call Proof)) (r : DurableReceiver)
      → IsValid r
      → Spent t r
      → Spent t (run cs r)
  unfolding run
  run-Spent t [] r v s = s
  run-Spent t (c ∷ cs) r v s =
      let moves = call-Moves c r v.sorted in
      run-Spent t cs (call c r).1 (Moves-IsValid moves v) (Moves-Spent t moves s)

  Spent-call :
      (c : Call Proof) (t : ReceiveToken) (r : DurableReceiver)
      → IsValid r
      → token_of c ≡ some t
      → Spent t r
      → call c r ≡ (err conflict, r)
  unfolding call inspected verified committed failed
  Spent-call (starts object) t r v e s = cc
  Spent-call (inspects u _) t r v e s = rw (some_inv u t e, Spent-locate t (some inspecting) r v s)
  Spent-call (verifies u _) t r v e s = rw (some_inv u t e, Spent-locate t (some verifying) r v s)
  Spent-call (commits u _) t r v e s = rw (some_inv u t e, Spent-locate t (some committing) r v s)
  Spent-call (fails u _) t r v e s = rw (some_inv u t e, Spent-locate t none r v s)

  -- Once a token was answered with success, every later call with it is refused as a conflict and
  -- changes nothing, whatever calls were made in between.
  pub token_once :
      (r r' : DurableReceiver) (c again : Call Proof) (t : ReceiveToken)
      (tr : ReceiveTransition Proof) (between : List (Call Proof))
      → IsValid r
      → token_of c ≡ some t
      → call c r ≡ (ok tr, r')
      → token_of again ≡ some t
      → call again (run between r') ≡ (err conflict, run between r')
  token_once r r' c again t tr between v e h e' =
      let left : IsValid r' =
        subst IsValid (ap (λ a. a.1) h) (Moves-IsValid (call-Moves c r v.sorted) v) in
      let spent = Answers-Spent r r' c t tr v e (answered r r' v.sorted c t tr e h) in
      Spent-call again t (run between r') (run-IsValid between r' left) e'
        (run-Spent t between r' left spent)

  -- Whatever the host calls, at most 8 objects are pending, their keys are in order, and each waits
  -- for a token of its own that was given out before.
  pub run_bounded :
      (cs : List (Call Proof)) (member : MemberId) (incarnation : ℕ) (r : DurableReceiver)
      → new member incarnation ≡ ok r
      → IsValid (run cs r)
  run_bounded cs member incarnation r h = run-IsValid cs r (new-IsValid member incarnation r h)
