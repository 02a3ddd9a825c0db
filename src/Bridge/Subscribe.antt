-- ===== src/Bridge/Subscribe.antt =====
-- What a subscriber is given: the missing events without a gap, or a reset.
use mesh_lab.Prelude.{
  ℕ, zero, suc, ◌+◌, ◌-◌, ◌≤◌, ◌<◌, ◌≡◌, refl, sym, ◌∙◌, ◌↔◌, Bool, true, false, List, [], ◌∷◌,
  ◌++◌, length, length-drop, drop, drop-nil, any, select, ltb, ◌==◌, ok, arith, le→ltb, lt→ltb,
}
use native.Mathlib.Decide.{dec_lt}
use mesh_lab.Durable.{IsU64}
use mesh_lab.Bridge.{Runtime, Event, Snapshot, front_sequence, subscribe, verify_bridge}
use mesh_lab.Bridge.Replay.{IsValid, Consecutive, kept}

abbrev newer : ℕ → List Event → List Event
newer cursor = select (λ e. ltb cursor e.sequence)

newer_all : (cursor n : ℕ) (es : List Event) → Consecutive n es → cursor < n → newer cursor es ≡ es
newer_all cursor n [] c h = refl
newer_all cursor n (e ∷ es) c h =
    rw
      (lt→ltb cursor e.sequence (omega (arith, c.0)), newer_all cursor (n + 1) es c.1 (omega arith))

newer-drop :
    (cursor n : ℕ) (es : List Event)
    → Consecutive n es
    → n ≤ cursor + 1
    → newer cursor es ≡ drop (cursor + 1 - n) es
newer-drop cursor n [] c h = sym (drop-nil (cursor + 1 - n))
newer-drop cursor n (e ∷ es) c h = elim (dec_lt cursor n) [
  | yes p ↦
      let none_left : cursor + 1 - n ≡ 0 = omega arith in
      rw none_left (newer_all cursor n (e ∷ es) c p)
  | no p ↦
      let more : cursor + 1 - n ≡ suc (cursor + 1 - (n + 1)) = omega arith in
      rw (more, le→ltb cursor e.sequence (omega (arith, c.0)))
        (newer-drop cursor (n + 1) es c.1 (omega arith))
]

Consecutive-drop : (n k : ℕ) (es : List Event) → Consecutive n es → Consecutive (n + k) (drop k es)
Consecutive-drop n zero es c = let e : n + 0 ≡ n = omega arith in rw e c
Consecutive-drop n (suc k) [] c = tt
Consecutive-drop n (suc k) (x ∷ es) c =
    let e : n + suc k ≡ n + 1 + k = omega arith in rw e (Consecutive-drop (n + 1) k es c.1)

front_sequence_lem :
    (sequence : ℕ) (es : List Event)
    → Consecutive (sequence + 1 - length es) es
    → front_sequence es (sequence + 1) ≡ sequence + 1 - length es
front_sequence_lem sequence [] c = omega arith
front_sequence_lem sequence (e ∷ es) c = c.0

-- A snapshot resets the cursor unless the cursor is not ahead of the runtime and every event
-- after it is still retained.
pub subscribe-reset_iff :
    (r : Runtime) (cursor : ℕ)
    → IsValid r
    → IsU64 cursor
    → ((subscribe r cursor).cursor_reset ≡ false)
      ↔ ((cursor ≤ r.sequence) × (r.sequence ≤ cursor + length r.events))
unfolding subscribe
subscribe-reset_iff r cursor v h =
    ground (arith, v, front_sequence_lem r.sequence r.events v.consecutive)

live_events :
    (r : Runtime) (cursor : ℕ)
    → (subscribe r cursor).cursor_reset ≡ false
    → (subscribe r cursor).events ≡ newer cursor r.events
unfolding subscribe
live_events r cursor live = ground (arith, live)

-- Where the cursor is not reset, the snapshot holds exactly the events after it, in order and
-- without a gap.
pub subscribe_replays :
    (r : Runtime) (cursor : ℕ)
    → IsValid r
    → IsU64 cursor
    → (subscribe r cursor).cursor_reset ≡ false
    → Consecutive (cursor + 1) (subscribe r cursor).events
      × (length (subscribe r cursor).events ≡ r.sequence - cursor)
      × ((subscribe r cursor).events ≡ drop (cursor + length r.events - r.sequence) r.events)
subscribe_replays r cursor v h live =
    let (low, high) = (subscribe-reset_iff r cursor v h).0 live in
    let start = r.sequence + 1 - length r.events in
    let skip : cursor + 1 - start ≡ cursor + length r.events - r.sequence =
      omega (arith, v.counted) in
    let end : cursor + 1 ≡ start + (cursor + 1 - start) = omega (arith, v.counted) in
    let given =
      live_events r cursor live ∙ newer-drop cursor start r.events v.consecutive (omega arith) in
    rw given (
      rw (← end) at (Consecutive-drop start (cursor + 1 - start) r.events v.consecutive),
      omega (arith, v.counted, length-drop (cursor + 1 - start) r.events),
      rw skip,
    )

any-snoc :
    (p : Event → Bool) (es : List Event) (e : Event) → p e ≡ true → any p (es ++ e ∷ []) ≡ true
any-snoc p [] e h = ground (arith, h)
any-snoc p (x ∷ es) e h = ground (arith, any-snoc p es e h)

-- A request that was answered may be sent again at once: the second call is answered too, and
-- changes nothing.
pub verify_bridge_retry :
    (request_id : ℕ) (r : Runtime) (s : Snapshot)
    → (verify_bridge request_id r).0 ≡ ok s
    → verify_bridge request_id (verify_bridge request_id r).1 ≡ (
      ok (subscribe (verify_bridge request_id r).1 (verify_bridge request_id r).1.sequence),
      (verify_bridge request_id r).1,
    )
unfolding verify_bridge
verify_bridge_retry request_id r s h = ground (
  arith,
  h,
  any-snoc (λ e. e.request_id == request_id) (kept r.events)
      (record { sequence = r.sequence + 1; request_id = request_id }),
)
