-- ===== src/Bridge/Replay.antt =====
-- The bounded event replay of the runtime: its invariant, and what a subscriber is given.
use mesh_lab.Prelude.{
  ℕ, suc, ◌+◌, ◌-◌, ◌≤◌, ◌<◌, ◌≡◌, inl, inr, List, [], ◌∷◌, ◌++◌, length, length-append, ◌==◌,
  if◌then◌else◌, arith, Bool-cases,
}
use mesh_lab.Bridge.{Runtime, Event, new, pop_front, verify_bridge, max_counter, max_events}

-- Sequence numbers without a gap, from `n` on.
abbrev pub Consecutive : ℕ → List Event → Type 0
Consecutive n [] = Unit {0}
Consecutive n (e ∷ es) = (e.sequence ≡ n) × Consecutive (n + 1) es

-- Request numbers that grow, all above `low`.
abbrev pub Rising : ℕ → List Event → Type 0
Rising low [] = Unit {0}
Rising low (e ∷ es) = (low < e.request_id) × Rising e.request_id es

abbrev pub AtMost : ℕ → List Event → Type 0
AtMost high [] = Unit {0}
AtMost high (e ∷ es) = (e.request_id ≤ high) × AtMost high es

pub record IsValid (r : Runtime) : Type 0 where
  pub bounded : length r.events ≤ max_events
  pub counted : length r.events ≤ r.sequence
  pub ceiling : r.sequence ≤ max_counter
  pub consecutive : Consecutive (r.sequence + 1 - length r.events) r.events
  pub rising : Rising 0 r.events
  pub known : AtMost r.last_request r.events

pub new-IsValid : (id : ℕ) → IsValid (new id)
unfolding new
new-IsValid id = ground arith

Consecutive-snoc :
    (n : ℕ) (es : List Event) (e : Event)
    → Consecutive n es
    → e.sequence ≡ n + length es
    → Consecutive n (es ++ e ∷ [])
Consecutive-snoc n [] e c h = (omega arith, tt)
Consecutive-snoc n (x ∷ es) e c h = (c.0, Consecutive-snoc (n + 1) es e c.1 (omega arith))

Rising-snoc :
    (low high : ℕ) (es : List Event) (e : Event)
    → Rising low es
    → AtMost high es
    → low ≤ high
    → high < e.request_id
    → Rising low (es ++ e ∷ [])
Rising-snoc low high [] e c k l h = (omega arith, tt)
Rising-snoc low high (x ∷ es) e c k l h = (c.0, Rising-snoc x.request_id high es e c.1 k.1 k.0 h)

AtMost-snoc :
    (high : ℕ) (es : List Event) (e : Event)
    → AtMost high es
    → high < e.request_id
    → AtMost e.request_id (es ++ e ∷ [])
AtMost-snoc high [] e k h = (omega arith, tt)
AtMost-snoc high (x ∷ es) e k h = (omega (arith, k.0), AtMost-snoc high es e k.1 h)

Rising-weaken : (low lower : ℕ) (es : List Event) → lower ≤ low → Rising low es → Rising lower es
Rising-weaken low lower [] h c = tt
Rising-weaken low lower (x ∷ es) h c = (omega (arith, c.0), c.1)

-- The events that are kept when one more comes in.
abbrev pub kept : List Event → List Event
kept es = if length es == max_events then pop_front es else es

module _ (sequence last : ℕ) where
  record Keeps (es : List Event) : Type 0 where
    room : length es < max_events
    counted : length es ≤ sequence
    aligned : Consecutive (sequence + 1 - length es) es
    rising : Rising 0 es
    known : AtMost last es

  kept-Keeps :
      (es : List Event)
      → length es ≤ max_events
      → length es ≤ sequence
      → Consecutive (sequence + 1 - length es) es
      → Rising 0 es
      → AtMost last es
      → Keeps (kept es)
  kept-Keeps [] b c a r k = ground arith
  kept-Keeps (e ∷ es) b c a r k = elim (Bool-cases (length (e ∷ es) == max_events)) [
    | inl full ↦
        let next : sequence + 1 - suc (length es) + 1 ≡ sequence + 1 - length es = omega arith in
        rw full (record {
          room = ground (arith, full);
          counted = omega arith;
          aligned = rw next at (a.1);
          rising = Rising-weaken e.request_id 0 es (omega arith) r.1;
          known = k.1;
        })
    | inr free ↦
        rw free
          (record { room = ground (arith, free); counted = c; aligned = a; rising = r; known = k })
  ]

appended-IsValid :
    (r : Runtime) (es : List Event) (request_id : ℕ)
    → Keeps r.sequence r.last_request es
    → r.sequence < max_counter
    → r.last_request < request_id
    → IsValid (record r {
      sequence = r.sequence + 1;
      last_request = request_id;
      events = es ++ record { sequence = r.sequence + 1; request_id = request_id } ∷ [];
    })
appended-IsValid r es request_id k below fresh =
    let e : Event = record { sequence = r.sequence + 1; request_id = request_id } in
    let more = length-append es (e ∷ []) in
    let start : r.sequence + 1 + 1 - length (es ++ e ∷ []) ≡ r.sequence + 1 - length es =
      omega (arith, more, k.counted) in
    record {
      bounded = omega (arith, more, k.room);
      counted = omega (arith, more, k.counted);
      ceiling = omega arith;
      consecutive = rw start (Consecutive-snoc _ es e k.aligned (omega (arith, k.counted)));
      rising = Rising-snoc 0 r.last_request es e k.rising k.known (omega arith) fresh;
      known = AtMost-snoc r.last_request es e k.known fresh;
    }

-- Every verification keeps the events bounded, gapless up to the current sequence number and
-- answered at most once each, whatever it answers.
pub verify_bridge-IsValid :
    (request_id : ℕ) (r : Runtime) → IsValid r → IsValid (verify_bridge request_id r).1
unfolding verify_bridge
verify_bridge-IsValid request_id r v =
    let k =
      kept-Keeps r.sequence r.last_request r.events v.bounded v.counted v.consecutive v.rising
        v.known in
    ground (arith, v, appended-IsValid r (kept r.events) request_id k)
