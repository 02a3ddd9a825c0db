-- ===== src/Bridge/Snapshots.antt =====
-- Encoded snapshots fit the output buffer of the bridge.
use mesh_lab.Prelude.{
  ℕ, ◌+◌, ◌*◌, ◌≤◌, Bool, List, [], ◌∷◌, length, length-append, select, ltb, arith,
}
use mesh_lab.Codec.Head.{length-head_bytes_le}
use mesh_lab.Bridge.{
  Event, Snapshot, Runtime, event_bytes, events_bytes, encode_snapshot, subscribe, max_output,
}
use mesh_lab.Bridge.Replay.{IsValid}

event_bytes-le : (e : Event) → length (event_bytes e) ≤ 28
unfolding event_bytes
event_bytes-le e = simp length-append (
    omega (
      arith,
      length-head_bytes_le 0 e.sequence,
      length-head_bytes_le 0 e.request_id,
      length-head_bytes_le 0 0,
    ))

events_bytes-le : (es : List Event) → length (events_bytes es) ≤ 28 * length es
unfolding events_bytes
events_bytes-le [] = omega arith
events_bytes-le (e ∷ es) =
    omega
      (arith, length-append (event_bytes e) (events_bytes es), event_bytes-le e, events_bytes-le es)

encode_snapshot-le :
    (method : ℕ) (s : Snapshot) → length (encode_snapshot method s) ≤ 58 + 28 * length s.events
unfolding encode_snapshot
encode_snapshot-le method s = simp length-append (
    omega (
      arith,
      length-head_bytes_le 0 method,
      length-head_bytes_le 0 s.runtime_id,
      length-head_bytes_le 0 s.cursor,
      length-head_bytes_le 0 s.probe_count,
      length-head_bytes_le 0 0,
      length-head_bytes_le 4 (length s.events),
      events_bytes-le s.events,
    ))

length-select : (p : Event → Bool) (es : List Event) → length (select p es) ≤ length es
length-select p [] = omega arith
length-select p (e ∷ es) = ground (arith, length-select p es)

events-subscribe : (r : Runtime) (cursor : ℕ) → length (subscribe r cursor).events ≤ length r.events
unfolding subscribe
events-subscribe r cursor = ground (arith, length-select (λ e. ltb cursor e.sequence) r.events)

-- Whatever cursor a subscriber gives, the snapshot of a valid runtime is encoded in at most
-- `MAX_OUTPUT` bytes.
pub encode_snapshot-fits :
    (r : Runtime) (method cursor : ℕ)
    → IsValid r
    → length (encode_snapshot method (subscribe r cursor)) ≤ max_output
encode_snapshot-fits r method cursor v =
    omega
      (arith, encode_snapshot-le method (subscribe r cursor), events-subscribe r cursor, v.bounded)
