-- ===== src/Bridge/Tests.antt =====
-- A runtime that answered the requests 5 and 9.
use mesh_lab.Prelude.{
  ℕ, ◌+◌, ◌-◌, ◌≤◌, ◌≡◌, ◌↔◌, refl, false, List, [], ◌∷◌, drop, length, ok, arith,
}
use mesh_lab.Bridge.{
  Runtime, Snapshot, verifies, new, subscribe, verify_bridge, decode_request, encode_snapshot,
  max_output,
}
use mesh_lab.Bridge.Commands.{IsCommand, request_bytes, decode_request_iff}
use mesh_lab.Bridge.Replay.{IsValid, Consecutive, new-IsValid, verify_bridge-IsValid}
use mesh_lab.Bridge.Snapshots.{encode_snapshot-fits}
use mesh_lab.Bridge.Subscribe.{subscribe_replays}
use mesh_lab.Bridge.{read_uint, read_loop}

abbrev one_answer : Runtime
one_answer = (verify_bridge 5 (new 7)).1

abbrev answered : Runtime
answered = (verify_bridge 9 one_answer).1

answered-IsValid : IsValid answered
answered-IsValid =
    verify_bridge-IsValid 9 one_answer (verify_bridge-IsValid 5 (new 7) (new-IsValid 7))

live : (subscribe answered 1).cursor_reset ≡ false
unfolding subscribe verify_bridge new
live = refl

subscribe_replays_example :
    Consecutive 2 (subscribe answered 1).events
    × (length (subscribe answered 1).events ≡ answered.sequence - 1)
    × ((subscribe answered 1).events
        ≡ drop (1 + length answered.events - answered.sequence) answered.events)
subscribe_replays_example = subscribe_replays answered 1 answered-IsValid (omega arith) live

abbrev answer : Snapshot
answer = subscribe answered 1

answers : (verify_bridge 9 one_answer).0 ≡ ok answer
unfolding subscribe verify_bridge new
answers = refl

encode_snapshot-fits_example : length (encode_snapshot 2 (subscribe answered 0)) ≤ max_output
encode_snapshot-fits_example = encode_snapshot-fits answered 2 0 answered-IsValid

abbrev request : List ℕ
request = 0x83 ∷ 1 ∷ 2 ∷ 0x18 ∷ 0x28 ∷ []

decode_request_iff_example :
    (decode_request request ≡ ok (verifies 40))
    ↔ ((request ≡ request_bytes (verifies 40)) × IsCommand (verifies 40))
decode_request_iff_example = decode_request_iff request (verifies 40) (omega arith)

request_decoded : decode_request request ≡ ok (verifies 40)
unfolding decode_request read_uint read_loop
request_decoded = refl
