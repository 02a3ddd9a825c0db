-- ===== src/Bridge.antt =====
-- The diagnostic bridge: crates/mesh-types/src/lib.rs, the request and snapshot codec of
-- crates/mesh-codec/src/lib.rs and the runtime of crates/mesh-runtime/src/lib.rs.
pub mod Requests
pub mod Commands
pub mod Snapshots
pub mod Replay
pub mod Subscribe
mod Tests
use mesh_lab.Prelude.{
  ℕ, zero, suc, ◌+◌, ◌-◌, ◌*◌, ◌%◌, ◌^◌, bit_or, min, Bool, true, false, not, ◌&&◌, ◌||◌, List, [],
  ◌∷◌, ◌++◌, Option, some, none, length, get_elem?, any, select, ltb, leb, ◌==◌, if◌then◌else◌, ok,
  err, ◌>>=◌, ◌>>◌, reject, ok_or,
}
pub use mesh_lab.Prelude.{Result}
use mesh_lab.Codec.{argument_width, head_bytes}

abbrev pub api_version : ℕ
api_version = 1

abbrev pub max_input : ℕ
max_input = 64

abbrev pub max_output : ℕ
max_output = 16384

abbrev pub max_events : ℕ
max_events = 64

abbrev pub max_counter : ℕ
max_counter = 2 ^ 53 - 1

pub data Error : Type 0 where
  invalid_argument incompatible_version invalid_handle : Error
  resource_pressure internal_invariant stale_request : Error

pub data Command : Type 0 where
  engine_info : Command
  subscribes : ℕ → Command
  verifies : ℕ → Command

pub record Event : Type 0 where
  pub sequence : ℕ
  pub request_id : ℕ

pub record Snapshot : Type 0 where
  pub runtime_id : ℕ
  pub cursor : ℕ
  pub probe_count : ℕ
  pub cursor_reset : Bool
  pub events : List Event

-- The loop of `read_uint` over `n` bytes.
pub read_loop : List ℕ → ℕ → ℕ → ℕ → Result Error (ℕ × ℕ)
read_loop bytes zero value pos = ok (value, pos)
read_loop bytes (suc n) value pos = do
  b ← ok_or (get_elem? bytes pos) invalid_argument
  read_loop bytes n (bit_or (value * 256 % 2 ^ 64) b) (pos + 1)

-- The number read, and the position after it.
pub read_uint : List ℕ → ℕ → Result Error (ℕ × ℕ)
read_uint bytes pos = do
  head ← ok_or (get_elem? bytes pos) invalid_argument
  if ltb head 24 then ok (head, pos + 1) else do
    (n, least) ← ok_or (argument_width head) invalid_argument
    (v, p) ← read_loop bytes n 0 (pos + 1)
    reject (ltb v least) invalid_argument
    ok (v, p)

abbrev pub command_of : ℕ → ℕ → Result Error Command
command_of method arg =
    if method == 0 && arg == 0
    then ok engine_info
    else if method == 1
    then ok (subscribes arg)
    else if method == 2 && ltb 0 arg
    then ok (verifies arg)
    else err invalid_argument

pub decode_request : List ℕ → Result Error Command
decode_request bytes = do
  first ← ok_or (get_elem? bytes 0) invalid_argument
  reject (ltb max_input (length bytes) || not (first == 0x83)) invalid_argument
  (version, p₁) ← read_uint bytes 1
  (method, p₂) ← read_uint bytes p₁
  (arg, p₃) ← read_uint bytes p₂
  reject (not (p₃ == length bytes) || ltb max_counter arg) invalid_argument
  reject (not (version == api_version)) incompatible_version
  command_of method arg

pub event_bytes : Event → List ℕ
event_bytes e = 0x83 ∷ head_bytes 0 e.sequence ++ head_bytes 0 e.request_id ++ head_bytes 0 0

pub events_bytes : List Event → List ℕ
unfolding event_bytes
events_bytes [] = []
events_bytes (e ∷ es) = event_bytes e ++ events_bytes es

pub encode_snapshot : ℕ → Snapshot → List ℕ
encode_snapshot method s =
    (0x83 ∷ 1 ∷ [])
    ++ head_bytes 0 method
    ++ (0x86 ∷ [])
    ++ head_bytes 0 s.runtime_id
    ++ head_bytes 0 s.cursor
    ++ head_bytes 0 s.probe_count
    ++ head_bytes 0 0
    ++ ((if s.cursor_reset then 0xf5 else 0xf4) ∷ [])
    ++ head_bytes 4 (length s.events)
    ++ events_bytes s.events

pub record Runtime : Type 0 where
  pub id : ℕ
  pub sequence : ℕ
  pub last_request : ℕ
  pub events : List Event

pub new : ℕ → Runtime
new id = record { id = id; sequence = 0; last_request = 0; events = [] }

-- `self.events.front().map_or(self.sequence + 1, |e| e.sequence)`
abbrev pub front_sequence : List Event → ℕ → ℕ
front_sequence [] otherwise = otherwise
front_sequence (e ∷ _) otherwise = e.sequence

abbrev pub oldest : Runtime → ℕ
oldest r = front_sequence r.events (r.sequence + 1)

-- `cursor.saturating_add(1)` on 64 bits.
abbrev pub after_cursor : ℕ → ℕ
after_cursor cursor = min (cursor + 1) (2 ^ 64 - 1)

pub subscribe : Runtime → ℕ → Snapshot
subscribe r cursor =
    let reset = ltb r.sequence cursor || ltb (after_cursor cursor) (oldest r) in
    record {
      runtime_id = r.id;
      cursor = r.sequence;
      probe_count = r.sequence;
      cursor_reset = reset;
      events = if reset then [] else select (λ e. ltb cursor e.sequence) r.events;
    }

abbrev pub pop_front : List Event → List Event
pop_front [] = []
pop_front (e ∷ es) = es

-- A method with a mutable receiver answers the result and the state it leaves.
pub verify_bridge : ℕ → Runtime → Result Error Snapshot × Runtime
verify_bridge request_id r =
    if request_id == 0 || ltb max_counter request_id
    then (err invalid_argument, r)
    else if leb request_id r.last_request
    then (if any (λ e. e.request_id == request_id) r.events
        then (ok (subscribe r r.sequence), r)
        else (err stale_request, r))
    else if r.sequence == max_counter
    then (err resource_pressure, r)
    else (let kept = if length r.events == max_events then pop_front r.events else r.events in
        let event : Event = record { sequence = r.sequence + 1; request_id = request_id } in
        let r' : Runtime = record {
          id = r.id;
          sequence = r.sequence + 1;
          last_request = request_id;
          events = kept ++ event ∷ [];
        } in
        (ok (subscribe r' r.sequence), r'))
