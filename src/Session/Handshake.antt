-- ===== src/Session/Handshake.antt =====
-- crates/mesh-session/src/lib.rs: `Handshake`, which ends in a `Session`.
use mesh_lab.Prelude.{
  ℕ, ◌+◌, Bool, false, not, ◌||◌, List, Option, none, some, length, ltb, leb, ◌==◌, if◌then◌else◌,
  Result, ok, err, ◌>>=◌, ◌>>◌, reject, ok_or,
}
use mesh_lab.Prelude.Ord.{equal, bytes_ord}
use mesh_lab.Durable.{MemberId, member_ord, max_logical_time}
use mesh_lab.Crypto.{Scope}
use mesh_lab.Protocol.Roster.{VerifiedRoster, validate_at, signing_key_of}
use mesh_lab.Session.Noise.{Snow, Role, prologue, handshake_timeout}
use mesh_lab.Session.Packets.{
  Error, invalid_input, wrong_phase, authentication, expired, random_unavailable, closed,
  default_replay,
}
use mesh_lab.Session.{Session, auth}

pub record Config : Type 0 where
  pub role : Role
  pub local : MemberId
  pub expected_peer : Option MemberId
  pub now : ℕ

pub record Handshake (H : Type 0) : Type 0 where
  pub state : Option H
  pub config : Config
  pub scope : Scope
  pub roster : List ℕ
  pub deadline : ℕ

-- `config.expected_peer == Some(config.local)`
abbrev pub is_self : Option MemberId → MemberId → Bool
is_self none m = false
is_self (some id) m = equal id m

-- The peer, if it is named, is certified.
abbrev pub known_peer : Option MemberId → VerifiedRoster → Result Error (Unit {0})
known_peer none roster = ok tt
known_peer (some id) roster = do _ ← auth (signing_key_of id roster); ok tt

-- `checked_add`, and the bound of logical time.
abbrev pub deadline_of : ℕ → Option ℕ
deadline_of now =
    if leb (now + handshake_timeout) max_logical_time then some (now + handshake_timeout) else none

abbrev pub Step : Type 0 → Type 0 → Type 0
Step A H = Result Error A × Handshake H

module _ {H T : Type 0} (noise : Snow H T) where
  -- The entropy is what the random source filled in, if it did.
  pub start : Config → VerifiedRoster → List ℕ → Option (List ℕ) → Result Error (Handshake H)
  start config roster key random = do
    _ ← auth (validate_at config.now roster)
    _ ← auth (signing_key_of config.local roster)
    reject (is_self config.expected_peer config.local) invalid_input
    known_peer config.expected_peer roster
    deadline ← ok_or (deadline_of config.now) invalid_input
    entropy ← ok_or random random_unavailable
    state ← ok_or (noise.build config.role key (prologue roster.scope) entropy) authentication
    ok (record {
      state = some state;
      config = config;
      scope = roster.scope;
      roster = roster.digest;
      deadline = deadline;
    })

  abbrev pub drop_state : Handshake H → Handshake H
  drop_state h = record h { state = none }

  abbrev pub late : ℕ → Handshake H → Bool
  late now h = ltb now h.config.now || leb h.deadline now

  -- `self.check(now)?; let s = self.state.as_mut()?; ..`
  abbrev pub in_time : {A : Type 0} → ℕ → Handshake H → Option H → (H → Step A H) → Step A H
  in_time now h none next = (err closed, h)
  in_time now h (some s) next = if late now h then (err expired, drop_state h) else next s

  abbrev pub written : Option (List ℕ × H) → Handshake H → Step (List ℕ) H
  written none h = (err authentication, drop_state h)
  written (some (bytes, s)) h = (ok bytes, record h { state = some s })

  pub write : ℕ → Handshake H → Step (List ℕ) H
  write now h = in_time now h h.state (λ s.
      if noise.is_handshake_finished s || not (noise.is_my_turn s)
      then (err wrong_phase, h)
      else written (noise.write_message s) h)

  -- `Ok(0)`, the length of the payload.
  abbrev pub taken : Option (List ℕ × H) → Handshake H → Step (Unit {0}) H
  taken none h = (err authentication, drop_state h)
  taken (some (bytes, s)) h =
      if length bytes == 0
      then (ok tt, record h { state = some s })
      else (err authentication, drop_state h)

  pub read : List ℕ → ℕ → Handshake H → Step (Unit {0}) H
  read bytes now h = in_time now h h.state (λ s.
      if noise.is_handshake_finished s || noise.is_my_turn s
      then (err wrong_phase, h)
      else if length bytes == 0 || ltb 96 (length bytes)
      then (err invalid_input, drop_state h)
      else taken (noise.read_message bytes s) h)

  unfoldable pub finish : VerifiedRoster → ℕ → Handshake H → Result Error (Session T)
  finish roster now h = do
    state ← ok_or h.state closed
    reject (late now h) expired
    _ ← auth (validate_at now roster)
    reject (not (equal roster.digest h.roster)) authentication
    reject (not (noise.is_handshake_finished state)) wrong_phase
    let id = noise.handshake_hash state
    reject (not (length id == 32)) authentication
    transport ← ok_or (noise.into_transport state) authentication
    ok (record {
      state = some transport;
      id = id;
      scope = h.scope;
      roster = h.roster;
      role = h.config.role;
      local = h.config.local;
      expected = h.config.expected_peer;
      peer = none;
      sent_auth = false;
      next = 1;
      replay = default_replay;
      started = h.config.now;
      deadline = h.deadline;
    })
