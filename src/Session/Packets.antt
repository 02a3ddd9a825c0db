-- ===== src/Session/Packets.antt =====
-- crates/mesh-session/src/lib.rs: `Replay`, the window of the packets that a session accepted.
pub mod Window
use mesh_lab.Prelude.{
  ℕ, ◌-◌, ◌*◌, ◌%◌, ◌^◌, bit_and, bit_or, Bool, not, ◌&&◌, ◌||◌, Option, none, some, ltb, leb, ◌==◌,
  if◌then◌else◌, Result, ok, err,
}

pub data Error : Type 0 where
  invalid_input wrong_phase authentication replay expired random_unavailable closed exhausted :
      Error

-- `bits` is a word of 64 bits.
pub record Replay : Type 0 where
  pub highest : Option ℕ
  pub bits : ℕ

abbrev pub default_replay : Replay
default_replay = record { highest = none; bits = 0 }

-- `delta >= 64 || self.bits & (1 << delta) != 0`
abbrev pub spent : ℕ → ℕ → Bool
spent delta bits = leb 64 delta || not (bit_and bits (2 ^ delta) == 0)

abbrev pub check_from : Option ℕ → ℕ → ℕ → Result Error (Unit {0})
check_from none bits n = ok tt
check_from (some high) bits n = if leb n high && spent (high - n) bits then err replay else ok tt

unfoldable pub check : ℕ → Replay → Result Error (Unit {0})
check n r = check_from r.highest r.bits n

-- `(self.bits << (n - high)) | 1`, or 1 where the shift would leave the word.
abbrev pub shifted : ℕ → ℕ → ℕ
shifted k bits = if leb 64 k then 1 else bit_or (bits * 2 ^ k % 2 ^ 64) 1

abbrev pub accept_from : Option ℕ → ℕ → ℕ → Replay
accept_from none bits n = record { highest = some n; bits = 1 }
accept_from (some high) bits n =
    if ltb high n
    then record { highest = some n; bits = shifted (n - high) bits }
    else record { highest = some high; bits = bit_or bits (2 ^ (high - n)) }

-- Called behind `check`, so that an older packet is less than 64 below the highest.
unfoldable pub accept : ℕ → Replay → Replay
accept n r = accept_from r.highest r.bits n
