-- ===== src/Codec.antt =====
-- crates/mesh-codec/src/canonical.rs: bounded definite CBOR, written and read.
pub mod Words
pub mod Utf8
pub mod Head
pub mod Canonical
pub mod Decodes
pub mod Inverse
pub mod Each
mod Tests
use mesh_lab.Prelude.{
  ℕ, zero, suc, ◌+◌, ◌-◌, ◌*◌, ◌/◌, ◌%◌, ◌^◌, ◌≡◌, bit_and, bit_or, Bool, not, ◌&&◌, List, [], ◌∷◌,
  ◌++◌, Option, some, none, length, get_elem?, take, drop, ltb, leb, ◌==◌, if◌then◌else◌, Result,
  ok, err, ◌>>=◌, ◌>>◌, reject, ok_or,
}
use mesh_lab.Durable.{DurableError, invalid_input, Outcome}
use Words.{be_bytes}
use Utf8.{is_utf8}

-- `Writer::head`: the bytes that are pushed for major type `major` and argument `n`.
unfoldable pub head_bytes : ℕ → ℕ → List ℕ
head_bytes major n =
    let tag = major * 32 % 256 in
    if ltb n 24
    then bit_or tag (n % 256) ∷ []
    else if ltb n 256
    then bit_or tag 24 ∷ (n % 256) ∷ []
    else if ltb n 65536
    then bit_or tag 25 ∷ be_bytes 2 (n % 2 ^ 16)
    else if ltb n 4294967296
    then bit_or tag 26 ∷ be_bytes 4 (n % 2 ^ 32)
    else bit_or tag 27 ∷ be_bytes 8 n

pub record Reader : Type 0 where
  pub bytes : List ℕ
  pub pos : ℕ

unfoldable pub new_reader : List ℕ → ℕ → Outcome Reader
new_reader bytes limit = do
  reject (ltb limit (length bytes)) invalid_input
  ok (record { bytes = bytes; pos = 0 })

unfoldable pub byte : Reader → Outcome (ℕ × Reader)
byte r = do b ← ok_or (get_elem? r.bytes r.pos) invalid_input; ok (b, record r { pos = r.pos + 1 })

-- The loop `value = (value << 8) | byte` over `n` bytes.
unfoldable pub read_be : ℕ → ℕ → Reader → Outcome (ℕ × Reader)
read_be zero value r = ok (value, r)
read_be (suc n) value r = do (b, r') ← byte r; read_be n (bit_or (value * 256 % 2 ^ 64) b) r'

-- The argument's length in bytes and its least canonical value.
abbrev pub argument_width : ℕ → Option (ℕ × ℕ)
argument_width tag =
    if tag == 24
    then some (1, 24)
    else if tag == 25
    then some (2, 256)
    else if tag == 26
    then some (4, 65536)
    else if tag == 27
    then some (8, 4294967296)
    else none

unfoldable pub long_value : ℕ → Reader → Outcome (ℕ × Reader)
long_value tag r = do
  (n, least) ← ok_or (argument_width tag) invalid_input
  (v, r') ← read_be n 0 r
  reject (ltb v least) invalid_input
  ok (v, r')

unfoldable pub value : ℕ → Reader → Outcome (ℕ × Reader)
value major r = do
  (b, r') ← byte r
  reject (not (b / 32 == major)) invalid_input
  let tag = bit_and b 31
  if ltb tag 24 then ok (tag, r') else long_value tag r'

unfoldable pub uint : Reader → Outcome (ℕ × Reader)
uint r = value 0 r

unfoldable pub array : ℕ → Reader → Outcome (Unit {0} × Reader)
array expected r = do (n, r') ← value 4 r; reject (not (n == expected)) invalid_input; ok (tt, r')

unfoldable pub count : ℕ → Reader → Outcome (ℕ × Reader)
count limit r = do (n, r') ← value 4 r; reject (ltb limit n) invalid_input; ok (n, r')

-- `usize::checked_add`, with words of 64 bits.
abbrev pub checked_add : ℕ → ℕ → Option ℕ
checked_add a b = if ltb (a + b) (2 ^ 64) then some (a + b) else none

-- `bytes.get(start..end)`
abbrev pub slice : List ℕ → ℕ → ℕ → Option (List ℕ)
slice bytes start stop =
    if leb start stop && leb stop (length bytes)
    then some (take (stop - start) (drop start bytes))
    else none

unfoldable pub string : ℕ → ℕ → Reader → Outcome (List ℕ × Reader)
string major limit r = do
  (n, r') ← value major r
  reject (ltb limit n) invalid_input
  stop ← ok_or (checked_add r'.pos n) invalid_input
  b ← ok_or (slice r'.bytes r'.pos stop) invalid_input
  ok (b, record r' { pos = stop })

unfoldable pub byte_string : ℕ → Reader → Outcome (List ℕ × Reader)
byte_string limit r = string 2 limit r

-- A text is the list of its UTF-8 bytes.
unfoldable pub text : ℕ → Reader → Outcome (List ℕ × Reader)
text limit r = do (b, r') ← string 3 limit r; reject (not (is_utf8 b)) invalid_input; ok (b, r')

-- `fixed::<N>`
unfoldable pub fixed : ℕ → Reader → Outcome (List ℕ × Reader)
fixed size r = do
  (b, r') ← byte_string size r
  reject (not (length b == size)) invalid_input
  ok (b, r')

unfoldable pub end : Reader → Outcome (Unit {0})
end r = reject (not (r.pos == length r.bytes)) invalid_input

-- `Writer`: a method returns the writer with the bytes it pushed.
pub record Writer : Type 0 where
  pub out : List ℕ

abbrev pub default_writer : Writer
default_writer = record { out = [] }

abbrev pub push_all : List ℕ → Writer → Writer
push_all b w = record { out = w.out ++ b }

unfoldable pub head : ℕ → ℕ → Writer → Writer
head major n w = push_all (head_bytes major n) w

unfoldable pub write_array : ℕ → Writer → Writer
unfolding head
write_array n w = head 4 n w

unfoldable pub write_uint : ℕ → Writer → Writer
unfolding head
write_uint n w = head 0 n w

unfoldable pub write_bytes : List ℕ → Writer → Writer
unfolding head
write_bytes b w = push_all b (head 2 (length b) w)

unfoldable pub write_text : List ℕ → Writer → Writer
unfolding head
write_text b w = push_all b (head 3 (length b) w)

unfoldable pub finish : Writer → List ℕ
finish w = w.out
