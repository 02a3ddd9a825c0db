-- ===== src/Codec/Utf8.antt =====
-- `std::str::from_utf8`, as far as the codec uses it: which byte strings are UTF-8.
use mesh_lab.Prelude.{
  ℕ, ◌<◌, ◌≡◌, refl, Bool, true, false, ◌&&◌, List, [], ◌∷◌, ltb, leb, if◌then◌else◌, All, lt→ltb,
}

-- What the next byte has to be.
pub data State : Type 0 where
  start one two three after_e0 after_ed after_f0 after_f4 fail : State

abbrev in_range : ℕ → ℕ → ℕ → Bool
in_range lo hi b = leb lo b && leb b hi

lead : ℕ → State
lead b =
    if ltb b 0x80
    then start
    else if in_range 0xc2 0xdf b
    then one
    else if in_range 0xe0 0xe0 b
    then after_e0
    else if in_range 0xed 0xed b
    then after_ed
    else if in_range 0xe1 0xef b
    then two
    else if in_range 0xf0 0xf0 b
    then after_f0
    else if in_range 0xf1 0xf3 b
    then three
    else if in_range 0xf4 0xf4 b
    then after_f4
    else fail

next : State → ℕ → State
unfolding lead
next start b = lead b
next one b = if in_range 0x80 0xbf b then start else fail
next two b = if in_range 0x80 0xbf b then one else fail
next three b = if in_range 0x80 0xbf b then two else fail
next after_e0 b = if in_range 0xa0 0xbf b then one else fail
next after_ed b = if in_range 0x80 0x9f b then one else fail
next after_f0 b = if in_range 0x90 0xbf b then two else fail
next after_f4 b = if in_range 0x80 0x8f b then two else fail
next fail b = fail

runs : State → List ℕ → State
unfolding next
runs s [] = s
runs s (b ∷ bs) = runs (next s b) bs

is_start : State → Bool
is_start start = true
is_start _ = false

unfoldable pub is_utf8 : List ℕ → Bool
unfolding runs is_start
is_utf8 bytes = is_start (runs start bytes)

-- ASCII is UTF-8.
pub is_utf8-ascii : (bytes : List ℕ) → All (λ b. b < 128) bytes → is_utf8 bytes ≡ true
unfolding is_utf8
is_utf8-ascii [] h = refl
is_utf8-ascii (b ∷ bs) h = rw (lt→ltb b 128 h.0) (is_utf8-ascii bs h.1)
