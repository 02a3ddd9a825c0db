-- ===== src/Link/Tests.antt =====
-- An envelope around two bytes.
use mesh_lab.Prelude.{ℕ, ◌≡◌, refl, List, [], ◌∷◌, ok}
use mesh_lab.Link.{Frame, new_frame, decode}
use mesh_lab.Codec.Words.{from_be}

abbrev envelope : List ℕ
envelope = 1 ∷ 0 ∷ 2 ∷ 0xab ∷ 0xcd ∷ []

abbrev content : Frame
content = record { bytes = 0xab ∷ 0xcd ∷ [] }

envelope_decoded : decode envelope ≡ ok content
unfolding decode new_frame from_be
envelope_decoded = refl
