-- ===== src/Common/Spaces.antt =====
-- strings.TrimSpace, HasPrefix and TrimPrefix over byte sequences.
pub mod Laws
use Prim.Native.Nat.{ℕ, zero, suc}
use mathlib.Core.Bool.{Bool, true, false, ◌&&◌, ◌||◌}
use mathlib.Core.List.{[], ◌∷◌, reverse}
use hateblog_backend.Common.Tests.{leb, ◌==◌, if◌then◌else◌}
use hateblog_backend.Common.Lists.{length, drop}
use hateblog_backend.Common.Text.{Bytes}

-- The ASCII white space of Go: tab to carriage return, and blank.
abbrev pub is_space_byte : ℕ → Bool
is_space_byte c = c == 32 || (leb 9 c && leb c 13)

-- The other white space of Unicode in UTF-8: U+0085, U+00A0,
abbrev is_space_pair : ℕ → ℕ → Bool
is_space_pair a b = a == 0xC2 && (b == 0x85 || b == 0xA0)

-- U+1680, U+2000 to U+200A, U+2028, U+2029, U+202F, U+205F and U+3000.
abbrev is_space_triple : ℕ → ℕ → ℕ → Bool
is_space_triple a b c =
    (a == 0xE1 && (b == 0x9A && c == 0x80))
    || ((a == 0xE2
          && (b == 0x80 && ((leb 0x80 c && leb c 0x8A) || (c == 0xA8 || (c == 0xA9 || c == 0xAF)))))
        || ((a == 0xE2 && (b == 0x81 && c == 0x9F)) || (a == 0xE3 && (b == 0x80 && c == 0x80))))

-- The bytes of the white space that a text begins with; 0 if it begins with none.
unfoldable pub lead_width : Bytes → ℕ
lead_width [] = 0
lead_width (a ∷ []) = if is_space_byte a then 1 else 0
lead_width (a ∷ b ∷ []) = if is_space_byte a then 1 else if is_space_pair a b then 2 else 0
lead_width (a ∷ b ∷ c ∷ s) =
    if is_space_byte a
    then 1
    else if is_space_pair a b
    then 2
    else if is_space_triple a b c
    then 3
    else 0

-- The same of a reversed text.
unfoldable pub last_width : Bytes → ℕ
last_width [] = 0
last_width (a ∷ []) = if is_space_byte a then 1 else 0
last_width (a ∷ b ∷ []) = if is_space_byte a then 1 else if is_space_pair b a then 2 else 0
last_width (a ∷ b ∷ c ∷ s) =
    if is_space_byte a
    then 1
    else if is_space_pair b a
    then 2
    else if is_space_triple c b a
    then 3
    else 0

-- Drops white space as long as there is some; the length of the text is enough fuel.
pub trim_with : (Bytes → ℕ) → ℕ → Bytes → Bytes
trim_with width zero s = s
trim_with width (suc f) s =
    let rest = trim_with width f (drop (width s) s) in if width s == 0 then s else rest

unfoldable pub trim_left : Bytes → Bytes
unfolding trim_with lead_width
trim_left s = trim_with lead_width (length s) s

unfoldable pub trim_right : Bytes → Bytes
unfolding trim_with last_width
trim_right s = reverse (trim_with last_width (length s) (reverse s))

unfoldable pub trim_space : Bytes → Bytes
unfolding trim_left trim_right
trim_space s = trim_right (trim_left s)

unfoldable pub has_prefix : Bytes → Bytes → Bool
has_prefix s [] = true
has_prefix [] (b ∷ p) = false
has_prefix (a ∷ s) (b ∷ p) = a == b && has_prefix s p

unfoldable pub trim_prefix : Bytes → Bytes → Bytes
unfolding has_prefix
trim_prefix s p = if has_prefix s p then drop (length p) s else s
