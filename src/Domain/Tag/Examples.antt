-- ===== src/Domain/Tag/Examples.antt =====
-- Tests of the tag names, and the theorems about them at concrete names.
use hateblog_backend.Common.{
  ℕ, zero, suc, ◌+◌, ◌<◌, ◌≡◌, refl, ◌&&◌, List, [], ◌∷◌, ◌++◌, map, arith, leb, if◌then◌else◌,
  length, All, err, Bytes, codes, trim_space, lead_width, last_width,
}
use hateblog_backend.Domain.Tag.{
  max_name, is_continuation, truncate_utf8, normalize_name, new, name_required,
}
use hateblog_backend.Domain.Tag.Truncation.{IsRune, concat, fit}
use hateblog_backend.Domain.Tag.Names.{normalize_name-fit, normalize_name_not_idem}

-- ToLower on ASCII texts.
abbrev ascii_lower : Bytes → Bytes
ascii_lower = map (λ c. if leb b'A' c && leb c b'Z' then c + 32 else c)

lowered : normalize_name ascii_lower (codes "  Go Lang ") ≡ codes "go lang"
unfolding normalize_name trim_space
lowered = refl

-- U+3042 in UTF-8; the cut at two bytes keeps none of it.
whole_runes : truncate_utf8 (b'a' ∷ 0xE3 ∷ 0x81 ∷ 0x82 ∷ []) 3 ≡ b'a' ∷ []
unfolding truncate_utf8
whole_runes = refl

wide_space : trim_space (0xE3 ∷ 0x80 ∷ 0x80 ∷ b'a' ∷ 0xC2 ∷ 0xA0 ∷ []) ≡ b'a' ∷ []
unfolding trim_space
wide_space = refl

refused : new ascii_lower 1 (codes "   ") ≡ err name_required
unfolding new normalize_name trim_space
refused = refl

abbrev two_runes : List Bytes
two_runes = (b'a' ∷ []) ∷ (0xE3 ∷ 0x81 ∷ 0x82 ∷ []) ∷ []

two_runes-IsRune : All IsRune two_runes
unfolding is_continuation
two_runes-IsRune = ((refl, tt), ((refl, (refl, (refl, tt))), tt))

normalize_name-fit_example :
    (normalize_name ascii_lower (32 ∷ concat two_runes) ≡ concat (fit max_name two_runes))
    × (max_name < length (concat two_runes)
        → 251 < length (normalize_name ascii_lower (32 ∷ concat two_runes)))
unfolding trim_space
normalize_name-fit_example =
    normalize_name-fit ascii_lower (32 ∷ concat two_runes) two_runes refl two_runes-IsRune
      (omega arith)

replicate : ℕ → Bytes
replicate zero = []
replicate (suc n) = b'x' ∷ replicate n

normalize_name_not_idem_example :
    (normalize_name ascii_lower (replicate 254 ++ codes " yz") ≡ replicate 254 ++ 32 ∷ [])
    × (normalize_name ascii_lower (replicate 254 ++ 32 ∷ []) ≡ replicate 254)
unfolding replicate is_continuation lead_width last_width
normalize_name_not_idem_example =
    normalize_name_not_idem ascii_lower b'x' b'x' b'x' b'y' (replicate 251) (codes "z") refl
      (refl, refl) (refl, refl) refl refl refl
