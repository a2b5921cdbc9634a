-- ===== src/Domain/Tag/Names.antt =====
-- NormalizeName and New: what the normal form of a tag name is, and where a second normalisation
-- changes it. Each theorem holds for any strings.ToLower with the properties that it names.
use hateblog_backend.Common.{
  trim_space-blank, length-append, append_assoc, false, lead_width, subst, ℕ, zero, suc, ◌≤◌, ◌<◌,
  ◌≡◌, refl, sym, ap, ◌∙◌, ◌⊎◌, inl, inr, List, [], ◌∷◌, ◌++◌, arith, length, length-take, All, ok,
  err, Bytes, trim_space, Trimmed, trim_space-Trimmed, trim_space_of_Trimmed,
}
use hateblog_backend.Domain.Tag.{
  is_continuation, max_name, cut_back, truncate_utf8, normalize_name, Uuid, Tag, name_required, new,
}
use hateblog_backend.Domain.Tag.Truncation.{
  IsRune, Narrow, concat, fit, truncate_utf8-fit, length-fit-ge, truncate_utf8-at,
}

length-cut_back-le : (s : Bytes) (n : ℕ) → length (cut_back s n) ≤ n
unfolding cut_back
length-cut_back-le s zero = omega arith
length-cut_back-le s (suc n) = ground (arith, length-cut_back-le s n, length-take (suc n) s)

length-truncate_utf8-le : (s : Bytes) (n : ℕ) → length (truncate_utf8 s n) ≤ n
unfolding truncate_utf8
length-truncate_utf8-le s n = ground (arith, length-cut_back-le s n)

truncate_utf8_short : (s : Bytes) (n : ℕ) → length s ≤ n → truncate_utf8 s n ≡ s
unfolding truncate_utf8
truncate_utf8_short s n h = ground arith

normalize_name-truncate :
    (to_lower : Bytes → Bytes) (name : Bytes)
    → normalize_name to_lower name ≡ truncate_utf8 (to_lower (trim_space name)) max_name
unfolding normalize_name
normalize_name-truncate to_lower name =
    ground (arith, truncate_utf8_short (to_lower (trim_space name)) max_name)

-- A normalised name fits the 255 bytes of the database column, whatever ToLower does.
pub length-normalize_name-le :
    (to_lower : Bytes → Bytes) (name : Bytes) → length (normalize_name to_lower name) ≤ max_name
length-normalize_name-le to_lower name =
    rw normalize_name-truncate (length-truncate_utf8-le (to_lower (trim_space name)) max_name)

-- If the lowered, trimmed name consists of whole runes of at most four bytes each, then the normal
-- form is the longest run of its leading runes within 255 bytes; where the name is longer than
-- 255 bytes, more than 251 are kept.
pub normalize_name-fit :
    (to_lower : Bytes → Bytes) (name : Bytes) (rs : List Bytes)
    → to_lower (trim_space name) ≡ concat rs
    → All IsRune rs
    → All (Narrow 4) rs
    → (normalize_name to_lower name ≡ concat (fit max_name rs))
      × (max_name < length (concat rs) → 251 < length (normalize_name to_lower name))
normalize_name-fit to_lower name rs e runes narrow =
    let same : normalize_name to_lower name ≡ concat (fit max_name rs) =
      normalize_name-truncate to_lower name
      ∙ ap (λ s. truncate_utf8 s max_name) e
      ∙ truncate_utf8-fit rs max_name runes in
    (same, λ long. rw same (omega (arith, length-fit-ge 4 rs max_name narrow long)))

-- If ToLower changes nothing the second time and brings up no white space at the ends, then a name
-- whose lowered form fits 255 bytes has one normal form: normalising twice is normalising once.
pub normalize_name_idem :
    (to_lower : Bytes → Bytes) (name : Bytes)
    → ((s : Bytes) → to_lower (to_lower s) ≡ to_lower s)
    → ((s : Bytes) → Trimmed s → Trimmed (to_lower s))
    → length (to_lower (trim_space name)) ≤ max_name
    → normalize_name to_lower (normalize_name to_lower name) ≡ normalize_name to_lower name
normalize_name_idem to_lower name idem trimmed fits =
    let once : normalize_name to_lower name ≡ to_lower (trim_space name) =
      normalize_name-truncate to_lower name ∙ truncate_utf8_short _ max_name fits in
    rw once (
      normalize_name-truncate to_lower (to_lower (trim_space name))
      ∙ ap (λ s. truncate_utf8 (to_lower s) max_name)
          (trim_space_of_Trimmed _ (trimmed _ (trim_space-Trimmed name)))
      ∙ ap (λ s. truncate_utf8 s max_name) (idem (trim_space name))
      ∙ truncate_utf8_short _ max_name fits)

-- `New` gives the tag with the normalised name when that is not empty, and else `name_required`;
-- so a tag that it gives has a name of 1 to 255 bytes.
pub new_branches :
    (to_lower : Bytes → Bytes) (id : Uuid) (name : Bytes)
    → ((normalize_name to_lower name ≡ []) × (new to_lower id name ≡ err name_required))
      ⊎ ((t : Tag) × (new to_lower id name ≡ ok t)
          × (t.id ≡ id)
          × (t.name ≡ normalize_name to_lower name)
          × (0 < length t.name)
          × (length t.name ≤ max_name))
unfolding new
new_branches to_lower id name = go (normalize_name to_lower name) refl
  where
    go :
        (n : Bytes)
        → normalize_name to_lower name ≡ n
        → ((normalize_name to_lower name ≡ []) × (new to_lower id name ≡ err name_required))
          ⊎ ((t : Tag) × (new to_lower id name ≡ ok t)
              × (t.id ≡ id)
              × (t.name ≡ normalize_name to_lower name)
              × (0 < length t.name)
              × (length t.name ≤ max_name))
    go [] e = inl (e, rw (e, new))
    go (c ∷ n) e = inr (
      record { id = id; name = c ∷ n },
      rw (e, new),
      refl,
      sym e,
      omega arith,
      subst (λ n. length n ≤ max_name) e (length-normalize_name-le to_lower name),
    )

lead_width_of_three :
    (a b c : ℕ) (s t : Bytes) → lead_width (a ∷ b ∷ c ∷ s) ≡ lead_width (a ∷ b ∷ c ∷ t)
unfolding lead_width
lead_width_of_three a b c s t = refl

-- A name of whole runes that is too long and has a blank at byte 254, behind a trimmed text, gets a
-- normal form that ends in that blank; normalising again drops the blank. So normalising twice and
-- normalising once differ for each such name, for any ToLower that leaves the three texts alone.
pub normalize_name_not_idem :
    (to_lower : Bytes → Bytes) (a b c d : ℕ) (s rest : Bytes)
    → let w = a ∷ b ∷ c ∷ s in
      length w ≡ 254
      → Trimmed w
      → Trimmed (w ++ 32 ∷ d ∷ rest)
      → is_continuation d ≡ false
      → to_lower (w ++ 32 ∷ d ∷ rest) ≡ w ++ 32 ∷ d ∷ rest
      → to_lower w ≡ w
      → (normalize_name to_lower (w ++ 32 ∷ d ∷ rest) ≡ w ++ 32 ∷ [])
        × (normalize_name to_lower (w ++ 32 ∷ []) ≡ w)
normalize_name_not_idem to_lower a b c d s rest len trimmed all_trimmed lead lower_all lower_w =
    let w : Bytes = a ∷ b ∷ c ∷ s in
    (
      normalize_name-truncate to_lower (w ++ 32 ∷ d ∷ rest)
          ∙ ap (λ t. truncate_utf8 (to_lower t) max_name) (trim_space_of_Trimmed _ all_trimmed)
          ∙ ap (λ t. truncate_utf8 t max_name)
              (lower_all ∙ sym (append_assoc w (32 ∷ []) (d ∷ rest)))
          ∙ truncate_utf8-at (w ++ 32 ∷ []) rest d max_name 254 refl
              (omega (arith, len, length-append w (32 ∷ []))) lead,
      normalize_name-truncate to_lower (w ++ 32 ∷ [])
          ∙ ap (λ t. truncate_utf8 (to_lower t) max_name)
              (trim_space-blank w trimmed (lead_width_of_three a b c (s ++ 32 ∷ []) s ∙ trimmed.0))
          ∙ ap (λ t. truncate_utf8 t max_name) lower_w
          ∙ truncate_utf8_short w max_name (omega (arith, len)),
    )
