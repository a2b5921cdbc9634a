-- ===== src/Batch/Migrator/Tags/Found.antt =====
-- `ensureTags` finds the tag of each keyword.
use hateblog_backend.Common.{
  ℕ, ◌≡◌, refl, ap, ◌∙◌, ◌⊎◌, inl, inr, Bool, true, false, not, ◌&&◌, ◌||◌, Option, some, List, [],
  ◌∷◌, ◌++◌, arith, if◌then◌else◌, Bool-cases, any, ℤ, ok, Bytes, bytes_eq, bytes_eq_sound,
  bytes_eq_refl, is_empty, has_text, find_text,
}
use hateblog_backend.Batch.Migrator.Tags.{
  TagTable, has_tag, tag_name, collect_names, insert_tags, tag_ids, link_keywords, ensure_tags,
}

-- A row with the identifier and the name.
abbrev pub has_row : TagTable → Bytes → Bytes → Bool
has_row tags id name = any (λ t. bytes_eq t.id id && bytes_eq t.name name) tags

has_tag-append : (s t : TagTable) (v : Bytes) → has_tag (s ++ t) v ≡ (has_tag s v || has_tag t v)
has_tag-append [] t v = refl
has_tag-append (x ∷ s) t v = ground (arith, has_tag-append s t v)

has_tag-insert_tags :
    (tag_uuid : Bytes → Bytes) (names : List Bytes) (tags : TagTable) (v : Bytes)
    → has_tag (insert_tags tag_uuid names tags).0 v ≡ (has_tag tags v || has_text v names)
unfolding insert_tags
has_tag-insert_tags tag_uuid [] tags v = ground arith
has_tag-insert_tags tag_uuid (name ∷ names) tags v =
    let known : bytes_eq name v ≡ true → has_tag tags name ≡ has_tag tags v =
      λ e. ap (has_tag tags) (bytes_eq_sound name v e) in
    let grown : TagTable = tags ++ record { id = tag_uuid name; name = name } ∷ [] in
    let added = has_tag-append tags (record { id = tag_uuid name; name = name } ∷ []) v in
    elim (Bool-cases (has_tag tags name)) [
      | inl old ↦ rw old (ground (arith, has_tag-insert_tags tag_uuid names tags v, known, old))
      | inr new ↦ rw new (ground (arith, has_tag-insert_tags tag_uuid names grown v, added))
    ]

-- The identifier found for a name is that of a row with the name.
abbrev pub HasId : TagTable → List (Bytes × Bytes) → Bytes → Type 0
HasId tags ids v = (id : Bytes) × (find_text ids v ≡ some id) × (has_row tags id v ≡ true)

find_text_other :
    (b : Bool) (j k i : Bytes) (m : List (Bytes × Bytes)) (o : Option Bytes)
    → bytes_eq j k ≡ false
    → find_text m k ≡ o
    → find_text (if b then (j, i) ∷ m else m) k ≡ o
find_text_other true j k i m o other found = rw other found
find_text_other false j k i m o other found = found

find_text-tag_ids :
    (tags : TagTable) (names : List Bytes) (v : Bytes)
    → has_text v names ≡ true
    → has_tag tags v ≡ true
    → HasId tags (tag_ids tags names) v
unfolding tag_ids
find_text-tag_ids [] names v asked there = absurd (ground arith)
find_text-tag_ids (t ∷ tags) names v asked there = elim (Bool-cases (bytes_eq t.name v)) [
  | inl same ↦
      let wanted : has_text t.name names ≡ true =
        ap (λ w. has_text w names) (bytes_eq_sound t.name v same) ∙ asked in
      (t.id, rw (wanted, same) refl, ground (arith, bytes_eq_refl t.id, same))
  | inr other ↦
      let (id, found, row) = find_text-tag_ids tags names v asked (ground (arith, other, there)) in
      (
        id,
        find_text_other (has_text t.name names) t.name v t.id (tag_ids tags names) (some id) other
            found,
        ground (arith, row),
      )
]

module _ (to_lower : Bytes → Bytes) where
  abbrev Covers : List Bytes → List (ℤ × Bytes) → Type 0
  Covers names [] = Unit
  Covers names ((k, w) ∷ ks) =
      ((is_empty (tag_name to_lower w) || has_text (tag_name to_lower w) names) ≡ true)
      × Covers names ks

  collect_names-Covers :
      (seen : List Bytes) (ks : List (ℤ × Bytes)) (all_names : List Bytes)
      → ((v : Bytes)
          → (has_text v (collect_names to_lower seen ks) || has_text v seen) ≡ true
          → has_text v all_names ≡ true)
      → Covers all_names ks
  unfolding collect_names
  collect_names-Covers seen [] all_names h = tt
  collect_names-Covers seen ((k, w) ∷ ks) all_names h =
      let name = tag_name to_lower w in
      elim (Bool-cases (is_empty name)) [
        | inl blank ↦ (
          rw blank refl,
          collect_names-Covers seen ks all_names (λ v e. h v (rw (collect_names, blank) e)),
        )
        | inr filled ↦ elim (Bool-cases (has_text name seen)) [
          | inl known ↦ (
            ground (arith, h name (rw (collect_names, filled, known) (ground (arith, known)))),
            collect_names-Covers seen ks all_names
                (λ v e. h v (rw (collect_names, filled, known) e)),
          )
          | inr fresh ↦ (
            ground (
              arith,
              h name (rw (collect_names, filled, fresh) (ground (arith, bytes_eq_refl name))),
            ),
            collect_names-Covers (name ∷ seen) ks all_names
                (λ v e. h v (rw (collect_names, filled, fresh) (ground (arith, e)))),
          )
        ]
      ]

  -- A keyword has the name, which is not empty.
  abbrev pub is_named : Bytes → List (ℤ × Bytes) → Bool
  is_named v [] = false
  is_named v ((k, w) ∷ ks) =
      (not (is_empty (tag_name to_lower w)) && bytes_eq (tag_name to_lower w) v) || is_named v ks

  collect_names-is_named :
      (seen : List Bytes) (ks : List (ℤ × Bytes)) (v : Bytes)
      → (has_text v (collect_names to_lower seen ks) || has_text v seen)
        ≡ (is_named v ks || has_text v seen)
  unfolding collect_names
  collect_names-is_named seen [] v = refl
  collect_names-is_named seen ((k, w) ∷ ks) v =
      let name = tag_name to_lower w in
      let known : bytes_eq name v ≡ true → has_text name seen ≡ has_text v seen =
        λ e. ap (λ x. has_text x seen) (bytes_eq_sound name v e) in
      elim (Bool-cases (is_empty name)) [
        | inl blank ↦ rw blank (collect_names-is_named seen ks v)
        | inr filled ↦ elim (Bool-cases (has_text name seen)) [
          | inl old ↦
              rw (filled, old) (ground (arith, collect_names-is_named seen ks v, known, old))
          | inr new ↦ rw (filled, new) (ground (arith, collect_names-is_named (name ∷ seen) ks v))
        ]
      ]

  -- What the map `keywordToTag` is to hold.
  abbrev pub AreLinked : TagTable → List (ℤ × Bytes) → List (ℤ × Bytes) → Type 0
  AreLinked tags [] linked = linked ≡ []
  AreLinked tags ((k, w) ∷ ks) linked =
      ((is_empty (tag_name to_lower w) ≡ true) × AreLinked tags ks linked)
      ⊎ ((id : Bytes) × (rest : List (ℤ × Bytes)) × (is_empty (tag_name to_lower w) ≡ false)
          × (linked ≡ (k, id) ∷ rest)
          × (has_row tags id (tag_name to_lower w) ≡ true)
          × AreLinked tags ks rest)

  link_keywords-AreLinked :
      (tags : TagTable) (ids : List (Bytes × Bytes)) (names : List Bytes) (ks : List (ℤ × Bytes))
      → ((v : Bytes) → has_text v names ≡ true → HasId tags ids v)
      → Covers names ks
      → (linked : List (ℤ × Bytes)) × (link_keywords to_lower ids ks ≡ ok linked)
        × AreLinked tags ks linked
  unfolding link_keywords
  link_keywords-AreLinked tags ids names [] h c = ([], refl, refl)
  link_keywords-AreLinked tags ids names ((k, w) ∷ ks) h (c, cs) =
      let name = tag_name to_lower w in
      let (rest, run, linked) = link_keywords-AreLinked tags ids names ks h cs in
      elim (Bool-cases (is_empty name)) [
        | inl blank ↦ (rest, rw (blank, run) refl, inl (blank, linked))
        | inr filled ↦
            let (id, found, row) = h name (ground (arith, c, filled)) in
            (
              (k, id) ∷ rest,
              rw (link_keywords, filled, found, run) refl,
              inr (id, rest, filled, refl, row, linked),
            )
      ]

  -- Whatever the keywords and the table of tags are, no lookup fails: each keyword whose name, made
  -- valid UTF-8 and normalised, is not empty gets the identifier of a tag of the new table with that
  -- name, and no other keyword gets one. The names in the new table are those that were there before and those of the keywords, but for the empty one.
  pub ensure_tags_found :
      (tag_uuid : Bytes → Bytes) (keywords : List (ℤ × Bytes)) (tags : TagTable)
      → (linked : List (ℤ × Bytes)) × (n : ℕ) × (grown : TagTable) × (ensure_tags to_lower tag_uuid
            keywords tags
          ≡ ok (linked, n, grown))
        × AreLinked grown keywords linked
        × ((v : Bytes) → has_tag grown v ≡ (has_tag tags v || is_named v keywords))
  unfolding ensure_tags
  ensure_tags_found tag_uuid keywords tags =
      let names = collect_names to_lower [] keywords in
      let grown = (insert_tags tag_uuid names tags).0 in
      let there = has_tag-insert_tags tag_uuid names tags in
      let (linked, run, result) =
        link_keywords-AreLinked grown (tag_ids grown names) names keywords
          (λ v asked. find_text-tag_ids grown names v asked (ground (arith, there v, asked)))
          (collect_names-Covers [] keywords names (λ v e. ground (arith, e))) in
      (
        linked,
        (insert_tags tag_uuid names tags).1,
        grown,
        rw (ensure_tags, run) refl,
        result,
        λ v. there v ∙ ap (λ b. has_tag tags v || b) (names_asked v),
      )
    where
      names_asked :
          (v : Bytes) → has_text v (collect_names to_lower [] keywords) ≡ is_named v keywords
      names_asked v = ground (arith, collect_names-is_named [] keywords v)
