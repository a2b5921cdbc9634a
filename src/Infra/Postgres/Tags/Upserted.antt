-- ===== src/Infra/Postgres/Tags/Upserted.antt =====
-- What is found after an upsert.
use hateblog_backend.Common.{
  ◌≡◌, refl, sym, ap, ◌∙◌, ◌≢◌, ◌⊎◌, inl, inr, Option, none, some, List, [], ◌∷◌, ◌==◌,
  if◌then◌else◌, Bool-cases, Option-cases, Result, ok, err, Bytes, bytes_eq, bytes_eq_sound,
  bytes_eq_refl, is_empty, is_empty_cases,
}
use hateblog_backend.Domain.Tag.{Uuid, Tag, normalize_name}
use hateblog_backend.Infra.Postgres.Tags.{
  duplicate_id, TagRepositoryError, name_required, find_by_name, find_by_id, one_row, get_by_name,
  insert_tag, upsert,
}

find_by_name-name :
    (name : Bytes) (tags : List Tag) (t : Tag) → find_by_name name tags ≡ some t → t.name ≡ name
unfolding find_by_name
find_by_name-name name [] t h = cc h
find_by_name-name name (s ∷ tags) t h = elim (Bool-cases (bytes_eq s.name name)) [
  | inl same ↦ let first : s ≡ t = cc (h, same) in rw (← first) (bytes_eq_sound s.name name same)
  | inr other ↦ find_by_name-name name tags t (rw other at h)
]

-- The row that an insert returns is found under its name.
insert_tag-found :
    (t made : Tag) (tags : List Tag)
    → (insert_tag t tags).0 ≡ ok made
    → (made.name ≡ t.name) × (find_by_name t.name (insert_tag t tags).1 ≡ some made)
unfolding insert_tag
insert_tag-found t made tags h = elim (Option-cases (find_by_name t.name tags)) [
  | inr (known, there) ↦
      let same : known ≡ made = cc (rw (insert_tag, there) at h) in
      let named = find_by_name-name t.name tags known there in
      rw (insert_tag, there) (rw (← same) named, there ∙ ap some same)
  | inl absent ↦ elim (Option-cases (find_by_id t.id tags)) [
    | inr (taken, id_there) ↦
        let refused : ◌≡◌ {A = Result TagRepositoryError Tag} (err duplicate_id) (ok made) =
          rw (insert_tag, absent, id_there) at h in
        absurd (apart refused)
    | inl free ↦
        let same : t ≡ made = cc (rw (insert_tag, absent, free) at h) in
        rw (insert_tag, absent, free)
          (
            ap (λ x. x.name) (sym same),
            unfold find_by_name in rw (bytes_eq_refl t.name) (ap some same),
          )
  ]
]
  where
    apart : ◌≡◌ {A = Result TagRepositoryError Tag} (err duplicate_id) (ok made) → ⊥
    apart h = cc h

one_row_ok : (o : Option Tag) (t : Tag) → one_row o ≡ ok t → o ≡ some t
unfolding one_row
one_row_ok (some s) t h = cc h
one_row_ok none t h = cc h

-- A row with the empty name is found by no name.
get_by_name-filled :
    (to_lower : Bytes → Bytes) (name : Bytes) (tags : List Tag) (t : Tag)
    → t.name ≡ []
    → get_by_name to_lower name tags ≢ ok t
unfolding get_by_name
get_by_name-filled to_lower name tags t blank h =
    let norm = normalize_name to_lower name in
    elim (is_empty_cases norm) [
      | inl (none_left, empty) ↦ absurd (apart (rw empty at h))
      | inr (filled, not_empty) ↦
          let found = one_row_ok (find_by_name norm tags) t (rw not_empty at h) in
          absurd (filled (sym (find_by_name-name norm tags t found) ∙ blank))
    ]
  where
    apart :
        ◌≡◌ {A = Result TagRepositoryError Tag} (err TagRepositoryError.name_required) (ok t) → ⊥
    apart h = cc h

-- An upsert of a tag, where it succeeds, returns the normalized name, and the tag is found by the
-- name given and has the identifier returned, unless the normalized name is empty: the row of such
-- a name, which is stored, no name finds.
pub upsert_lem :
    (to_lower : Bytes → Bytes) (fresh : Uuid) (t made : Tag) (tags : List Tag)
    → (upsert to_lower fresh (some t) tags).0 ≡ ok made
    → let table = (upsert to_lower fresh (some t) tags).1 in
      (made.name ≡ normalize_name to_lower t.name)
      × (((normalize_name to_lower t.name ≢ []) × (get_by_name to_lower t.name table ≡ ok made))
          ⊎ ((normalize_name to_lower t.name ≡ [])
              × (find_by_name (normalize_name to_lower t.name) table ≡ some made)
              × (get_by_name to_lower t.name table ≡ err name_required)
              × ((name : Bytes) → get_by_name to_lower name table ≢ ok made)))
unfolding upsert get_by_name one_row
upsert_lem to_lower fresh t made tags h = elim (Bool-cases (is_empty t.name)) [
  | inl unnamed ↦ absurd (apart (rw (upsert, unnamed) at h))
  | inr named ↦
      let row = row_of (if t.id == 0 then fresh else t.id) in
      let (same_name, found) = insert_tag-found row made tags (rw (upsert, named) at h) in
      elim (is_empty_cases norm) [
        | inr (filled, not_empty) ↦
            rw (upsert, named) (same_name, inl (filled, rw (not_empty, found) refl))
        | inl (blank, empty) ↦
            rw (upsert, named)
              (
                same_name,
                inr (
                  blank,
                  found,
                  rw empty refl,
                  λ name.
                      get_by_name-filled to_lower name (insert_tag row tags).1 made
                        (same_name ∙ blank),
                ),
              )
      ]
]
  where
    norm : Bytes
    norm = normalize_name to_lower t.name

    row_of : Uuid → Tag
    row_of id = record { id = id; name = norm }

    apart :
        ◌≡◌ {A = Result TagRepositoryError Tag} (err TagRepositoryError.name_required) (ok made) → ⊥
    apart h = cc h
