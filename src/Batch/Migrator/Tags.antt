-- ===== src/Batch/Migrator/Tags.antt =====
-- `ensureTags` and `sanitizeUTF8` of cmd/migrator/main.go: the tags of a batch's keywords.
pub mod Found
use hateblog_backend.Common.{
  ℕ, zero, suc, ◌+◌, ◌-◌, ◌/◌, ap, Bool, not, ◌&&◌, none, some, List, [], ◌∷◌, ◌++◌, map, ltb, leb,
  ◌==◌, if◌then◌else◌, take, any, ℤ, Result, ok, err, Bytes, bytes_eq, is_empty, has_text,
  find_text,
}
use hateblog_backend.Domain.Tag.{normalize_name}

pub record Tag : Type 0 where
  pub id : Bytes
  pub name : Bytes

abbrev pub TagTable : Type 0
TagTable = List Tag

pub data MigrateError : Type 0 where
  tag_id_not_found : Bytes → MigrateError

abbrev pub between : ℕ → ℕ → ℕ → Bool
between low high b = leb low b && leb b high

abbrev pub is_next : ℕ → Bool
is_next b = between 128 191 b

-- The bounds of the second byte after the first, as in Go's table of accepted ranges.
unfoldable pub accepts : ℕ → ℕ → Bool
accepts a b =
    if a == 224
    then between 160 191 b
    else if a == 237
    then between 128 159 b
    else if a == 240
    then between 144 191 b
    else if a == 244
    then between 128 143 b
    else is_next b

-- The number of bytes of the rune at the head; 0 if they are no valid UTF-8.
unfoldable pub rune_width : Bytes → ℕ
unfolding accepts
rune_width [] = 0
rune_width (a ∷ []) = if ltb a 128 then 1 else 0
rune_width (a ∷ b ∷ []) = if ltb a 128 then 1 else if between 194 223 a && is_next b then 2 else 0
rune_width (a ∷ b ∷ c ∷ []) =
    if ltb a 128
    then 1
    else if between 194 223 a && is_next b
    then 2
    else if between 224 239 a && accepts a b && is_next c
    then 3
    else 0
rune_width (a ∷ b ∷ c ∷ d ∷ s) =
    if ltb a 128
    then 1
    else if between 194 223 a && is_next b
    then 2
    else if between 224 239 a && accepts a b && is_next c
    then 3
    else if between 240 244 a && accepts a b && is_next c && is_next d
    then 4
    else 0

-- `strings.ToValidUTF8(s, "")`: the bytes of no valid rune are left out. `left` counts the bytes that
-- still belong to the rune before.
valid_from : ℕ → Bytes → Bytes
valid_from left [] = []
valid_from (suc left) (a ∷ s) = a ∷ valid_from left s
valid_from zero (a ∷ s) = elim (rune_width (a ∷ s)) [
  | zero ↦ valid_from zero s
  | suc w ↦ a ∷ valid_from w s
]

-- For a valid text this is the text itself, which `sanitizeUTF8` returns without a copy.
unfoldable pub sanitize_utf8 : Bytes → Bytes
unfolding valid_from
sanitize_utf8 s = valid_from 0 s

abbrev pub has_tag : TagTable → Bytes → Bool
has_tag tags name = any (λ t. bytes_eq t.name name) tags

-- With the UUIDs as an argument: `INSERT INTO tags … ON CONFLICT (name) DO NOTHING` for each name, with the number of new rows.
unfoldable pub insert_tags : (Bytes → Bytes) → List Bytes → TagTable → TagTable × ℕ
insert_tags tag_uuid [] tags = (tags, 0)
insert_tags tag_uuid (name ∷ names) tags =
    let with_new : TagTable = tags ++ record { id = tag_uuid name; name = name } ∷ [] in
    let (kept, n) = insert_tags tag_uuid names tags in
    let (grown, m) = insert_tags tag_uuid names with_new in
    if has_tag tags name then (kept, n) else (grown, suc m)

-- `nameToID`, read back from the table for the names.
unfoldable pub tag_ids : TagTable → List Bytes → List (Bytes × Bytes)
tag_ids [] names = []
tag_ids (t ∷ tags) names =
    let rest = tag_ids tags names in if has_text t.name names then (t.name, t.id) ∷ rest else rest

module _ (to_lower : Bytes → Bytes) where
  unfoldable pub tag_name : Bytes → Bytes
  tag_name keyword = normalize_name to_lower (sanitize_utf8 keyword)

  -- The loop that collects the names, with the set `nameSet`.
  unfoldable pub collect_names : List Bytes → List (ℤ × Bytes) → List Bytes
  collect_names seen [] = []
  collect_names seen ((k, keyword) ∷ keywords) =
      let name = tag_name keyword in
      let skipped = collect_names seen keywords in
      let taken = collect_names (name ∷ seen) keywords in
      if is_empty name then skipped else if has_text name seen then skipped else name ∷ taken

  -- `keywordToTag`
  unfoldable pub link_keywords :
      List (Bytes × Bytes) → List (ℤ × Bytes) → Result MigrateError (List (ℤ × Bytes))
  link_keywords ids [] = ok []
  link_keywords ids ((k, keyword) ∷ keywords) =
      let name = tag_name keyword in
      let rest = link_keywords ids keywords in
      if is_empty name then rest else elim (find_text ids name) [
        | none ↦ err (tag_id_not_found name)
        | some id ↦ elim rest [ err e ↦ err e | ok linked ↦ ok ((k, id) ∷ linked) ]
      ]

  -- The keywords come in the order in which the map gives them. Also the table with the new tags.
  unfoldable pub ensure_tags :
      (Bytes → Bytes)
      → List (ℤ × Bytes)
      → TagTable
      → Result MigrateError (List (ℤ × Bytes) × ℕ × TagTable)
  ensure_tags tag_uuid keywords tags =
      let names = collect_names [] keywords in
      let (grown, n) = insert_tags tag_uuid names tags in
      elim (link_keywords (tag_ids grown names) keywords) [
        | err e ↦ err e
        | ok linked ↦ ok (linked, n, grown)
      ]
