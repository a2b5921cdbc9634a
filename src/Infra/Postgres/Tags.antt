-- ===== src/Infra/Postgres/Tags.antt =====
-- internal/infra/postgres/tag_repository.go over the tables tags and tag_view_history as lists of rows:
-- a tag has one row for its identifier and one for its name. The statements that rank tags are
-- PostgreSQL's; so is the order of names, a parameter. An identifier 0 is uuid.Nil.
pub mod Upserted
pub mod Examples
use hateblog_backend.Common.{
  ℕ, ◌+◌, ◌-◌, ◌/◌, not, ◌&&◌, Option, none, some, List, [], ◌∷◌, ltb, leb, ◌==◌, if◌then◌else◌,
  take, drop, keep, ℤ, pos, pos_part, ltb_ℤ, leb_ℤ, Result, ok, err, Bytes, bytes_eq, is_empty,
}
use hateblog_backend.Domain.Tag.{Uuid, Tag, normalize_name}
use hateblog_backend.Domain.Entry.{Time}
use hateblog_backend.Pkg.Apptime.{Calendar, truncate_to_day}

pub data TagRepositoryError : Type 0 where
  tag_is_nil : TagRepositoryError
  id_required : TagRepositoryError
  name_required : TagRepositoryError
  no_rows : TagRepositoryError
  duplicate_id : TagRepositoryError

pub record ViewRow : Type 0 where
  pub tag_id : Uuid
  pub viewed_at : Time
  pub count : ℕ

unfoldable pub find_by_id : Uuid → List Tag → Option Tag
find_by_id id [] = none
find_by_id id (t ∷ ts) = if t.id == id then some t else find_by_id id ts

unfoldable pub find_by_name : Bytes → List Tag → Option Tag
find_by_name name [] = none
find_by_name name (t ∷ ts) = if bytes_eq t.name name then some t else find_by_name name ts

-- `Scan` of one row, or pgx.ErrNoRows.
unfoldable pub one_row : Option Tag → Result TagRepositoryError Tag
one_row none = err no_rows
one_row (some t) = ok t

unfoldable pub get : Uuid → List Tag → Result TagRepositoryError Tag
unfolding one_row find_by_id
get id tags = if id == 0 then err id_required else one_row (find_by_id id tags)

unfoldable pub get_by_name : (Bytes → Bytes) → Bytes → List Tag → Result TagRepositoryError Tag
unfolding one_row find_by_name
get_by_name to_lower name tags =
    let norm = normalize_name to_lower name in
    if is_empty norm then err name_required else one_row (find_by_name norm tags)

-- ORDER BY name with LIMIT and OFFSET; `ordered` sorts by name.
unfoldable pub list : (List Tag → List Tag) → ℤ → ℤ → List Tag → List Tag
list ordered limit offset tags =
    let most = if leb_ℤ limit (pos 0) then pos 100 else limit in
    let from = if ltb_ℤ offset (pos 0) then pos 0 else offset in
    take (pos_part most) (drop (pos_part from) (ordered tags))

-- INSERT with ON CONFLICT (name): the row that is returned, and the table. The name of a row in
-- conflict is set to itself; an identifier that is taken by another name is an error.
unfoldable pub insert_tag : Tag → List Tag → Result TagRepositoryError Tag × List Tag
unfolding find_by_name find_by_id
insert_tag t tags = elim (find_by_name t.name tags) [
  | some known ↦ (ok known, tags)
  | none ↦ elim (find_by_id t.id tags) [
    | some taken ↦ (err duplicate_id, tags)
    | none ↦ (ok t, t ∷ tags)
  ]
]

-- `fresh` is uuid.New(). The tag is changed to the row that is returned.
unfoldable pub upsert :
    (Bytes → Bytes) → Uuid → Option Tag → List Tag → Result TagRepositoryError Tag × List Tag
unfolding insert_tag
upsert to_lower fresh none tags = (err tag_is_nil, tags)
upsert to_lower fresh (some t) tags =
    if is_empty t.name
    then (err name_required, tags)
    else insert_tag
        (record { id = if t.id == 0 then fresh else t.id; name = normalize_name to_lower t.name })
        tags

unfoldable pub delete : Uuid → List Tag → Result TagRepositoryError (Unit {0}) × List Tag
delete id tags =
    if id == 0 then (err id_required, tags) else (ok tt, keep (λ t. not (t.id == id)) tags)

unfoldable pub upsert_view : Uuid → Time → List ViewRow → List ViewRow
upsert_view id day [] = record { tag_id = id; viewed_at = day; count = 1 } ∷ []
upsert_view id day (row ∷ rows) =
    let rest = upsert_view id day rows in
    if row.tag_id == id && row.viewed_at == day
    then record row { count = row.count + 1 } ∷ rows
    else row ∷ rest

unfoldable pub increment_view_history :
    Calendar → Uuid → Time → List ViewRow → Result TagRepositoryError (Unit {0}) × List ViewRow
unfolding upsert_view
increment_view_history calendar id viewed_at rows =
    if id == 0
    then (err id_required, rows)
    else (ok tt, upsert_view id (truncate_to_day calendar viewed_at) rows)
