-- ===== src/Infra/Postgres/Repository.antt =====
-- List, Count and ListAndCount of internal/infra/postgres/entry_repository.go, over a database that
-- answers SQL texts.
pub mod Totals
use hateblog_backend.Common.{
  ◌+◌, ◌-◌, ◌/◌, ap, true, false, Option, none, some, List, [], ◌∷◌, ◌++◌, map, ◌==◌, if◌then◌else◌,
  ℤ, pos, Result, ok, err, ◌>>=◌, ◌>>◌, Bytes, is_empty,
}
use hateblog_backend.Usecase.Ports.{Fault}
use hateblog_backend.Domain.Tag.{Uuid, normalize_name}
use hateblog_backend.Domain.Entry.{Entry, Tagging, Time}
use hateblog_backend.Domain.ListQuery.{ListQuery, QueryError, normalize}
use hateblog_backend.Domain.ListQuery.Normal.{normalize_idem}
use hateblog_backend.Infra.Postgres.{Sql}
use hateblog_backend.Infra.Postgres.Search.{list_entries_sql, list_entries_with_total_sql}

-- A row of the query's columns; two of them may be NULL.
pub record Row : Type 0 where
  pub id : Uuid
  pub title : Bytes
  pub url : Bytes
  pub posted_at : Time
  pub bookmark_count : ℤ
  pub excerpt : Option Bytes
  pub subject : Option Bytes
  pub created_at : Time
  pub updated_at : Time

-- What one state of the database answers: rows, rows with the column total, a number, and the tags of
-- the entries with some ids.
pub record Database : Type 0 where
  pub rows_of : Sql → Result Fault (List Row)
  pub totals_of : Sql → Result Fault (List (Row × ℤ))
  pub count_of : Sql → Result Fault ℤ
  pub taggings_of : List Uuid → Result Fault (List (Uuid × Tagging))

pub data RepositoryError : Type 0 where
  invalid : QueryError → RepositoryError
  failed : Fault → RepositoryError

abbrev text_of : Option Bytes → Bytes
text_of none = []
text_of (some s) = s

unfoldable pub scan_entry : Row → Entry
scan_entry r = record {
  id = r.id;
  url = r.url;
  title = r.title;
  excerpt = text_of r.excerpt;
  subject = text_of r.subject;
  bookmark_count = r.bookmark_count;
  posted_at = r.posted_at;
  tags = [];
  created_at = r.created_at;
  updated_at = r.updated_at;
}

unfoldable pub taggings_for : Uuid → List (Uuid × Tagging) → List Tagging
taggings_for id [] = []
taggings_for id ((i, t) ∷ rows) =
    let rest = taggings_for id rows in if i == id then t ∷ rest else rest

unfoldable pub or_failed {ℓ} : {A : Type ℓ} → Result Fault A → Result RepositoryError A
or_failed (ok a) = ok a
or_failed (err f) = err (failed f)

unfoldable pub or_invalid : Result QueryError ListQuery → Result RepositoryError ListQuery
or_invalid (ok q) = ok q
or_invalid (err e) = err (invalid e)

abbrev add_tags : List (Uuid × Tagging) → Entry → Entry
add_tags rows e = record e { tags = e.tags ++ taggings_for e.id rows }

-- The ids of the entries differ: they are a primary key.
unfoldable pub load_tags : Database → List Entry → Result RepositoryError (List Entry)
load_tags db entries = do
  rows ← or_failed (db.taggings_of (map (λ e. e.id) entries))
  ok (map (add_tags rows) entries)

-- The total of the last row, as the loop leaves it.
unfoldable pub last_total : List (Row × ℤ) → ℤ
last_total [] = pos 0
last_total ((r, n) ∷ []) = n
last_total (x ∷ y ∷ rows) = last_total (y ∷ rows)

module _ (to_lower : Bytes → Bytes) (db : Database) where
  -- After the query: no tags are loaded for an empty list.
  unfoldable pub with_tags : List Row → Result RepositoryError (List Entry)
  with_tags rows = if is_empty rows then ok [] else load_tags db (map scan_entry rows)

  unfoldable pub list : ListQuery → Result RepositoryError (List Entry)
  list q = do
    query ← or_invalid (normalize to_lower q)
    rows ← or_failed (db.rows_of (list_entries_sql to_lower query false))
    with_tags rows

  unfoldable pub count : ListQuery → Result RepositoryError ℤ
  count q = do
    query ← or_invalid (normalize to_lower q)
    or_failed (db.count_of (list_entries_sql to_lower query true))

  -- The answer from the rows with their total, or from Count if there is none.
  unfoldable pub page_with_total :
      ListQuery → List (Row × ℤ) → Result RepositoryError (List Entry × ℤ)
  page_with_total query rows = if is_empty rows then (do n ← count query; ok ([], n)) else (do
    entries ← load_tags db (map (λ r. scan_entry r.0) rows)
    ok (entries, last_total rows))

  unfoldable pub list_and_count : ListQuery → Result RepositoryError (List Entry × ℤ)
  list_and_count q = do
    query ← or_invalid (normalize to_lower q)
    rows ← or_failed (db.totals_of (list_entries_with_total_sql to_lower query))
    page_with_total query rows
