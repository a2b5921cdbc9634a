-- ===== src/Infra/Postgres/Repository/Totals.antt =====
-- ListAndCount answers what List and Count answer.
use hateblog_backend.Common.{
  ◌≡◌, refl, ap, true, false, List, [], ◌∷◌, map, All, ℤ, Result, ok, err, ◌>>=◌, Bytes,
}
use hateblog_backend.Domain.Tag.{normalize_name}
use hateblog_backend.Domain.Entry.{Entry}
use hateblog_backend.Domain.ListQuery.{ListQuery, normalize}
use hateblog_backend.Domain.ListQuery.Normal.{normalize_idem}
use hateblog_backend.Infra.Postgres.Search.{list_entries_sql, list_entries_with_total_sql}
use hateblog_backend.Infra.Postgres.Repository.{
  Row, Database, RepositoryError, scan_entry, or_failed, or_invalid, load_tags, last_total,
  with_tags, list, count, page_with_total, list_and_count,
}

-- The answers of two calls, as a pair; the first error counts.
abbrev pub both {ℓ} :
    {A B : Type ℓ}
    → Result RepositoryError A
    → Result RepositoryError B
    → Result RepositoryError (A × B)
both (ok a) (ok b) = ok (a, b)
both (ok a) (err e) = err e
both (err e) r = err e

-- Each row of `COUNT(1) OVER()` has the number of all rows, before LIMIT and OFFSET.
abbrev pub numbered : ℤ → List Row → List (Row × ℤ)
numbered n rows = map (λ r. (r, n)) rows

last_total-numbered : (n : ℤ) (r : Row) (rows : List Row) → last_total (numbered n (r ∷ rows)) ≡ n
unfolding last_total
last_total-numbered n r [] = refl
last_total-numbered n r (s ∷ rows) = last_total-numbered n s rows

scan-numbered :
    (n : ℤ) (rows : List Row) → map (λ x. scan_entry x.0) (numbered n rows) ≡ map scan_entry rows
scan-numbered n [] = refl
scan-numbered n (r ∷ rows) = ap (λ es. scan_entry r ∷ es) (scan-numbered n rows)

with_count :
    (m : Result RepositoryError (List Entry)) (n : ℤ) → (m >>= λ es. ok (es, n)) ≡ both m (ok n)
with_count (ok es) n = refl
with_count (err e) n = refl

module _ (to_lower : Bytes → Bytes) (db : Database) (q query : ListQuery)
    (valid : normalize to_lower q ≡ ok query)
    (fixed : All (λ name. normalize_name to_lower name ≡ name) query.tags) (n : ℤ)
    (counted : db.count_of (list_entries_sql to_lower query true) ≡ ok n) where
  count_of_valid : (p : ListQuery) → normalize to_lower p ≡ ok query → count to_lower db p ≡ ok n
  unfolding count or_invalid or_failed
  count_of_valid p h = rw (h, counted) refl

  list_of_valid :
      (rows : List Row)
      → db.rows_of (list_entries_sql to_lower query false) ≡ ok rows
      → list to_lower db q ≡ with_tags to_lower db rows
  unfolding list or_invalid or_failed
  list_of_valid rows h = rw (valid, h) refl

  page_with_total-numbered :
      (rows : List Row)
      → page_with_total to_lower db query (numbered n rows)
        ≡ both (with_tags to_lower db rows) (ok n)
  unfolding page_with_total with_tags
  page_with_total-numbered [] =
      rw (count_of_valid query (normalize_idem to_lower q query valid fixed)) refl
  page_with_total-numbered (r ∷ rows) =
      rw (scan-numbered n rows, last_total-numbered n r rows)
        (with_count (load_tags db (map scan_entry (r ∷ rows))) n)

  -- When the query is valid, the names of its tags, once normalised, are normal forms, and the database counts the rows
  -- and gives each row of the list that number as its total, then ListAndCount answers the entries of List and the number of Count, also
  -- for a page without entries, and fails as List does when the tags cannot be loaded.
  pub list_and_count_lem :
      (rows : List Row)
      → db.rows_of (list_entries_sql to_lower query false) ≡ ok rows
      → db.totals_of (list_entries_with_total_sql to_lower query) ≡ ok (numbered n rows)
      → list_and_count to_lower db q ≡ both (list to_lower db q) (count to_lower db q)
  unfolding list_and_count or_invalid or_failed
  list_and_count_lem rows listed totals =
      rw (list_of_valid rows listed, count_of_valid q valid, valid, totals)
        (page_with_total-numbered rows)
