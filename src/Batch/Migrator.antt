-- ===== src/Batch/Migrator.antt =====
-- cmd/migrator/main.go: the bookmarks of the old MySQL database go, batch by batch in the order of
-- their ids, to PostgreSQL. The tables of both are values here; a transaction that fails changes nothing.
pub mod Tags
pub mod Rows
pub mod Order
pub mod Complete
pub mod Examples
use hateblog_backend.Common.{
  ℕ, zero, suc, ◌+◌, ◌-◌, ◌/◌, ap, not, ◌||◌, Option, none, some, List, [], ◌∷◌, ◌++◌, map, ltb,
  if◌then◌else◌, length, take, keep, any, ℤ, ltb_ℤ, Result, ok, err, Bytes, is_empty,
}
use hateblog_backend.Usecase.Ports.{Fault}
use hateblog_backend.Batch.Migrator.Rows.{
  BookmarkRow, KeyphraseRow, Source, EntryRow, EntryTag, Target, Stats, has_entry, has_entry_tag,
  entry_of, find_id, has_id, clamp_score,
}
use hateblog_backend.Batch.Migrator.Tags.{Tag, TagTable, MigrateError, ensure_tags, sanitize_utf8}

abbrev pub batch_size : ℕ
batch_size = 1000

-- What the loop over a batch's bookmarks leaves: `entry_ids` is the map `bookmarkToEntry`.
pub record Inserted : Type 0 where
  pub entries : List EntryRow
  pub entry_ids : List (ℤ × Bytes)
  pub inserted : ℕ
  pub skipped : ℕ

-- `fetchKeywordsByIDs`: the keywords with the ids, without the empty ones, which are counted.
unfoldable pub fetch_keywords : List ℤ → List (ℤ × Bytes) → List (ℤ × Bytes) × ℕ
fetch_keywords ids [] = ([], 0)
fetch_keywords ids ((k, keyword) ∷ rows) =
    let (rest, skipped) = fetch_keywords ids rows in
    let text = sanitize_utf8 keyword in
    if not (has_id ids k)
    then (rest, skipped)
    else if is_empty text
    then (rest, suc skipped)
    else ((k, text) ∷ rest, skipped)

-- The loop over the keyphrases: the new rows, how many they are, and how many keyphrases are skipped.
unfoldable pub link_keyphrases :
    List (ℤ × Bytes) → List (ℤ × Bytes) → List KeyphraseRow → List EntryTag → List EntryTag × ℕ × ℕ
link_keyphrases entry_ids tag_ids [] rows = (rows, 0, 0)
link_keyphrases entry_ids tag_ids (k ∷ ks) rows =
    let (same, n, skipped) = link_keyphrases entry_ids tag_ids ks rows in
    elim (find_id entry_ids k.bookmark_id) [
      | none ↦ (same, n, suc skipped)
      | some e ↦ elim (find_id tag_ids k.keyword_id) [
        | none ↦ (same, n, suc skipped)
        | some t ↦
            let linked : List EntryTag =
              rows ++ record { entry_id = e; tag_id = t; score = clamp_score k.score } ∷ [] in
            let (grown, m, left_out) = link_keyphrases entry_ids tag_ids ks linked in
            if has_entry_tag rows e t then (same, n, skipped) else (grown, suc m, left_out)
      ]
    ]

pub data RunError : Type 0 where
  broken : Fault → RunError
  not_migrated : MigrateError → RunError

-- `fetchBookmarksBatch`, for bookmarks that lie in the order of their ids.
unfoldable pub fetch_bookmarks_batch : List BookmarkRow → ℤ → ℕ → List BookmarkRow
fetch_bookmarks_batch rows last limit = take limit (keep (λ b. ltb_ℤ last b.id) rows)

-- `bookmarks[len(bookmarks)-1].id`
unfoldable pub last_id : ℤ → List BookmarkRow → ℤ
last_id d [] = d
last_id d (b ∷ bs) = last_id b.id bs

-- strings.ToLower, and the UUIDs that are made for a bookmark.
module _ (to_lower : Bytes → Bytes) (entry_uuid : ℤ → Bytes) where
  -- The loop over the bookmarks of a batch.
  unfoldable pub insert_bookmarks : List BookmarkRow → List EntryRow → Inserted
  insert_bookmarks [] entries = record {
    entries = entries;
    entry_ids = [];
    inserted = 0;
    skipped = 0;
  }
  insert_bookmarks (b ∷ bs) entries =
      let same = insert_bookmarks bs entries in
      elim (entry_of to_lower entry_uuid b) [
        | none ↦ record same { skipped = suc same.skipped }
        | some e ↦
            let grown = insert_bookmarks bs (entries ++ e ∷ []) in
            if has_entry entries e.url then same else record grown {
              entry_ids = (b.id, e.id) ∷ grown.entry_ids;
              inserted = suc grown.inserted;
            }
      ]

-- The same, and the UUIDs that are made for the names of tags.
module _ (to_lower : Bytes → Bytes) (entry_uuid : ℤ → Bytes) (tag_uuid : Bytes → Bytes) where
  -- The part of `migrateBatch` after the bookmarks.
  unfoldable pub migrate_keyphrases :
      Source → Target → Inserted → Result MigrateError (Target × Stats)
  migrate_keyphrases source target new =
      let ids = map (λ p. p.0) new.entry_ids in
      let phrases = keep (λ k. has_id ids k.bookmark_id) source.keyphrases in
      let (keywords, empty_keywords) =
        fetch_keywords (map (λ k. k.keyword_id) phrases) source.keywords in
      let before : Stats = record {
        inserted_bookmarks = new.inserted;
        skipped_bookmarks = new.skipped;
        inserted_keywords = 0;
        inserted_keyphrases = 0;
        skipped_keyphrases = 0;
        skipped_empty_keyword = 0;
      } in
      if is_empty ids || is_empty phrases
      then ok (record target { entries = new.entries }, before)
      else elim (ensure_tags to_lower tag_uuid keywords target.tags) [
        | err e ↦ err e
        | ok (tag_of, n, tags) ↦
            let (rows, linked, left_out) =
              link_keyphrases new.entry_ids tag_of phrases target.entry_tags in
            ok (
              record { entries = new.entries; tags = tags; entry_tags = rows },
              record before {
                inserted_keywords = n;
                inserted_keyphrases = linked;
                skipped_keyphrases = left_out;
                skipped_empty_keyword = empty_keywords;
              },
            )
      ]

  unfoldable pub migrate_batch :
      Source → Target → List BookmarkRow → Result MigrateError (Target × Stats)
  migrate_batch source target bookmarks =
      migrate_keyphrases source target
        (insert_bookmarks to_lower entry_uuid bookmarks target.entries)

  -- The loop of `migrateBatches` after an id; `failure` tells what goes wrong in the databases in the
  -- round after an id. `none` means that the fuel ran out.
  migrate_from : (ℤ → Option Fault) → Source → ℕ → ℤ → Target → Option (Target × Option RunError)
  migrate_from failure source zero last target = none
  migrate_from failure source (suc fuel) last target =
      let batch = fetch_bookmarks_batch source.bookmarks last batch_size in
      let next : Target → Option (Target × Option RunError) =
        λ t. migrate_from failure source fuel (last_id last batch) t in
      elim (failure last) [
        | some f ↦ some (target, some (broken f))
        | none ↦
            if is_empty batch
            then some (target, none)
            else elim (migrate_batch source target batch) [
              | err e ↦ some (target, some (not_migrated e))
              | ok (t, stats) ↦ next t
            ]
      ]

  -- A round moves at least one bookmark, so there are at most as many rounds as bookmarks, and the last.
  unfoldable pub migrate_batches :
      (ℤ → Option Fault) → Source → ℤ → Target → Option (Target × Option RunError)
  unfolding migrate_from
  migrate_batches failure source last target =
      migrate_from failure source (suc (length source.bookmarks)) last target
