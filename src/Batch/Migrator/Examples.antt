-- ===== src/Batch/Migrator/Examples.antt =====
-- Examples of a migration.
use hateblog_backend.Common.{
  ℕ, ◌*◌, ◌≡◌, refl, ◌⊎◌, ◌||◌, Option, none, some, List, [], ◌∷◌, map, if◌then◌else◌, take, ℤ, pos,
  negsuc, pos_part, eqb_ℤ, ok, Bytes, codes,
}
use hateblog_backend.Usecase.Ports.{Fault, fault}
use hateblog_backend.Batch.Migrator.Rows.{BookmarkRow, Source, Target, clamp_score}
use hateblog_backend.Batch.Migrator.Tags.{rune_width, TagTable, has_tag, ensure_tags, sanitize_utf8}
use hateblog_backend.Batch.Migrator.Tags.Found.{is_named, AreLinked, ensure_tags_found}
use hateblog_backend.Batch.Migrator.{batch_size, last_id, RunError, broken, migrate_batches}
use hateblog_backend.Batch.Migrator.Order.{after, Ascending}
use hateblog_backend.Batch.Migrator.Complete.{insert_all, migrate_batches-IsEnd}

abbrev same : Bytes → Bytes
same s = s

abbrev uuid : ℤ → Bytes
uuid i = pos_part i ∷ []

abbrev bookmark : ℕ → Option Bytes → Bytes → BookmarkRow
bookmark i title link = record {
  id = pos i;
  title = title;
  link = some link;
  sslp = pos 1;
  description = none;
  subject = none;
  cnt = pos 5;
  ientried = pos 0;
  icreated = pos 100;
  imodified = pos 100;
}

-- The second has no title, the third the first one's URL.
abbrev source : Source
source = record {
  bookmarks =
      bookmark 3 (some (codes "t")) (codes "a.jp")
      ∷ bookmark 4 none (codes "b.jp")
      ∷ bookmark 7 (some (codes "u")) (codes "a.jp")
      ∷ [];
  keyphrases = record { bookmark_id = pos 3; keyword_id = pos 1; score = some (pos 140) } ∷ [];
  keywords = (pos 1, codes "go") ∷ [];
}

abbrev target : Target
target = record { entries = []; tags = []; entry_tags = [] }

-- The round after id 7 fails.
abbrev failure : ℤ → Option Fault
failure last = if eqb_ℤ last (pos 7) then some (fault 1) else none

source-Ascending : Ascending source.bookmarks
source-Ascending = (refl, (refl, (refl, tt)))

migrate_batches-IsEnd_example :
    (t : Target) × (e : Option RunError) × (migrate_batches same uuid same failure source
        (pos 3)
        target
      ≡ some (t, e))
    × (((e ≡ none)
          × ((k : ℕ)
              → failure (last_id (pos 3) (take (k * batch_size) (after (pos 3) source.bookmarks)))
                ≡ none)
          × (t.entries ≡ insert_all same uuid (after (pos 3) source.bookmarks) target.entries))
        ⊎ ((f : Fault) × (k : ℕ) × (e ≡ some (broken f))
            × (failure (last_id (pos 3) (take (k * batch_size) (after (pos 3) source.bookmarks)))
                ≡ some f)
            × (t.entries
                ≡ insert_all same uuid
                    (take (k * batch_size) (after (pos 3) source.bookmarks))
                    target.entries)))
migrate_batches-IsEnd_example =
    migrate_batches-IsEnd same uuid same failure source source-Ascending (pos 3) target

abbrev keywords : List (ℤ × Bytes)
keywords = (pos 1, codes "go") ∷ (pos 2, codes " ") ∷ (pos 3, codes "go ") ∷ []

abbrev old_tags : TagTable
old_tags = record { id = 9 ∷ []; name = codes "go" } ∷ []

ensure_tags_found_example :
    (linked : List (ℤ × Bytes)) × (n : ℕ) × (grown : TagTable) × (ensure_tags same same keywords
        old_tags
      ≡ ok (linked, n, grown))
    × AreLinked same grown keywords linked
    × ((v : Bytes) → has_tag grown v ≡ (has_tag old_tags v || is_named same v keywords))
ensure_tags_found_example = ensure_tags_found same same keywords old_tags

-- A byte that is no UTF-8, and one of a rune that is cut, are left out.
sanitized_test :
    sanitize_utf8 (97 ∷ 255 ∷ 227 ∷ 129 ∷ 130 ∷ 227 ∷ 129 ∷ []) ≡ 97 ∷ 227 ∷ 129 ∷ 130 ∷ []
unfolding sanitize_utf8 rune_width
sanitized_test = refl

clamped_test :
    map clamp_score (some (pos 140) ∷ some (negsuc 2) ∷ none ∷ []) ≡ pos 100 ∷ pos 0 ∷ pos 0 ∷ []
unfolding clamp_score
clamped_test = refl
