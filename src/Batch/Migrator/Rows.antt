-- ===== src/Batch/Migrator/Rows.antt =====
-- cmd/migrator/main.go: the rows of both databases, and the values that a bookmark's columns become.
use hateblog_backend.Common.{
  ℕ, Bool, ◌&&◌, Option, none, some, List, [], ◌∷◌, ◌++◌, if◌then◌else◌, any, ℤ, pos, ltb_ℤ, eqb_ℤ,
  Bytes, codes, bytes_eq, is_empty, trim_space,
}
use hateblog_backend.Domain.Entry.{build_search_text}
use hateblog_backend.Batch.Migrator.Tags.{TagTable}

-- `bookmarkRow`; a column that may be NULL is an option.
pub record BookmarkRow : Type 0 where
  pub id : ℤ
  pub title : Option Bytes
  pub link : Option Bytes
  pub sslp : ℤ
  pub description : Option Bytes
  pub subject : Option Bytes
  pub cnt : ℤ
  pub ientried : ℤ
  pub icreated : ℤ
  pub imodified : ℤ

-- `keyphraseRow`
pub record KeyphraseRow : Type 0 where
  pub bookmark_id : ℤ
  pub keyword_id : ℤ
  pub score : Option ℤ

-- The old database: bookmarks in the order of their ids, keyphrases, and the keyword of an id.
pub record Source : Type 0 where
  pub bookmarks : List BookmarkRow
  pub keyphrases : List KeyphraseRow
  pub keywords : List (ℤ × Bytes)

-- What `unixToTimestamp` gives: that second, or the clock's reading.
pub data Moment : Type 0 where
  at : ℤ → Moment
  clock : Moment

unfoldable pub unix_to_timestamp : ℤ → Moment
unix_to_timestamp t = if eqb_ℤ t (pos 0) then clock else Moment.at t

-- A row of `entries`.
pub record EntryRow : Type 0 where
  pub id : Bytes
  pub title : Bytes
  pub url : Bytes
  pub posted_at : Moment
  pub bookmark_count : ℤ
  pub excerpt : Option Bytes
  pub subject : Option Bytes
  pub search_text : Option Bytes
  pub created_at : Moment
  pub updated_at : Moment

-- A row of `entry_tags`.
pub record EntryTag : Type 0 where
  pub entry_id : Bytes
  pub tag_id : Bytes
  pub score : ℤ

pub record Target : Type 0 where
  pub entries : List EntryRow
  pub tags : TagTable
  pub entry_tags : List EntryTag

-- `batchStats`, without the number of bookmarks that were processed.
pub record Stats : Type 0 where
  pub inserted_bookmarks : ℕ
  pub skipped_bookmarks : ℕ
  pub inserted_keywords : ℕ
  pub inserted_keyphrases : ℕ
  pub skipped_keyphrases : ℕ
  pub skipped_empty_keyword : ℕ

unfoldable pub nullable_text : Bytes → Option Bytes
nullable_text s = if is_empty (trim_space s) then none else some s

-- `!bm.title.Valid || bm.title.String == ""`
abbrev pub required : Option Bytes → Option Bytes
required none = none
required (some s) = if is_empty s then none else some s

abbrev pub text_or_empty : Option Bytes → Bytes
text_or_empty none = []
text_or_empty (some s) = s

unfoldable pub url_of : ℤ → Bytes → Bytes
url_of sslp link =
    (if eqb_ℤ sslp (pos 1) then codes "https" else codes "http") ++ codes "://" ++ link

-- `ON CONFLICT (url) DO NOTHING`
abbrev pub has_entry : List EntryRow → Bytes → Bool
has_entry entries u = any (λ e. bytes_eq e.url u) entries

-- The score is cut to the numbers from 0 to 100.
unfoldable pub clamp_score : Option ℤ → ℤ
clamp_score none = pos 0
clamp_score (some raw) =
    if ltb_ℤ (pos 100) raw then pos 100 else if ltb_ℤ raw (pos 0) then pos 0 else raw

abbrev pub find_id {ℓ} : {V : Type ℓ} → List (ℤ × V) → ℤ → Option V
find_id [] k = none
find_id ((j, v) ∷ m) k = if eqb_ℤ j k then some v else find_id m k

-- `WHERE … IN (…)`
abbrev pub has_id : List ℤ → ℤ → Bool
has_id ids k = any (λ j. eqb_ℤ j k) ids

-- What `ON CONFLICT (entry_id, tag_id) DO NOTHING` looks for.
abbrev pub has_entry_tag : List EntryTag → Bytes → Bytes → Bool
has_entry_tag rows e t = any (λ r. bytes_eq r.entry_id e && bytes_eq r.tag_id t) rows

-- strings.ToLower, and the UUIDs that are made.
module _ (to_lower : Bytes → Bytes) (entry_uuid : ℤ → Bytes) where
  unfoldable pub entry_with : BookmarkRow → Bytes → Bytes → EntryRow
  entry_with b title link =
      let url = url_of b.sslp link in
      record {
        id = entry_uuid b.id;
        title = title;
        url = url;
        posted_at = unix_to_timestamp b.ientried;
        bookmark_count = b.cnt;
        excerpt = b.description;
        subject = b.subject;
        search_text =
            nullable_text (build_search_text to_lower title (text_or_empty b.description) url);
        created_at = unix_to_timestamp b.icreated;
        updated_at = unix_to_timestamp b.imodified;
      }

  -- The row that a bookmark gives, if it has a title and a link.
  unfoldable pub entry_of : BookmarkRow → Option EntryRow
  entry_of b = elim (required b.title) [
    | none ↦ none
    | some title ↦ elim (required b.link) [
      | none ↦ none
      | some link ↦ some (entry_with b title link)
    ]
  ]
