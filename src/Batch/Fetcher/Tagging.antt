-- ===== src/Batch/Fetcher/Tagging.antt =====
-- `attachTags` of cmd/fetcher/main.go: the phrases that Yahoo extracts from an entry become its tags.
-- Its sanitizeUTF8 is the migrator's.
pub mod Scores
use hateblog_backend.Common.{
  ℕ, suc, ◌+◌, ◌-◌, ◌/◌, Bool, not, ◌||◌, Option, none, some, List, [], ◌∷◌, ◌++◌, ltb, ◌==◌,
  if◌then◌else◌, all, any, ℤ, pos, ltb_ℤ, Result, ok, err, Bytes, codes, is_empty,
}
use hateblog_backend.Usecase.Ports.{Fault}
use hateblog_backend.Domain.Tag.{Uuid, normalize_name}
use hateblog_backend.Batch.Migrator.Tags.{sanitize_utf8}

pub record Phrase : Type 0 where
  pub text : Bytes
  pub score : ℤ

-- A row of `entry_tags` for the entry.
pub record EntryTag : Type 0 where
  pub tag_id : Uuid
  pub score : ℤ

-- What a call has done when it returns.
pub record Attached : Type 0 where
  pub rows : List EntryTag
  pub added : ℕ
  pub abnormal : ℕ
  pub failed : Option Fault

unfoldable pub dummy_tag_name : Bytes
dummy_tag_name = codes "__yahoo_no_keyphrase__"

abbrev pub dummy_tag_score : ℤ
dummy_tag_score = pos 1

unfoldable pub is_abnormal : ℤ → Bool
is_abnormal score = ltb_ℤ score (pos 0) || ltb_ℤ (pos 100) score

unfoldable pub clamp : ℤ → ℤ
clamp score =
    let low = if ltb_ℤ score (pos 0) then pos 0 else score in
    if ltb_ℤ (pos 100) low then pos 100 else low

-- `ON CONFLICT (entry_id, tag_id) DO NOTHING`
unfoldable pub insert_tag : Uuid → ℤ → List EntryTag → List EntryTag
insert_tag id score rows =
    if any (λ r. r.tag_id == id) rows
    then rows
    else rows ++ record { tag_id = id; score = score } ∷ []

-- The identifier that Upsert of the tag repository leaves in a tag of this name, and the failures of
-- the INSERT for a tag.
module _ (to_lower : Bytes → Bytes) (upsert : Bytes → Result Fault Uuid)
    (failure : Uuid → Option Fault) where
  unfoldable pub attach_dummy_tag : List EntryTag → Result Fault (List EntryTag)
  attach_dummy_tag rows = elim (upsert dummy_tag_name) [
    | err f ↦ err f
    | ok id ↦ elim (failure id) [ some f ↦ err f | none ↦ ok (insert_tag id dummy_tag_score rows) ]
  ]

  -- The loop over the phrases.
  unfoldable pub attach_phrases : List Phrase → List EntryTag → ℕ → ℕ → Attached
  attach_phrases [] rows added abnormal = record {
    rows = rows;
    added = added;
    abnormal = abnormal;
    failed = none;
  }
  attach_phrases (p ∷ ps) rows added abnormal =
      let name = normalize_name to_lower (sanitize_utf8 p.text) in
      let skipped = attach_phrases ps rows added abnormal in
      let counted = if is_abnormal p.score then suc abnormal else abnormal in
      let next : Uuid → Attached =
        λ id. attach_phrases ps (insert_tag id (clamp p.score) rows) (suc added) counted in
      if is_empty name then skipped else elim (upsert name) [
        | err f ↦ record { rows = rows; added = added; abnormal = abnormal; failed = some f }
        | ok id ↦ elim (failure id) [
          | some f ↦ record { rows = rows; added = added; abnormal = counted; failed = some f }
          | none ↦ next id
        ]
      ]

  -- An entry without a tag gets the dummy, so that it is not asked for again.
  unfoldable pub or_dummy : Attached → Attached
  or_dummy a = elim (attach_dummy_tag a.rows) [
    | err f ↦ record a { added = 0; failed = some f }
    | ok rows ↦ record a { rows = rows; added = 1 }
  ]

  -- `phrases` are sorted by falling score (sort.Slice).
  unfoldable pub attach_tags : Result Fault (List Phrase) → List EntryTag → Attached
  attach_tags phrases rows = elim phrases [
    | err f ↦ record { rows = rows; added = 0; abnormal = 0; failed = some f }
    | ok ps ↦
        let a = attach_phrases ps rows 0 0 in
        elim a.failed [ some f ↦ a | none ↦ if a.added == 0 then or_dummy a else a ]
  ]
