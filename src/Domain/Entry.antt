-- ===== src/Domain/Entry.antt =====
-- internal/domain/entry/entry.go: entries, their validation and their search text. ListQuery, of
-- the same file, is the module beside this one.
pub mod Validation
pub mod Examples
use hateblog_backend.Common.{
  ◌>>◌, ◌>>=◌, ℕ, zero, suc, ◌+◌, ◌-◌, ◌/◌, ap, Bool, not, ◌||◌, List, [], ◌∷◌, ◌++◌, ltb, ◌==◌,
  if◌then◌else◌, ℤ, pos, ltb_ℤ, Result, ok, reject_if, Bytes, is_empty, trim_space,
}
use hateblog_backend.Domain.Tag.{Uuid, normalize_name}

-- An instant, in nanoseconds since the zero time.Time; `IsZero` is a test for 0. Instants before
-- year 1 are left out, and a location changes no instant.
abbrev pub Time : Type 0
Time = ℕ

pub record Tagging : Type 0 where
  pub tag_id : Uuid
  pub name : Bytes
  pub score : ℤ

pub record Entry : Type 0 where
  pub id : Uuid
  pub url : Bytes
  pub title : Bytes
  pub excerpt : Bytes
  pub subject : Bytes
  pub bookmark_count : ℤ
  pub posted_at : Time
  pub tags : List Tagging
  pub created_at : Time
  pub updated_at : Time

pub record Params : Type 0 where
  pub id : Uuid
  pub url : Bytes
  pub title : Bytes
  pub excerpt : Bytes
  pub subject : Bytes
  pub bookmark_count : ℤ
  pub posted_at : Time
  pub tags : List Tagging
  pub created_at : Time
  pub updated_at : Time

-- The messages behind ErrInvalidEntry.
pub data EntryError : Type 0 where
  url_required : EntryError
  invalid_url : EntryError
  title_required : EntryError
  negative_bookmark_count : EntryError
  posted_at_required : EntryError
  tag_id_required : EntryError
  tag_name_required : EntryError
  tag_score_range : EntryError

-- One round of the loop of `validateTaggings`.
validate_tagging : Tagging → Result EntryError (Unit {0})
validate_tagging t = do
  reject_if (t.tag_id == 0) tag_id_required
  reject_if (is_empty (trim_space t.name)) tag_name_required
  reject_if (ltb_ℤ t.score (pos 0) || ltb_ℤ (pos 100) t.score) tag_score_range

validate_taggings : List Tagging → Result EntryError (Unit {0})
unfolding validate_tagging
validate_taggings [] = ok tt
validate_taggings (t ∷ ts) = do validate_tagging t; validate_taggings ts

-- `is_request_uri` tells whether url.ParseRequestURI accepts a text, `to_lower` is strings.ToLower.
module _ (is_request_uri : Bytes → Bool) where
  validate_params : Params → Result EntryError (Unit {0})
  unfolding validate_taggings
  validate_params p = do
    reject_if (is_empty p.url) url_required
    reject_if (not (is_request_uri p.url)) invalid_url
    reject_if (is_empty (trim_space p.title)) title_required
    reject_if (ltb_ℤ p.bookmark_count (pos 0)) negative_bookmark_count
    reject_if (p.posted_at == 0) posted_at_required
    validate_taggings p.tags

normalize_taggings : (Bytes → Bytes) → List Tagging → List Tagging
normalize_taggings to_lower [] = []
normalize_taggings to_lower (t ∷ ts) =
    record { tag_id = t.tag_id; name = normalize_name to_lower t.name; score = t.score }
    ∷ normalize_taggings to_lower ts

module _ (is_request_uri : Bytes → Bool) (to_lower : Bytes → Bytes) where
  unfoldable pub new : Params → Result EntryError Entry
  unfolding validate_params normalize_taggings
  new p = do
    validate_params is_request_uri p
    ok (record {
      id = p.id;
      url = p.url;
      title = trim_space p.title;
      excerpt = trim_space p.excerpt;
      subject = trim_space p.subject;
      bookmark_count = p.bookmark_count;
      posted_at = p.posted_at;
      tags = normalize_taggings to_lower p.tags;
      created_at = p.created_at;
      updated_at = p.updated_at;
    })

  -- The entry after a successful `Update`; one that fails leaves the entry alone.
  unfoldable pub update : Entry → Params → Result EntryError Entry
  unfolding validate_params normalize_taggings
  update e p = do
    validate_params is_request_uri p
    ok (record e {
      url = p.url;
      title = trim_space p.title;
      excerpt = trim_space p.excerpt;
      subject = trim_space p.subject;
      bookmark_count = p.bookmark_count;
      posted_at = p.posted_at;
      tags = normalize_taggings to_lower p.tags;
      updated_at = p.updated_at;
    })

-- `if trimmed := strings.TrimSpace(s); trimmed != "" { parts = append(…) }`
search_part : (Bytes → Bytes) → Bytes → List Bytes
search_part to_lower s =
    let trimmed = trim_space s in if is_empty trimmed then [] else to_lower trimmed ∷ []

-- strings.Join(parts, " ")
join_blank : List Bytes → Bytes
join_blank [] = []
join_blank (p ∷ []) = p
join_blank (p ∷ q ∷ ps) = p ++ (32 ∷ join_blank (q ∷ ps))

unfoldable pub build_search_text : (Bytes → Bytes) → Bytes → Bytes → Bytes → Bytes
unfolding search_part join_blank
build_search_text to_lower title excerpt url =
    join_blank
      (search_part to_lower title ++ (search_part to_lower excerpt ++ search_part to_lower url))
