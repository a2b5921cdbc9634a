-- ===== src/Usecase/Tags.antt =====
-- internal/usecase/tag/service.go: tags by name, the cached list, and the two rankings of tags.
-- RecordView hands its arguments to the repository and is left out; a nil cache is `enabled` false.
pub mod Listing
pub mod Examples
use hateblog_backend.Common.{
  suc, ◌-◌, ◌/◌, ◌<◌, Bool, true, false, not, Option, none, some, List, ltb, leb, if◌then◌else◌, ℤ,
  pos, ltb_ℤ, leb_ℤ, Result, ok, err, Bytes, is_empty,
}
use hateblog_backend.Domain.Tag.{Uuid, Tag, normalize_name}
use hateblog_backend.Usecase.Ports.{Fault, Cache}

pub record TrendingTag : Type 0 where
  pub id : Uuid
  pub name : Bytes
  pub occurrence_count : ℤ
  pub entry_count : ℤ

pub record ClickedTag : Type 0 where
  pub id : Uuid
  pub name : Bytes
  pub click_count : ℤ
  pub entry_count : ℤ

-- The repository over one state of the database.
pub record TagRepository : Type 0 where
  pub get_by_name : Bytes → Result Fault Tag
  pub list : ℤ → ℤ → Result Fault (List Tag)
  pub get_trending : ℤ → ℤ → ℤ → Result Fault (List TrendingTag)
  pub get_clicked : ℤ → ℤ → Result Fault (List ClickedTag)

pub data TagsError : Type 0 where
  tag_required : TagsError
  infra : Fault → TagsError

unfoldable pub or_infra {ℓ} : {A : Type ℓ} → Result Fault A → Result TagsError A
or_infra (ok a) = ok a
or_infra (err f) = err (infra f)

-- `if n <= 0 { n = otherwise }`
abbrev pub positive_or : ℤ → ℤ → ℤ
positive_or n otherwise = if leb_ℤ n (pos 0) then otherwise else n

-- `if n < 0 { n = otherwise }`
abbrev pub not_negative_or : ℤ → ℤ → ℤ
not_negative_or n otherwise = if ltb_ℤ n (pos 0) then otherwise else n

-- The limit and the offset of a list, with their defaults.
abbrev pub page_key : ℤ → ℤ → ℤ × ℤ
page_key limit offset = (positive_or limit (pos 50), not_negative_or offset (pos 0))

module _ (repo : TagRepository) where
  unfoldable pub get_by_name : (Bytes → Bytes) → Bytes → Result TagsError Tag
  get_by_name to_lower name =
      let norm = normalize_name to_lower name in
      if is_empty norm then err tag_required else or_infra (repo.get_by_name norm)

  unfoldable pub get_trending : ℤ → ℤ → ℤ → Result TagsError (List TrendingTag)
  get_trending hours min_bookmark_count limit = or_infra (
      repo.get_trending (positive_or hours (pos 24)) (not_negative_or min_bookmark_count (pos 5))
        (positive_or limit (pos 20)))

  unfoldable pub get_clicked : ℤ → ℤ → Result TagsError (List ClickedTag)
  get_clicked days limit =
      or_infra (repo.get_clicked (positive_or days (pos 7)) (positive_or limit (pos 20)))

module _ (repo : TagRepository) (cache : Cache (ℤ × ℤ) (List Tag)) (enabled : Bool) where
  -- An error of Set gives the same answer as its success.
  store_tags :
      ℤ × ℤ
      → Result TagsError (List Tag)
      → cache.Store
      → Result TagsError (List Tag × Bool) × cache.Store
  store_tags key (err e) st = (err e, st)
  store_tags key (ok tags) st =
      (ok (tags, false), if enabled then (cache.set st key tags).0 else st)

  answer_tags :
      Result Fault (Option (List Tag))
      → ℤ × ℤ
      → cache.Store
      → Result TagsError (List Tag × Bool) × cache.Store
  unfolding store_tags
  answer_tags (err f) key st = (err (infra f), st)
  answer_tags (ok (some cached)) key st = (ok (cached, true), st)
  answer_tags (ok none) key st = store_tags key (or_infra (repo.list key.0 key.1)) st

  unfoldable pub list_with_cache_status :
      ℤ → ℤ → cache.Store → Result TagsError (List Tag × Bool) × cache.Store
  unfolding answer_tags
  list_with_cache_status limit offset st =
      let key = page_key limit offset in
      answer_tags (if enabled then cache.get st key else ok none) key st
