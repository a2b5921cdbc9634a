-- ===== src/Handler/Tags.antt =====
-- internal/infra/handler/tag_handler.go: the tags, their entries, and the two rankings of tags.
-- `has_services` tells that the handler has its services; the counting of a view is a parameter, and
-- an error of it is logged only.
pub mod Views
pub mod Allowed
pub mod Examples
use hateblog_backend.Common.{
  ℕ, ◌-◌, ◌/◌, ap, Bool, not, Option, List, [], ◌∷◌, map, if◌then◌else◌, length, all, any, All, ℤ,
  pos, eqb_ℤ, Result, ok, err, ◌>>=◌, ◌>>◌, reject_if, Bytes, codes, is_empty, min,
}
use hateblog_backend.Domain.Tag.{Uuid, Tag}
use hateblog_backend.Domain.Entry.{Time}
use hateblog_backend.Domain.ListQuery.{SortType, sort_new}
use hateblog_backend.Usecase.Ports.{EntryRepository, Cache}
use hateblog_backend.Usecase.Entries.{
  ListResult, TagListParams, EntriesError, list_tag_entries_with_cache_status,
}
use hateblog_backend.Usecase.Tags.{
  TrendingTag, ClickedTag, TagRepository, TagsError, get_by_name, get_trending, get_clicked,
  list_with_cache_status,
}
use hateblog_backend.Handler.Params.{Query, ParamError, read_query_int, read_query_sort}
use hateblog_backend.Handler.Responses.{
  Response, payload, no_headers, set_cache_status_header, write_json, write_error,
}
use hateblog_backend.Handler.Entries.{EntryListResponse, build_entry_list_response}

pub data HandlerError : Type 0 where
  service_unavailable : HandlerError
  invalid_tag : HandlerError
  hours_not_allowed : HandlerError
  days_not_allowed : HandlerError
  param : ParamError → HandlerError
  tags : TagsError → HandlerError
  entries : EntriesError → HandlerError

pub record TagItemResponse : Type 0 where
  pub id : Uuid
  pub name : Bytes

pub record TagsResponse : Type 0 where
  pub tags : List TagItemResponse
  pub limit : ℤ
  pub offset : ℤ

-- The items are the tags of the use case, field by field.
pub record TrendingTagsResponse : Type 0 where
  pub tags : List TrendingTag
  pub hours : ℤ
  pub total : ℕ

pub record ClickedTagsResponse : Type 0 where
  pub tags : List ClickedTag
  pub days : ℤ
  pub total : ℕ

unfoldable pub or_param {ℓ} : {A : Type ℓ} → Result ParamError A → Result HandlerError A
or_param (ok a) = ok a
or_param (err e) = err (param e)

-- `offset` has a lower bound only.
unfoldable pub list_params : Query → Result ParamError (ℤ × ℤ)
list_params r = do
  limit ← read_query_int r (codes "limit") (pos 1) (pos 200) (pos 50)
  offset ← read_query_int r (codes "offset") (pos 0) (pos 0) (pos 0)
  ok (limit, offset)

unfoldable pub tag_params : Query → Result ParamError TagListParams
tag_params r = do
  limit ← read_query_int r (codes "limit") (pos 1) (pos 100) (pos 25)
  offset ← read_query_int r (codes "offset") (pos 0) (pos 0) (pos 0)
  min_users ← read_query_int r (codes "min_users") (pos 0) (pos 10_000) (pos 5)
  sort ← read_query_sort r (codes "sort") sort_new
  ok (record { min_bookmark_count = min_users; offset = offset; limit = limit; sort = sort })

abbrev pub allowed_hours : List ℤ
allowed_hours = pos 6 ∷ pos 12 ∷ pos 24 ∷ pos 48 ∷ []

abbrev pub allowed_days : List ℤ
allowed_days = pos 1 ∷ pos 7 ∷ pos 30 ∷ []

-- Hours, least number of users and limit.
unfoldable pub trending_params : Query → Result HandlerError (ℤ × ℤ × ℤ)
unfolding or_param
trending_params r = do
  hours ← or_param (read_query_int r (codes "hours") (pos 0) (pos 0) (pos 24))
  reject_if (not (any (eqb_ℤ hours) allowed_hours)) hours_not_allowed
  min_users ← or_param (read_query_int r (codes "min_users") (pos 0) (pos 10_000) (pos 5))
  limit ← or_param (read_query_int r (codes "limit") (pos 1) (pos 100) (pos 20))
  ok (hours, min_users, limit)

-- Days and limit.
unfoldable pub clicked_params : Query → Result HandlerError (ℤ × ℤ)
unfolding or_param
clicked_params r = do
  days ← or_param (read_query_int r (codes "days") (pos 0) (pos 0) (pos 7))
  reject_if (not (any (eqb_ℤ days) allowed_days)) days_not_allowed
  limit ← or_param (read_query_int r (codes "limit") (pos 1) (pos 100) (pos 20))
  ok (days, limit)

unfoldable pub write_tags :
    ℤ → ℤ → Result TagsError (List Tag × Bool) → Response HandlerError TagsResponse
unfolding write_error write_json set_cache_status_header
write_tags limit offset (err e) = write_error no_headers 500 (tags e)
write_tags limit offset (ok (found, hit)) =
    write_json (set_cache_status_header no_headers hit) 200 (
      payload (record {
        tags = map (λ t. record { id = t.id; name = t.name }) found;
        limit = limit;
        offset = offset;
      }))

module _ (tag_repo : TagRepository) (has_services : Bool) where
  unfoldable pub serve_list :
      (cache : Cache (ℤ × ℤ) (List Tag))
      → Bool
      → Result ParamError (ℤ × ℤ)
      → cache.Store
      → Response HandlerError TagsResponse × cache.Store
  unfolding write_tags
  serve_list cache enabled (err e) st = (write_error no_headers 400 (param e), st)
  serve_list cache enabled (ok (limit, offset)) st =
      let (result, st') = list_with_cache_status tag_repo cache enabled limit offset st in
      (write_tags limit offset result, st')

  unfoldable pub handle_list_tags :
      (cache : Cache (ℤ × ℤ) (List Tag))
      → Bool
      → Query
      → cache.Store
      → Response HandlerError TagsResponse × cache.Store
  unfolding serve_list
  handle_list_tags cache enabled r st =
      if not has_services
      then (write_error no_headers 500 service_unavailable, st)
      else serve_list cache enabled (list_params r) st

  unfoldable pub write_trending :
      ℤ → Result TagsError (List TrendingTag) → Response HandlerError TrendingTagsResponse
  unfolding write_error write_json
  write_trending hours (err e) = write_error no_headers 500 (tags e)
  write_trending hours (ok found) =
      write_json no_headers 200
        (payload (record { tags = found; hours = hours; total = length found }))

  unfoldable pub serve_trending :
      Result HandlerError (ℤ × ℤ × ℤ) → Response HandlerError TrendingTagsResponse
  unfolding write_trending
  serve_trending (err e) = write_error no_headers 400 e
  serve_trending (ok (hours, min_users, limit)) =
      write_trending hours (get_trending tag_repo hours min_users limit)

  unfoldable pub handle_trending_tags : Query → Response HandlerError TrendingTagsResponse
  unfolding serve_trending
  handle_trending_tags r =
      if not has_services
      then write_error no_headers 500 service_unavailable
      else serve_trending (trending_params r)

  unfoldable pub write_clicked :
      ℤ → Result TagsError (List ClickedTag) → Response HandlerError ClickedTagsResponse
  unfolding write_error write_json
  write_clicked days (err e) = write_error no_headers 500 (tags e)
  write_clicked days (ok found) =
      write_json no_headers 200
        (payload (record { tags = found; days = days; total = length found }))

  unfoldable pub serve_clicked :
      Result HandlerError (ℤ × ℤ) → Response HandlerError ClickedTagsResponse
  unfolding write_clicked
  serve_clicked (err e) = write_error no_headers 400 e
  serve_clicked (ok (days, limit)) = write_clicked days (get_clicked tag_repo days limit)

  unfoldable pub handle_clicked_tags : Query → Response HandlerError ClickedTagsResponse
  unfolding serve_clicked
  handle_clicked_tags r =
      if not has_services
      then write_error no_headers 500 service_unavailable
      else serve_clicked (clicked_params r)

-- `record_view` is RecordView on the store of the views.
module _ (parse_url : Bytes → Option (Bytes × Bytes)) (api_base_path : Bytes)
    (to_lower : Bytes → Bytes) (tag_repo : TagRepository) (has_services : Bool)
    (repo : EntryRepository) (cache : Cache (Bytes × SortType × ℤ) ListResult) (enabled : Bool)
    {V : Type 0} (record_view : V → Uuid → Time → V) where
  abbrev pub Out : Type 0
  Out = Response HandlerError EntryListResponse × (cache.Store × V)

  -- The end of the handler, which counts the view of the tag.
  unfoldable pub write_tag_entries :
      Tag → TagListParams → Time → V → Result EntriesError (ListResult × Bool) × cache.Store → Out
  unfolding write_error write_json set_cache_status_header build_entry_list_response
  write_tag_entries tag p now views (err e, st) =
      (write_error no_headers 500 (entries e), (st, views))
  write_tag_entries tag p now views (ok (result, hit), st) = (
    write_json (set_cache_status_header no_headers hit) 200
        (payload (build_entry_list_response parse_url api_base_path result p.limit p.offset)),
    (st, record_view views tag.id now),
  )

  unfoldable pub serve_tag_entries :
      Tag → Result ParamError TagListParams → Time → cache.Store → V → Out
  unfolding write_tag_entries
  serve_tag_entries tag (err e) now st views = (write_error no_headers 400 (param e), (st, views))
  serve_tag_entries tag (ok p) now st views =
      write_tag_entries tag p now views
        (list_tag_entries_with_cache_status repo cache enabled tag.name p st)

  unfoldable pub for_tag : Result TagsError Tag → Query → Time → cache.Store → V → Out
  unfolding serve_tag_entries
  for_tag (err e) r now st views = (write_error no_headers 404 (tags e), (st, views))
  for_tag (ok tag) r now st views = serve_tag_entries tag (tag_params r) now st views

  -- `raw_tag` is chi.URLParam(r, "tag").
  unfoldable pub handle_tag_entries : Bytes → Query → Time → cache.Store → V → Out
  unfolding for_tag
  handle_tag_entries raw_tag r now st views =
      if not has_services
      then (write_error no_headers 500 service_unavailable, (st, views))
      else if is_empty raw_tag
      then (write_error no_headers 400 invalid_tag, (st, views))
      else for_tag (get_by_name tag_repo to_lower raw_tag) r now st views
