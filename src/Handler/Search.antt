-- ===== src/Handler/Search.antt =====
-- internal/infra/handler/search_handler.go: the search, whose service trims and bounds its
-- parameters once more.
pub mod Found
use hateblog_backend.Common.{
  suc, ◌-◌, ◌/◌, ap, Bool, not, Option, List, map, if◌then◌else◌, ℤ, pos, negsuc, Result, ok, err,
  ◌>>=◌, ◌>>◌, Bytes, codes, is_empty, trim_space, min,
}
use hateblog_backend.Domain.ListQuery.{sort_hot}
use hateblog_backend.Usecase.Ports.{EntryRepository, Cache}
use hateblog_backend.Usecase.Search.{
  SearchRepository, SearchParams, SearchResult, SearchError, SearchKey, State,
  search_with_cache_status,
}
use hateblog_backend.Handler.Params.{Query, ParamError, read_query_int, read_query_sort}
use hateblog_backend.Handler.Responses.{
  Response, payload, EntryResponse, no_headers, set_cache_status_header, write_json, write_error,
  to_entry_response,
}

pub record SearchResponse : Type 0 where
  pub query : Bytes
  pub entries : List EntryResponse
  pub total : ℤ
  pub limit : ℤ
  pub offset : ℤ

pub data HandlerError : Type 0 where
  service_unavailable : HandlerError
  q_required : HandlerError
  param : ParamError → HandlerError
  service : SearchError → HandlerError

unfoldable pub read_search : Query → Result ParamError SearchParams
read_search r = do
  limit ← read_query_int r (codes "limit") (pos 1) (pos 100) (pos 25)
  offset ← read_query_int r (codes "offset") (pos 0) (negsuc 0) (pos 0)
  min_users ← read_query_int r (codes "min_users") (pos 0) (pos 10_000) (pos 5)
  sort ← read_query_sort r (codes "sort") sort_hot
  ok (record { min_bookmark_count = min_users; limit = limit; offset = offset; sort = sort })

-- The trimmed query and the parameters.
unfoldable pub search_params : Query → Result HandlerError (Bytes × SearchParams)
search_params r =
    let q = trim_space (r (codes "q")) in
    if is_empty q
    then err q_required
    else elim (read_search r) [ err e ↦ err (param e) | ok p ↦ ok (q, p) ]

module _ (parse_url : Bytes → Option (Bytes × Bytes)) (api_base_path : Bytes) where
  unfoldable pub build_search_response : SearchResult → SearchResponse
  build_search_response result = record {
    query = result.query;
    entries = map (to_entry_response parse_url api_base_path) result.entries;
    total = result.total;
    limit = result.limit;
    offset = result.offset;
  }

  unfoldable pub write_search :
      Result SearchError (SearchResult × Bool) → Response HandlerError SearchResponse
  unfolding build_search_response write_json write_error set_cache_status_header
  write_search (err e) = write_error no_headers 400 (service e)
  write_search (ok (result, hit)) =
      write_json (set_cache_status_header no_headers hit) 200
        (payload (build_search_response result))

  module _ (has_service : Bool) (repo : SearchRepository) (cache : Cache SearchKey SearchResult)
      (enabled has_history : Bool) where
    abbrev pub SearchState : Type 0
    SearchState = State repo cache enabled has_history

    unfoldable pub serve_search :
        Result HandlerError (Bytes × SearchParams)
        → SearchState
        → Response HandlerError SearchResponse × SearchState
    unfolding write_search
    serve_search (err e) st = (write_error no_headers 400 e, st)
    serve_search (ok (q, p)) st =
        let (result, st') = search_with_cache_status repo cache enabled has_history q p st in
        (write_search result, st')

    unfoldable pub handle_search :
        Query → SearchState → Response HandlerError SearchResponse × SearchState
    unfolding serve_search
    handle_search r st =
        if not has_service
        then (write_error no_headers 500 service_unavailable, st)
        else serve_search (search_params r) st
