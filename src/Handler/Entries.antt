-- ===== src/Handler/Entries.antt =====
-- internal/infra/handler/entry_handler.go: the new and the hot entries of a day. A panic of the
-- service, which accepted parameters never cause, stands with its errors.
pub mod Served
pub mod Examples
use hateblog_backend.Common.{◌-◌, ◌/◌, ap, Bool, Option, List, map, ℤ, pos, Result, ok, err, Bytes}
use hateblog_backend.Domain.Entry.{Entry}
use hateblog_backend.Domain.ListQuery.{SortType, sort_new, sort_hot}
use hateblog_backend.Pkg.Apptime.{Calendar}
use hateblog_backend.Usecase.Ports.{EntryRepository, Cache}
use hateblog_backend.Usecase.Entries.{
  ListResult, DayListParams, EntriesError, list_day_entries_with_cache_status,
}
use hateblog_backend.Handler.Params.{Query, ParamError, build_day_list_params}
use hateblog_backend.Handler.Responses.{
  Response, payload, EntryResponse, no_headers, set_cache_status_header, write_json, write_error,
  to_entry_response,
}

pub record EntryListResponse : Type 0 where
  pub entries : List EntryResponse
  pub total : ℤ
  pub limit : ℤ
  pub offset : ℤ

pub data HandlerError : Type 0 where
  param : ParamError → HandlerError
  service : EntriesError → HandlerError

abbrev pub EntriesResponse : Type 0
EntriesResponse = Response HandlerError EntryListResponse

module _ (parse_url : Bytes → Option (Bytes × Bytes)) (api_base_path : Bytes) where
  unfoldable pub build_entry_list_response : ListResult → ℤ → ℤ → EntryListResponse
  build_entry_list_response result limit offset = record {
    entries = map (to_entry_response parse_url api_base_path) result.entries;
    total = result.total;
    limit = limit;
    offset = offset;
  }

  -- The end of both handlers.
  unfoldable pub write_page :
      DayListParams → Result EntriesError (ListResult × Bool) → EntriesResponse
  unfolding build_entry_list_response write_json write_error set_cache_status_header
  write_page p (err e) = write_error no_headers 500 (service e)
  write_page p (ok (result, hit)) =
      write_json (set_cache_status_header no_headers hit) 200
        (payload (build_entry_list_response result p.limit p.offset))

  module _ (parses_date : Bytes → Bool) (calendar : Calendar) (repo : EntryRepository)
      (sort_slice : List Entry → List Entry) (cache : Cache Bytes (List Entry))
      (enabled : Bool) where
    unfoldable pub handle_params :
        Result ParamError DayListParams → SortType → cache.Store → EntriesResponse × cache.Store
    unfolding write_page
    handle_params (err e) sort st = (write_error no_headers 400 (param e), st)
    handle_params (ok p) sort st =
        let (result, st') =
          list_day_entries_with_cache_status calendar repo sort_slice cache enabled sort p st in
        (write_page p result, st')

    unfoldable pub handle_new_entries : Query → cache.Store → EntriesResponse × cache.Store
    unfolding handle_params
    handle_new_entries r st = handle_params (build_day_list_params parses_date r) sort_new st

    unfoldable pub handle_hot_entries : Query → cache.Store → EntriesResponse × cache.Store
    unfolding handle_params
    handle_hot_entries r st = handle_params (build_day_list_params parses_date r) sort_hot st
