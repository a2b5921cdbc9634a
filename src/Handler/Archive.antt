-- ===== src/Handler/Archive.antt =====
-- internal/infra/handler/archive_handler.go: the number of entries by day. `format_date` is Format of
-- the package time.
use hateblog_backend.Common.{
  Bool, not, Option, List, map, if◌then◌else◌, ℤ, pos, Result, ok, err, Bytes, codes,
}
use hateblog_backend.Usecase.Ports.{Fault, Cache}
use hateblog_backend.Usecase.Archive.{
  Date, ArchiveCount, ArchiveError, is_allowed_min_users, Stores, list_with_cache_status,
}
use hateblog_backend.Handler.Params.{Query, ParamError, read_query_int}
use hateblog_backend.Handler.Responses.{
  Response, payload, no_headers, set_cache_status_header, write_json, write_error,
}

pub record ArchiveItemResponse : Type 0 where
  pub date : Bytes
  pub count : ℤ

pub data HandlerError : Type 0 where
  param : ParamError → HandlerError
  not_allowed : HandlerError
  service : ArchiveError → HandlerError

unfoldable pub archive_params : Query → Result HandlerError ℤ
archive_params r = elim (read_query_int r (codes "min_users") (pos 0) (pos 10_000) (pos 5)) [
  | err e ↦ err (param e)
  | ok m ↦ if not (is_allowed_min_users m) then err not_allowed else ok m
]

abbrev pub ArchiveAnswer : Type 0
ArchiveAnswer = Response HandlerError (List ArchiveItemResponse)

module _ (format_date : Date → Bytes) where
  unfoldable pub write_archive : Result ArchiveError (List ArchiveCount × Bool) → ArchiveAnswer
  unfolding write_json write_error set_cache_status_header
  write_archive (err e) = write_error no_headers 500 (service e)
  write_archive (ok (items, hit)) =
      write_json (set_cache_status_header no_headers hit) 200
        (payload (map (λ c. record { date = format_date c.date; count = c.count }) items))

  module _ (repo : ℤ → Result Fault (List ArchiveCount))
      (today_cache : Cache ℤ (Option ArchiveCount)) (past_cache : Cache ℤ (List ArchiveCount))
      (enabled : Bool) where
    unfoldable pub serve_archive :
        Result HandlerError ℤ
        → Date
        → Stores repo today_cache past_cache
        → ArchiveAnswer × Stores repo today_cache past_cache
    unfolding write_archive
    serve_archive (err e) today st = (write_error no_headers 400 e, st)
    serve_archive (ok m) today st =
        let (result, st') = list_with_cache_status repo today_cache past_cache enabled today m st in
        (write_archive result, st')

    unfoldable pub handle_archive :
        Query
        → Date
        → Stores repo today_cache past_cache
        → ArchiveAnswer × Stores repo today_cache past_cache
    unfolding serve_archive
    handle_archive r today st = serve_archive (archive_params r) today st
