-- ===== src/Handler/Rankings.antt =====
-- internal/infra/handler/ranking_handler.go: the rankings by year, month and ISO week.
pub mod Served
pub mod Answers
pub mod Examples
use hateblog_backend.Common.{
  ℕ, suc, ◌+◌, ◌-◌, ◌/◌, ap, Bool, Option, none, some, List, [], ◌∷◌, all, ℤ, pos, ◌+ℤ◌, wrap64,
  Result, ok, err, ◌>>=◌, ◌>>◌, Bytes, codes, min,
}
use hateblog_backend.Domain.Entry.{Entry}
use hateblog_backend.Pkg.Apptime.{Calendar}
use hateblog_backend.Usecase.Ports.{EntryRepository, Cache}
use hateblog_backend.Usecase.Ranking.{
  Ranked, RankingError, yearly_with_cache_status, monthly_with_cache_status,
  weekly_with_cache_status,
}
use hateblog_backend.Handler.Params.{Query, ParamError, read_query_int, require_query_int}
use hateblog_backend.Handler.Responses.{
  Response, payload, EntryResponse, no_headers, set_cache_status_header, write_json, write_error,
  to_entry_response,
}

pub record RankingEntryResponse : Type 0 where
  pub rank : ℤ
  pub entry : EntryResponse

pub record RankingResponse : Type 0 where
  pub period_type : Bytes
  pub year : ℤ
  pub month : Option ℤ
  pub week : Option ℤ
  pub entries : List RankingEntryResponse
  pub total : ℤ
  pub limit : ℤ
  pub offset : ℤ

pub data HandlerError : Type 0 where
  param : ParamError → HandlerError
  service : RankingError → HandlerError

abbrev pub RankingsResponse : Type 0
RankingsResponse = Response HandlerError RankingResponse

-- The limit, the offset and the least number of users, of all three handlers.
pub record Page : Type 0 where
  pub limit : ℤ
  pub offset : ℤ
  pub min_users : ℤ

unfoldable pub read_page : Query → Result ParamError Page
read_page r = do
  limit ← read_query_int r (codes "limit") (pos 1) (pos 100) (pos 100)
  offset ← read_query_int r (codes "offset") (pos 0) (pos 100_000) (pos 0)
  min_users ← read_query_int r (codes "min_users") (pos 0) (pos 10_000) (pos 5)
  ok (record { limit = limit; offset = offset; min_users = min_users })

unfoldable pub yearly_params : Query → Result ParamError (ℤ × Page)
yearly_params r = do
  year ← require_query_int r (codes "year") (pos 2000) (pos 9999)
  page ← read_page r
  ok (year, page)

unfoldable pub monthly_params : Query → Result ParamError (ℤ × ℤ × Page)
monthly_params r = do
  year ← require_query_int r (codes "year") (pos 2000) (pos 9999)
  month ← require_query_int r (codes "month") (pos 1) (pos 12)
  page ← read_page r
  ok (year, month, page)

unfoldable pub weekly_params : Query → Result ParamError (ℤ × ℤ × Page)
weekly_params r = do
  year ← require_query_int r (codes "year") (pos 2000) (pos 9999)
  week ← require_query_int r (codes "week") (pos 1) (pos 53)
  page ← read_page r
  ok (year, week, page)

module _ (parse_url : Bytes → Option (Bytes × Bytes)) (api_base_path : Bytes) where
  -- The loop over the entries, from index `i` on; the rank is an int.
  unfoldable pub rank_from : ℤ → ℕ → List Entry → List RankingEntryResponse
  rank_from offset i [] = []
  rank_from offset i (ent ∷ es) =
      record {
        rank = wrap64 (wrap64 (offset +ℤ pos i) +ℤ pos 1);
        entry = to_entry_response parse_url api_base_path ent;
      }
      ∷ rank_from offset (suc i) es

  unfoldable pub build_ranking_response :
      Bytes → ℤ → Option ℤ → Option ℤ → Ranked → ℤ → ℤ → RankingResponse
  unfolding rank_from
  build_ranking_response period_type year month week result limit offset = record {
    period_type = period_type;
    year = year;
    month = month;
    week = week;
    entries = rank_from offset 0 result.entries;
    total = result.total;
    limit = limit;
    offset = offset;
  }

  -- The end of each handler.
  unfoldable pub write_ranking :
      Bytes
      → ℤ
      → Option ℤ
      → Option ℤ
      → Page
      → Result RankingError (Ranked × Bool)
      → RankingsResponse
  unfolding build_ranking_response write_json write_error set_cache_status_header
  write_ranking period_type year month week p (err e) = write_error no_headers 500 (service e)
  write_ranking period_type year month week p (ok (result, hit)) =
      write_json (set_cache_status_header no_headers hit) 200
        (payload (build_ranking_response period_type year month week result p.limit p.offset))

  module _ (calendar : Calendar) (repo : EntryRepository) (enabled : Bool) where
    serve_yearly :
        (cache : Cache (ℤ × ℤ) Ranked)
        → Result ParamError (ℤ × Page)
        → cache.Store
        → RankingsResponse × cache.Store
    unfolding write_ranking
    serve_yearly cache (err e) st = (write_error no_headers 400 (param e), st)
    serve_yearly cache (ok (year, p)) st =
        let (result, st') =
          yearly_with_cache_status calendar repo enabled cache year p.limit p.offset p.min_users
            st in
        (write_ranking (codes "yearly") year none none p result, st')

    unfoldable pub handle_yearly :
        (cache : Cache (ℤ × ℤ) Ranked) → Query → cache.Store → RankingsResponse × cache.Store
    unfolding serve_yearly
    handle_yearly cache r st = serve_yearly cache (yearly_params r) st

    serve_monthly :
        (cache : Cache ((ℤ × ℤ) × ℤ) Ranked)
        → Result ParamError (ℤ × ℤ × Page)
        → cache.Store
        → RankingsResponse × cache.Store
    unfolding write_ranking
    serve_monthly cache (err e) st = (write_error no_headers 400 (param e), st)
    serve_monthly cache (ok (year, month, p)) st =
        let (result, st') =
          monthly_with_cache_status calendar repo enabled cache year month p.limit p.offset
            p.min_users st in
        (write_ranking (codes "monthly") year (some month) none p result, st')

    unfoldable pub handle_monthly :
        (cache : Cache ((ℤ × ℤ) × ℤ) Ranked) → Query → cache.Store → RankingsResponse × cache.Store
    unfolding serve_monthly
    handle_monthly cache r st = serve_monthly cache (monthly_params r) st

    serve_weekly :
        (cache : Cache ((ℤ × ℤ) × ℤ) Ranked)
        → Result ParamError (ℤ × ℤ × Page)
        → cache.Store
        → RankingsResponse × cache.Store
    unfolding write_ranking
    serve_weekly cache (err e) st = (write_error no_headers 400 (param e), st)
    serve_weekly cache (ok (year, week, p)) st =
        let (result, st') =
          weekly_with_cache_status calendar repo enabled cache year week p.limit p.offset
            p.min_users st in
        (write_ranking (codes "weekly") year none (some week) p result, st')

    unfoldable pub handle_weekly :
        (cache : Cache ((ℤ × ℤ) × ℤ) Ranked) → Query → cache.Store → RankingsResponse × cache.Store
    unfolding serve_weekly
    handle_weekly cache r st = serve_weekly cache (weekly_params r) st
