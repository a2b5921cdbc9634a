-- ===== src/Handler/Rankings/Answers.antt =====
-- The handlers of the rankings on every branch.
use hateblog_backend.Common.{
  ◌≡◌, refl, Bool, Option, none, some, ℤ, pos, Result, ok, err, >>=-eq-ok, Bytes, codes,
}
use hateblog_backend.Pkg.Apptime.{Calendar, RangeError, year_range, month_range, iso_week_range}
use hateblog_backend.Domain.Entry.{Time}
use hateblog_backend.Usecase.Ports.{EntryRepository, IsLimited, Cache, IsCache}
use hateblog_backend.Usecase.Ranking.{
  Ranked, yearly_with_cache_status, monthly_with_cache_status, weekly_with_cache_status,
}
use hateblog_backend.Usecase.Ranking.Coherence.{IsCoherent}
use hateblog_backend.Handler.Params.{Query, ParamError, require_query_int}
use hateblog_backend.Handler.Responses.{write_json, write_error, error_message}
use hateblog_backend.Handler.Rankings.{
  RankingsResponse, Page, read_page, yearly_params, monthly_params, weekly_params, handle_yearly,
  handle_monthly, handle_weekly, serve_yearly, serve_monthly, serve_weekly,
}
use hateblog_backend.Handler.Rankings.Served.{
  IsBounded, read_page-IsBounded, bad_request, IsServed, with_cache_status-IsServed,
}

yearly_params-IsBounded :
    (r : Query) {year : ℤ} (page : Page) → yearly_params r ≡ ok (year, page) → IsBounded page
unfolding yearly_params
yearly_params-IsBounded r page h =
    let (y, _, h1) = >>=-eq-ok (require_query_int r (codes "year") (pos 2000) (pos 9999)) _ h in
    let (p, a, h2) = >>=-eq-ok (read_page r) _ h1 in read_page-IsBounded r page (rw a (cc h2))

monthly_params-IsBounded :
    (r : Query) {year month : ℤ} (page : Page)
    → monthly_params r ≡ ok (year, month, page)
    → IsBounded page
unfolding monthly_params
monthly_params-IsBounded r page h =
    let (y, _, h1) = >>=-eq-ok (require_query_int r (codes "year") (pos 2000) (pos 9999)) _ h in
    let (m, _, h2) = >>=-eq-ok (require_query_int r (codes "month") (pos 1) (pos 12)) _ h1 in
    let (p, a, h3) = >>=-eq-ok (read_page r) _ h2 in read_page-IsBounded r page (rw a (cc h3))

weekly_params-IsBounded :
    (r : Query) {year week : ℤ} (page : Page)
    → weekly_params r ≡ ok (year, week, page)
    → IsBounded page
unfolding weekly_params
weekly_params-IsBounded r page h =
    let (y, _, h1) = >>=-eq-ok (require_query_int r (codes "year") (pos 2000) (pos 9999)) _ h in
    let (w, _, h2) = >>=-eq-ok (require_query_int r (codes "week") (pos 1) (pos 53)) _ h1 in
    let (p, a, h3) = >>=-eq-ok (read_page r) _ h2 in read_page-IsBounded r page (rw a (cc h3))

module _ (parse_url : Bytes → Option (Bytes × Bytes)) (api_base_path : Bytes) (calendar : Calendar)
    (repo : EntryRepository) (enabled : Bool) where
  abbrev pub month_of : ℤ × ℤ → Result RangeError (Time × Time)
  month_of (y, m) = month_range calendar y m

  abbrev pub week_of : ℤ × ℤ → Result RangeError (Time × Time)
  week_of (y, w) = iso_week_range calendar y w

  abbrev pub IsAnswerYearly :
      (cache : Cache (ℤ × ℤ) Ranked)
      → Result ParamError (ℤ × Page)
      → cache.Store
      → RankingsResponse × cache.Store
      → Type 0
  IsAnswerYearly cache (err e) st out =
      (out.0 ≡ bad_request parse_url api_base_path e) × (out.1 ≡ st)
  IsAnswerYearly cache (ok (year, page)) st out =
      IsServed parse_url api_base_path (year_range calendar) repo cache enabled (codes "yearly")
        year none none year page st out

  abbrev pub IsAnswerMonthly :
      (cache : Cache ((ℤ × ℤ) × ℤ) Ranked)
      → Result ParamError (ℤ × ℤ × Page)
      → cache.Store
      → RankingsResponse × cache.Store
      → Type 0
  IsAnswerMonthly cache (err e) st out =
      (out.0 ≡ bad_request parse_url api_base_path e) × (out.1 ≡ st)
  IsAnswerMonthly cache (ok (year, month, page)) st out =
      IsServed parse_url api_base_path month_of repo cache enabled (codes "monthly") year
        (some month) none (year, month) page st out

  abbrev pub IsAnswerWeekly :
      (cache : Cache ((ℤ × ℤ) × ℤ) Ranked)
      → Result ParamError (ℤ × ℤ × Page)
      → cache.Store
      → RankingsResponse × cache.Store
      → Type 0
  IsAnswerWeekly cache (err e) st out =
      (out.0 ≡ bad_request parse_url api_base_path e) × (out.1 ≡ st)
  IsAnswerWeekly cache (ok (year, week, page)) st out =
      IsServed parse_url api_base_path week_of repo cache enabled (codes "weekly") year none
        (some week) (year, week) page st out

  yearly_answered :
      IsLimited repo
      → (cache : Cache (ℤ × ℤ) Ranked) → IsCache cache
      → (r : Query) (st : cache.Store) → IsCoherent (year_range calendar) repo cache enabled st
      → IsAnswerYearly cache
          (yearly_params r)
          st
          (handle_yearly parse_url api_base_path calendar repo enabled cache r st)
  unfolding handle_yearly serve_yearly yearly_with_cache_status write_error write_json error_message
  yearly_answered limited cache law r st coh = go (yearly_params r) refl
    where
      go :
          (m : Result ParamError (ℤ × Page))
          → yearly_params r ≡ m
          → IsAnswerYearly cache m st
              (serve_yearly parse_url api_base_path calendar repo enabled cache m st)
      go (err e) q = (refl, refl)
      go (ok (year, page)) q =
          with_cache_status-IsServed parse_url api_base_path (year_range calendar) repo cache
            enabled limited law (codes "yearly") year none none year page st
            (yearly_params-IsBounded r page q) coh

  monthly_answered :
      IsLimited repo
      → (cache : Cache ((ℤ × ℤ) × ℤ) Ranked) → IsCache cache
      → (r : Query) (st : cache.Store) → IsCoherent month_of repo cache enabled st
      → IsAnswerMonthly cache
          (monthly_params r)
          st
          (handle_monthly parse_url api_base_path calendar repo enabled cache r st)
  unfolding handle_monthly serve_monthly monthly_with_cache_status write_error write_json
      error_message
  monthly_answered limited cache law r st coh = go (monthly_params r) refl
    where
      go :
          (m : Result ParamError (ℤ × ℤ × Page))
          → monthly_params r ≡ m
          → IsAnswerMonthly cache m st
              (serve_monthly parse_url api_base_path calendar repo enabled cache m st)
      go (err e) q = (refl, refl)
      go (ok (year, month, page)) q =
          with_cache_status-IsServed parse_url api_base_path month_of repo cache enabled limited law
            (codes "monthly") year (some month) none (year, month) page st
            (monthly_params-IsBounded r page q) coh

  weekly_answered :
      IsLimited repo
      → (cache : Cache ((ℤ × ℤ) × ℤ) Ranked) → IsCache cache
      → (r : Query) (st : cache.Store) → IsCoherent week_of repo cache enabled st
      → IsAnswerWeekly cache
          (weekly_params r)
          st
          (handle_weekly parse_url api_base_path calendar repo enabled cache r st)
  unfolding handle_weekly serve_weekly weekly_with_cache_status write_error write_json error_message
  weekly_answered limited cache law r st coh = go (weekly_params r) refl
    where
      go :
          (m : Result ParamError (ℤ × ℤ × Page))
          → weekly_params r ≡ m
          → IsAnswerWeekly cache m st
              (serve_weekly parse_url api_base_path calendar repo enabled cache m st)
      go (err e) q = (refl, refl)
      go (ok (year, week, page)) q =
          with_cache_status-IsServed parse_url api_base_path week_of repo cache enabled limited law
            (codes "weekly") year none (some week) (year, week) page st
            (weekly_params-IsBounded r page q) coh

  -- For a repository whose lists keep to the limit of a query, and a cache that finds only what was
  -- set and holds only first pages as the repository answers them: the handler of the yearly
  -- rankings answers 400 with the fault of the parameters and leaves the cache as it is; for
  -- accepted parameters it answers 500 without a reason if the lookup of the cache, made for a first
  -- page of 100 where there is a cache, or else the repository fails; and otherwise 200 with the
  -- header HIT exactly if the lookup finds something, and with the repository's entries for the
  -- limit, the offset and the least number of users asked for, numbered from offset + 1 on; and the
  -- cache stays so. The handlers of the monthly and the weekly rankings do the same.
  pub handle_rankings_lem :
      IsLimited repo
      → (years : Cache (ℤ × ℤ) Ranked) (months weeks : Cache ((ℤ × ℤ) × ℤ) Ranked) → IsCache years
      → IsCache months
      → IsCache weeks
      → (r : Query) (st : years.Store) (st' : months.Store) (st'' : weeks.Store)
      → IsCoherent (year_range calendar) repo years enabled st
      → IsCoherent month_of repo months enabled st'
      → IsCoherent week_of repo weeks enabled st''
      → IsAnswerYearly years
          (yearly_params r)
          st
          (handle_yearly parse_url api_base_path calendar repo enabled years r st)
        × IsAnswerMonthly months
            (monthly_params r)
            st'
            (handle_monthly parse_url api_base_path calendar repo enabled months r st')
        × IsAnswerWeekly weeks
            (weekly_params r)
            st''
            (handle_weekly parse_url api_base_path calendar repo enabled weeks r st'')
  handle_rankings_lem limited years months weeks law law' law'' r st st' st'' coh coh' coh'' = (
    yearly_answered limited years law r st coh,
    monthly_answered limited months law' r st' coh',
    weekly_answered limited weeks law'' r st'' coh'',
  )
