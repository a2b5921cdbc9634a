-- ===== src/Infra/Redis/Rankings.antt =====
-- The rankings of internal/usecase/ranking over the caches in Redis, as cmd/app puts them together:
-- the three methods share one Redis.
use hateblog_backend.Common.{
  ◌≡◌, sym, ◌≢◌, ◌⊎◌, inl, inr, Bool, true, Option, some, List, ℤ, Result, ok, err, Bytes,
}
use hateblog_backend.Domain.Entry.{Entry, Time}
use hateblog_backend.Domain.Tag.{Tag}
use hateblog_backend.Pkg.Apptime.{Calendar, RangeError, year_range, month_range, iso_week_range}
use hateblog_backend.Usecase.Ports.{Fault, EntryRepository, IsLimited, Cache, IsCache}
use hateblog_backend.Usecase.Entries.{ListResult}
use hateblog_backend.Usecase.Search.{SearchResult}
use hateblog_backend.Usecase.Archive.{infra, ArchiveCount}
use hateblog_backend.Usecase.Ranking.{
  Ranked, RankingError, infra, given, given_limit, fetch, yearly_with_cache_status,
  monthly_with_cache_status, weekly_with_cache_status,
}
use hateblog_backend.Usecase.Ranking.OneSet.{with_cache_status-IsOneSet}
use hateblog_backend.Infra.Redis.Keys.{HasPlainSort, IsSame}
use hateblog_backend.Usecase.Ranking.Coherence.{with_status, IsCoherent, with_cache_status-answer}
use hateblog_backend.Infra.Decimal.Printed.{colon_free}
use hateblog_backend.Infra.Redis.{
  RedisClient, IsRedis, Codec, Snappy, IsFaithful, CacheTtlConfig, CacheKind, day_entries,
  tag_entries, search_results, tags_list, archive_today, archive_past, yearly_ranking,
  monthly_ranking, weekly_ranking, Args,
}
use hateblog_backend.Infra.Redis.Lawful.{at_time, api_cache-get-set, api_cache-get-set-IsSame}

-- A call of one of the three methods, with its arguments.
pub data Call : Type 0 where
  yearly : ℤ → ℤ → ℤ → ℤ → Call
  monthly : ℤ → ℤ → ℤ → ℤ → ℤ → Call
  weekly : ℤ → ℤ → ℤ → ℤ → ℤ → Call

-- The values of each cache.
abbrev pub Value : CacheKind → Type 0
Value day_entries = List Entry
Value tag_entries = ListResult
Value search_results = SearchResult
Value tags_list = List Tag
Value archive_today = Option ArchiveCount
Value archive_past = List ArchiveCount
Value yearly_ranking = Ranked
Value monthly_ranking = Ranked
Value weekly_ranking = Ranked

module _ (r : RedisClient) (snappy : Snappy) (codec : (k : CacheKind) → Codec (Value k))
    (to_lower query_escape sha256 : Bytes → Bytes) (c : CacheTtlConfig) (calendar : Calendar)
    (law : IsRedis r) (faithful : (k : CacheKind) → IsFaithful (codec k) snappy)
    (escape_free : (s : Bytes) → colon_free (query_escape s) ≡ true)
    (escape_injective : (s t : Bytes) → query_escape s ≡ query_escape t → s ≡ t)
    (repo : EntryRepository) (enabled : Bool) where
  abbrev redis_cache : Time → (k : CacheKind) → Cache (Args k) (Value k)
  redis_cache =
      at_time r snappy Value codec to_lower query_escape sha256 c calendar law faithful escape_free
        escape_injective

  -- What a cache finds after a Set of another one was there before.
  found_before :
      (earlier now : Time) (k : CacheKind) (a : Args k) (v : Value k) (j : CacheKind) (b : Args j)
      (w : Value j) (st : r.Server)
      → k ≢ j
      → HasPlainSort to_lower query_escape sha256 escape_free escape_injective k a
      → HasPlainSort to_lower query_escape sha256 escape_free escape_injective j b
      → (redis_cache now j).get ((redis_cache earlier k).set st a v).0 b ≡ ok (some w)
      → (redis_cache now j).get st b ≡ ok (some w)
  found_before earlier now k a v j b w st other p q h =
      elim (api_cache-get-set r snappy Value codec to_lower query_escape sha256 c calendar law
        faithful escape_free escape_injective earlier now k a v j b w st p q h) [
          | inl (e, _, _) ↦ elim (other e) [ ]
          | inr before ↦ before
        ]

  abbrev month_of : ℤ × ℤ → Result RangeError (Time × Time)
  month_of (y, m) = month_range calendar y m

  abbrev week_of : ℤ × ℤ → Result RangeError (Time × Time)
  week_of (y, w) = iso_week_range calendar y w

  -- Every ranking in Redis is the first page as the repository answers it.
  abbrev pub AreCoherent : Time → r.Server → Type 0
  AreCoherent now st =
      IsCoherent (year_range calendar) repo (redis_cache now yearly_ranking) enabled st
      × IsCoherent month_of repo (redis_cache now monthly_ranking) enabled st
      × IsCoherent week_of repo (redis_cache now weekly_ranking) enabled st

  -- A cache with no text in its arguments has the law that the use cases rely on.
  redis_cache-IsCache :
      (k : CacheKind)
      → ((a : Args k) → HasPlainSort to_lower query_escape sha256 escape_free escape_injective k a)
      → ((a b : Args k)
          → IsSame to_lower query_escape sha256 escape_free escape_injective k a b
          → b ≡ a)
      → (now : Time) → IsCache (redis_cache now k)
  redis_cache-IsCache k plain exact now = record {
    get-set = λ st a v b w h.
        elim (api_cache-get-set-IsSame r snappy Value codec to_lower query_escape sha256 c calendar
          law faithful escape_free escape_injective now now k a v b w st (plain a) (plain b) h) [
            | inl (same, is_v) ↦ inl (exact a b same, sym is_v)
            | inr before ↦ inr before
          ];
  }

  kept :
      (now : Time) (k : CacheKind) (j : CacheKind) (b : Args j) (w : Value j) (st st' : r.Server)
      → k ≢ j
      → ((a : Args k) → HasPlainSort to_lower query_escape sha256 escape_free escape_injective k a)
      → HasPlainSort to_lower query_escape sha256 escape_free escape_injective j b
      → ((st' ≡ st) ⊎ ((a : Args k) × (v : Value k) × (st' ≡ ((redis_cache now k).set st a v).0)))
      → (redis_cache now j).get st' b ≡ ok (some w)
      → (redis_cache now j).get st b ≡ ok (some w)
  kept now k j b w st st' other p q (inl same) h = rw (← same) h
  kept now k j b w st st' other p q (inr (a, v, is_set)) h =
      found_before now now k a v j b w st other (p a) q (rw (← is_set) h)

  -- The method over its cache in Redis, with the answer and the state of Redis.
  abbrev pub serve : Time → Call → r.Server → Result RankingError (Ranked × Bool) × r.Server
  serve now (yearly year limit offset min_users) =
      yearly_with_cache_status calendar repo enabled (redis_cache now yearly_ranking) year limit
        offset min_users
  serve now (monthly year month limit offset min_users) =
      monthly_with_cache_status calendar repo enabled (redis_cache now monthly_ranking) year month
        limit offset min_users
  serve now (weekly year week limit offset min_users) =
      weekly_with_cache_status calendar repo enabled (redis_cache now weekly_ranking) year week
        limit offset min_users

  -- The repository's answer for the call, and what the cache finds for it.
  abbrev pub direct : Call → Result RankingError Ranked
  direct (yearly year limit offset min_users) =
      fetch (year_range calendar) repo (redis_cache 0 yearly_ranking) enabled year
        (given_limit limit) (given offset) (given min_users)
  direct (monthly year month limit offset min_users) =
      fetch month_of repo (redis_cache 0 monthly_ranking) enabled (year, month) (given_limit limit)
        (given offset) (given min_users)
  direct (weekly year week limit offset min_users) =
      fetch week_of repo (redis_cache 0 weekly_ranking) enabled (year, week) (given_limit limit)
        (given offset) (given min_users)

  abbrev pub lookup : Time → Call → r.Server → Result Fault (Option Ranked)
  lookup now (yearly year limit offset min_users) st =
      (redis_cache now yearly_ranking).get st (year, given min_users)
  lookup now (monthly year month limit offset min_users) st =
      (redis_cache now monthly_ranking).get st ((year, month), given min_users)
  lookup now (weekly year week limit offset min_users) st =
      (redis_cache now weekly_ranking).get st ((year, week), given min_users)

  -- For a repository whose lists keep to the limit of a query, and a Redis in which only what was
  -- set is found: with rankings in Redis that are first pages as the repository answers them, a
  -- call of any of the three methods gives the repository's answer for the page asked for, hit or
  -- miss, or the error of a failed lookup; and the rankings of all three kinds in Redis are still
  -- such pages. The codecs read back what they wrote, url.QueryEscape leaves no colon and can be
  -- undone.
  pub serve_lem :
      IsLimited repo
      → (now : Time) (call : Call) (st : r.Server) → AreCoherent now st
      → (((hit : Bool) × ((serve now call st).0 ≡ with_status hit (direct call)))
          ⊎ ((f : Fault) × (lookup now call st ≡ err f) × ((serve now call st).0 ≡ err (infra f))))
        × AreCoherent now (serve now call st).1
  unfolding yearly_with_cache_status monthly_with_cache_status weekly_with_cache_status fetch
  serve_lem limited now (yearly year limit offset min_users) st (y, m, w) =
      let (answered, kept_own) =
        with_cache_status-answer (year_range calendar) repo (redis_cache now yearly_ranking) enabled
          limited (redis_cache-IsCache yearly_ranking (λ _. tt) (λ a b e. sym e) now) year limit
          offset min_users st y in
      let one =
        with_cache_status-IsOneSet (year_range calendar) repo (redis_cache now yearly_ranking)
          enabled year limit offset min_users st in
      (
        answered,
        (
          kept_own,
          λ q n x h. m q n x (
              kept now yearly_ranking monthly_ranking (q, n) x st _ (λ e. cc e) (λ _. tt) tt one h),
          λ q n x h.
              w q n x (
                kept now yearly_ranking weekly_ranking (q, n) x st _ (λ e. cc e) (λ _. tt) tt one
                  h),
        ),
      )
  serve_lem limited now (monthly year month limit offset min_users) st (y, m, w) =
      let (answered, kept_own) =
        with_cache_status-answer month_of repo (redis_cache now monthly_ranking) enabled limited
          (redis_cache-IsCache monthly_ranking (λ _. tt) (λ a b e. sym e) now) (year, month) limit
          offset min_users st m in
      let one =
        with_cache_status-IsOneSet month_of repo (redis_cache now monthly_ranking) enabled
          (year, month) limit offset min_users st in
      (
        answered,
        (
          λ q n x h. y q n x (
              kept now monthly_ranking yearly_ranking (q, n) x st _ (λ e. cc e) (λ _. tt) tt one h),
          kept_own,
          λ q n x h. w q n x (
              kept now monthly_ranking weekly_ranking (q, n) x st _ (λ e. cc e) (λ _. tt) tt one h),
        ),
      )
  serve_lem limited now (weekly year week limit offset min_users) st (y, m, w) =
      let (answered, kept_own) =
        with_cache_status-answer week_of repo (redis_cache now weekly_ranking) enabled limited
          (redis_cache-IsCache weekly_ranking (λ _. tt) (λ a b e. sym e) now) (year, week) limit
          offset min_users st w in
      let one =
        with_cache_status-IsOneSet week_of repo (redis_cache now weekly_ranking) enabled
          (year, week) limit offset min_users st in
      (
        answered,
        (
          λ q n x h.
              y q n x (
                kept now weekly_ranking yearly_ranking (q, n) x st _ (λ e. cc e) (λ _. tt) tt one
                  h),
          λ q n x h. m q n x (
              kept now weekly_ranking monthly_ranking (q, n) x st _ (λ e. cc e) (λ _. tt) tt one h),
          kept_own,
        ),
      )
