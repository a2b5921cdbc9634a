-- ===== src/Usecase/Ranking.antt =====
-- internal/usecase/ranking/service.go: rankings by year, month and ISO week. The three methods have
-- one body over different periods, keys and ranges; it is written once here.
pub mod Coherence
pub mod OneSet
pub mod Examples
use hateblog_backend.Common.{
  ◌-◌, ◌/◌, ap, Bool, true, false, ◌&&◌, Option, none, some, List, [], ltb, leb, if◌then◌else◌,
  length, take, drop, ℤ, pos, pos_part, ltb_ℤ, leb_ℤ, eqb_ℤ, Result, ok, err, ◌>>=◌, ◌>>◌, min,
}
use hateblog_backend.Domain.Entry.{Entry, Time}
use hateblog_backend.Domain.ListQuery.{ListQuery, sort_hot, default_limit}
use hateblog_backend.Pkg.Apptime.{Calendar, RangeError, year_range, month_range, iso_week_range}
use hateblog_backend.Usecase.Ports.{Fault, EntryRepository, Cache}

-- `Result`, and also `rankingCachePayload`, which has the same fields.
pub record Ranked : Type 0 where
  pub entries : List Entry
  pub total : ℤ

pub data RankingError : Type 0 where
  range : RangeError → RankingError
  infra : Fault → RankingError

-- The methods' local constant `max`.
abbrev pub max_entries : ℤ
max_entries = pos 100

unfoldable pub slice_with_offset_and_limit {ℓ} : {A : Type ℓ} → List A → ℤ → ℤ → List A
slice_with_offset_and_limit entries offset limit =
    let from = if ltb_ℤ offset (pos 0) then pos 0 else offset in
    let rest = drop (pos_part from) entries in
    if leb_ℤ (pos (length entries)) from
    then []
    else if leb_ℤ limit (pos 0)
    then rest
    else if leb_ℤ (pos (length rest)) limit
    then rest
    else take (pos_part limit) rest

-- The query of `listEntriesAndCount`.
abbrev pub ranking_query : Time × Time → ℤ → ℤ → ℤ → ListQuery
ranking_query (from, to) offset limit min_users = record {
  tags = [];
  min_bookmark_count = min_users;
  offset = offset;
  limit = limit;
  sort = sort_hot;
  keyword = [];
  posted_at_from = from;
  posted_at_to = to;
  max_limit_override = max_entries;
}

unfoldable pub or_infra {ℓ} : {A : Type ℓ} → Result Fault A → Result RankingError A
or_infra (ok a) = ok a
or_infra (err f) = err (infra f)

unfoldable pub or_range {ℓ} : {A : Type ℓ} → Result RangeError A → Result RankingError A
or_range (ok a) = ok a
or_range (err e) = err (range e)

unfoldable pub list_entries_and_count :
    EntryRepository → Time × Time → ℤ → ℤ → ℤ → Result RankingError Ranked
unfolding or_infra
list_entries_and_count repo r offset limit min_users = do
  entries ← or_infra (repo.list (ranking_query r offset limit min_users))
  total ← or_infra (repo.count (ranking_query r offset limit min_users))
  ok (record { entries = entries; total = total })

-- The defaults at the head of each method.
abbrev pub given_limit : ℤ → ℤ
given_limit limit = if leb_ℤ limit (pos 0) then default_limit else limit

abbrev pub given : ℤ → ℤ
given n = if ltb_ℤ n (pos 0) then pos 0 else n

-- `period_range` is the function of apptime, `enabled` tells that the service has the cache.
module _ {P : Type 0} (period_range : P → Result RangeError (Time × Time)) (repo : EntryRepository)
    (cache : Cache (P × ℤ) Ranked) (enabled : Bool) where
  -- What follows a miss: the range, the two queries, and the payload for the cache.
  unfoldable pub fetch : P → ℤ → ℤ → ℤ → Result RankingError Ranked
  fetch p limit offset min_users = do
    r ← or_range (period_range p)
    list_entries_and_count repo r offset limit min_users

  -- An error of Set is dropped.
  store :
      Bool
      → P × ℤ
      → Result RankingError Ranked
      → cache.Store
      → Result RankingError (Ranked × Bool) × cache.Store
  store use_cache key (err e) st = (err e, st)
  store use_cache key (ok r) st = (ok (r, false), if use_cache then (cache.set st key r).0 else st)

  answer_lookup :
      Result Fault (Option Ranked)
      → Bool
      → P
      → ℤ
      → ℤ
      → ℤ
      → cache.Store
      → Result RankingError (Ranked × Bool) × cache.Store
  unfolding store fetch
  answer_lookup (err f) use_cache p limit offset min_users st = (err (infra f), st)
  answer_lookup (ok (some cached)) use_cache p limit offset min_users st = (
    ok (
      record {
        entries = slice_with_offset_and_limit cached.entries offset limit;
        total = cached.total;
      },
      true,
    ),
    st,
  )
  answer_lookup (ok none) use_cache p limit offset min_users st =
      store use_cache (p, min_users) (fetch p limit offset min_users) st

  -- `YearlyWithCacheStatus` and the other two: the result with the cache status, and the cache.
  unfoldable pub with_cache_status :
      P → ℤ → ℤ → ℤ → cache.Store → Result RankingError (Ranked × Bool) × cache.Store
  unfolding answer_lookup
  with_cache_status p limit offset min_users st =
      let limit = given_limit limit in
      let offset = given offset in
      let min_users = given min_users in
      let use_cache = eqb_ℤ limit max_entries && (eqb_ℤ offset (pos 0) && enabled) in
      answer_lookup (if use_cache then cache.get st (p, min_users) else ok none) use_cache p limit
        offset min_users st

module _ (calendar : Calendar) (repo : EntryRepository) (enabled : Bool) where
  unfoldable pub yearly_with_cache_status :
      (cache : Cache (ℤ × ℤ) Ranked)
      → ℤ
      → ℤ
      → ℤ
      → ℤ
      → cache.Store
      → Result RankingError (Ranked × Bool) × cache.Store
  yearly_with_cache_status cache year =
      with_cache_status (year_range calendar) repo cache enabled year

  unfoldable pub monthly_with_cache_status :
      (cache : Cache ((ℤ × ℤ) × ℤ) Ranked)
      → ℤ
      → ℤ
      → ℤ
      → ℤ
      → ℤ
      → cache.Store
      → Result RankingError (Ranked × Bool) × cache.Store
  monthly_with_cache_status cache year month =
      with_cache_status (λ (y, m). month_range calendar y m) repo cache enabled (year, month)

  unfoldable pub weekly_with_cache_status :
      (cache : Cache ((ℤ × ℤ) × ℤ) Ranked)
      → ℤ
      → ℤ
      → ℤ
      → ℤ
      → ℤ
      → cache.Store
      → Result RankingError (Ranked × Bool) × cache.Store
  weekly_with_cache_status cache year week =
      with_cache_status (λ (y, w). iso_week_range calendar y w) repo cache enabled (year, week)
