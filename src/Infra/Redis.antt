-- ===== src/Infra/Redis.antt =====
-- internal/infra/redis/api_caches.go and snappy_json_cache.go, with GetBytes and Set of
-- internal/platform/cache/cache.go: the caches of the API in Redis. Redis, encoding/json, snappy,
-- url.QueryEscape and SHA-256 are parameters. Logging is left out.
pub mod Keys
pub mod Lawful
pub mod Rankings
pub mod Examples
use hateblog_backend.Common.{
  ◌+◌, ◌-◌, ◌/◌, ◌≡◌, ap, ◌⊎◌, ◌&&◌, Option, none, some, List, [], ◌++◌, if◌then◌else◌, all, ℤ,
  eqb_ℤ, Result, ok, err, ◌>>=◌, ◌>>◌, Bytes, codes, trim_space, min,
}
use hateblog_backend.Domain.Tag.{normalize_name}
use hateblog_backend.Domain.Entry.{Entry, Time}
use hateblog_backend.Domain.ListQuery.{SortType, sort_new, sort_hot, unset, unsupported}
use hateblog_backend.Pkg.ApiKeyHash.{hex_encode}
use hateblog_backend.Pkg.Apptime.{Calendar}
use hateblog_backend.Infra.Decimal.{itoa}
use hateblog_backend.Usecase.Ports.{Fault, Cache}

-- What Get of the Redis library answers beside a value; redis.Nil is a key without a value.
pub data RedisError : Type 0 where
  redis_nil : RedisError
  redis_failed : Fault → RedisError

-- The Redis library, over the state of the server. The number of Set is the time to live.
pub record RedisClient : Type 1 where
  pub Server : Type 0
  pub get : Server → Bytes → Result RedisError Bytes
  pub set : Server → Bytes → Bytes → ℤ → Server × Result Fault (Unit {0})

-- What is found after a Set is the value just set, under its own key, or was there before.
pub record IsRedis (r : RedisClient) : Type 0 where
  pub get-set :
      (st : r.Server) (k v : Bytes) (ttl : ℤ) (j w : Bytes)
      → r.get (r.set st k v ttl).0 j ≡ ok w
      → ((j ≡ k) × (w ≡ v)) ⊎ (r.get st j ≡ ok w)

pub data CacheError : Type 0 where
  cache_miss : CacheError
  cache_failed : Fault → CacheError

unfoldable pub or_miss : Result RedisError Bytes → Result CacheError Bytes
or_miss (ok value) = ok value
or_miss (err redis_nil) = err cache_miss
or_miss (err (redis_failed f)) = err (cache_failed f)

unfoldable pub get_bytes : (r : RedisClient) → r.Server → Bytes → Result CacheError Bytes
unfolding or_miss
get_bytes r st key = or_miss (r.get st key)

-- json.Marshal and json.Unmarshal for the type of the values.
pub record Codec (V : Type 0) : Type 0 where
  pub marshal : V → Result Fault Bytes
  pub unmarshal : Bytes → Result Fault V

pub record Snappy : Type 0 where
  pub encode : Bytes → Bytes
  pub decode : Bytes → Result Fault Bytes

-- What is compressed and encoded is read back.
pub record IsFaithful {V : Type 0} (codec : Codec V) (snappy : Snappy) : Type 0 where
  pub decode-encode : (b : Bytes) → snappy.decode (snappy.encode b) ≡ ok b
  pub unmarshal-marshal : (v : V) (b : Bytes) → codec.marshal v ≡ ok b → codec.unmarshal b ≡ ok v

module _ (r : RedisClient) (snappy : Snappy) {V : Type 0} (codec : Codec V) where
  -- The part of `Get` behind the lookup.
  unfoldable pub decoded : Result CacheError Bytes → Result Fault (Option V)
  decoded (err cache_miss) = ok none
  decoded (err (cache_failed f)) = err f
  decoded (ok payload) = do
    json_data ← snappy.decode payload
    out ← codec.unmarshal json_data
    ok (some out)

  unfoldable pub snappy_get : r.Server → Bytes → Result Fault (Option V)
  unfolding decoded get_bytes
  snappy_get st key = decoded (get_bytes r st key)

  unfoldable pub store_encoded :
      Result Fault Bytes → ℤ → r.Server → Bytes → r.Server × Result Fault (Unit {0})
  store_encoded (err f) ttl st key = (st, err f)
  store_encoded (ok json_data) ttl st key = r.set st key (snappy.encode json_data) ttl

  unfoldable pub snappy_set : ℤ → r.Server → Bytes → V → r.Server × Result Fault (Unit {0})
  unfolding store_encoded
  snappy_set ttl st key value = store_encoded (codec.marshal value) ttl st key

  -- The Get and Set of one of the caches: its keys and the times to live.
  abbrev pub snappy_cache : {K : Type 0} → (K → Bytes) → (K → ℤ) → Cache K V
  snappy_cache key ttl = record {
    Store = r.Server;
    get = λ st k. snappy_get st (key k);
    set = λ st k value. snappy_set (ttl k) st (key k) value;
  }

pub record CacheTtlConfig : Type 0 where
  pub entries_day_ttl : ℤ
  pub tag_entries_ttl : ℤ
  pub search_ttl : ℤ
  pub tags_list_ttl : ℤ
  pub archive_ttl : ℤ
  pub yearly_ranking_current_ttl : ℤ
  pub yearly_ranking_past_ttl : ℤ
  pub monthly_ranking_current_ttl : ℤ
  pub monthly_ranking_past_ttl : ℤ
  pub weekly_ranking_current_ttl : ℤ
  pub weekly_ranking_past_ttl : ℤ

unfoldable pub sort_text : SortType → Bytes
sort_text sort_new = codes "new"
sort_text sort_hot = codes "hot"
sort_text unset = []
sort_text (unsupported raw) = raw

unfoldable pub day_entries_key : Bytes → Bytes
day_entries_key date = codes "hateblog:entries:" ++ (date ++ codes ":all")

-- `query_escape` is url.QueryEscape.
unfoldable pub tag_entries_key : (Bytes → Bytes) → (Bytes → Bytes) → Bytes → SortType → ℤ → Bytes
unfolding sort_text itoa
tag_entries_key to_lower query_escape tag_name sort min_users =
    codes "hateblog:tags:"
    ++ (query_escape (normalize_name to_lower tag_name)
        ++ (codes ":entries:"
            ++ (sort_text sort ++ (codes ":" ++ (itoa min_users ++ codes ":100:0")))))

unfoldable pub sha256_hex : (Bytes → Bytes) → Bytes → Bytes
sha256_hex sha256 value = hex_encode (sha256 value)

unfoldable pub search_cache_key : (Bytes → Bytes) → Bytes → SortType → ℤ → ℤ → ℤ → Bytes
unfolding sort_text itoa sha256_hex
search_cache_key sha256 query sort min_users limit offset =
    codes "hateblog:search:"
    ++ (sha256_hex sha256 (trim_space query)
        ++ (codes ":"
            ++ (sort_text sort
                ++ (codes ":"
                    ++ (itoa min_users
                        ++ (codes ":" ++ (itoa limit ++ (codes ":" ++ itoa offset))))))))

unfoldable pub tags_list_key : ℤ → ℤ → Bytes
unfolding itoa
tags_list_key limit offset =
    codes "hateblog:tags:list:" ++ (itoa limit ++ (codes ":" ++ itoa offset))

unfoldable pub archive_today_key : ℤ → Bytes
unfolding itoa
archive_today_key min_users = codes "hateblog:archive:today:" ++ itoa min_users

unfoldable pub archive_past_key : ℤ → Bytes
unfolding itoa
archive_past_key min_users = codes "hateblog:archive:past:" ++ itoa min_users

unfoldable pub yearly_key : ℤ → ℤ → Bytes
unfolding itoa
yearly_key year min_users =
    codes "hateblog:rankings:yearly:" ++ (itoa year ++ (codes ":" ++ itoa min_users))

unfoldable pub monthly_key : ℤ → ℤ → ℤ → Bytes
unfolding itoa
monthly_key year month min_users =
    codes "hateblog:rankings:monthly:"
    ++ (itoa year ++ (codes ":" ++ (itoa month ++ (codes ":" ++ itoa min_users))))

unfoldable pub weekly_key : ℤ → ℤ → ℤ → Bytes
unfolding itoa
weekly_key year week min_users =
    codes "hateblog:rankings:weekly:"
    ++ (itoa year ++ (codes ":" ++ (itoa week ++ (codes ":" ++ itoa min_users))))

-- The times to live of the rankings, by the year, the month and the ISO week of the present time.
unfoldable pub yearly_ttl : CacheTtlConfig → Calendar → ℤ → Time → ℤ
yearly_ttl c calendar year now =
    if eqb_ℤ year (calendar.civil now).0
    then c.yearly_ranking_current_ttl
    else c.yearly_ranking_past_ttl

unfoldable pub monthly_ttl : CacheTtlConfig → Calendar → ℤ → ℤ → Time → ℤ
monthly_ttl c calendar year month now =
    if eqb_ℤ year (calendar.civil now).0 && eqb_ℤ month (calendar.civil now).1
    then c.monthly_ranking_current_ttl
    else c.monthly_ranking_past_ttl

unfoldable pub weekly_ttl : CacheTtlConfig → Calendar → ℤ → ℤ → Time → ℤ
weekly_ttl c calendar year week now =
    if eqb_ℤ year (calendar.iso_week now).0 && eqb_ℤ week (calendar.iso_week now).1
    then c.weekly_ranking_current_ttl
    else c.weekly_ranking_past_ttl

-- What tells the keys of one cache apart: a date, a tag with sort and least number of users, a search
-- with its numbers, and so on.
pub data CacheKind : Type 0 where
  day_entries tag_entries search_results tags_list archive_today archive_past : CacheKind
  yearly_ranking monthly_ranking weekly_ranking : CacheKind

abbrev pub Args : CacheKind → Type 0
Args day_entries = Bytes
Args tag_entries = Bytes × SortType × ℤ
Args search_results = Bytes × SortType × ℤ × ℤ × ℤ
Args tags_list = ℤ × ℤ
Args archive_today = ℤ
Args archive_past = ℤ
Args yearly_ranking = ℤ × ℤ
Args monthly_ranking = (ℤ × ℤ) × ℤ
Args weekly_ranking = (ℤ × ℤ) × ℤ

module _ (to_lower query_escape sha256 : Bytes → Bytes) where
  -- The methods `key`, `todayKey` and `pastKey`.
  unfoldable pub cache_key : (k : CacheKind) → Args k → Bytes
  unfolding day_entries_key tag_entries_key search_cache_key tags_list_key archive_today_key
      archive_past_key yearly_key monthly_key weekly_key
  cache_key day_entries date = day_entries_key date
  cache_key tag_entries (name, sort, min_users) =
      tag_entries_key to_lower query_escape name sort min_users
  cache_key search_results (query, sort, min_users, limit, offset) =
      search_cache_key sha256 query sort min_users limit offset
  cache_key tags_list (limit, offset) = tags_list_key limit offset
  cache_key archive_today min_users = archive_today_key min_users
  cache_key archive_past min_users = archive_past_key min_users
  cache_key yearly_ranking (year, min_users) = yearly_key year min_users
  cache_key monthly_ranking ((year, month), min_users) = monthly_key year month min_users
  cache_key weekly_ranking ((year, week), min_users) = weekly_key year week min_users

-- The times to live that the caches are built with in cmd/app; `now` is the time of the call.
unfoldable pub cache_ttl : CacheTtlConfig → Calendar → Time → (k : CacheKind) → Args k → ℤ
unfolding yearly_ttl monthly_ttl weekly_ttl
cache_ttl c calendar now day_entries date = c.entries_day_ttl
cache_ttl c calendar now tag_entries key = c.tag_entries_ttl
cache_ttl c calendar now search_results key = c.search_ttl
cache_ttl c calendar now tags_list key = c.tags_list_ttl
cache_ttl c calendar now archive_today min_users = c.entries_day_ttl
cache_ttl c calendar now archive_past min_users = c.archive_ttl
cache_ttl c calendar now yearly_ranking (year, min_users) = yearly_ttl c calendar year now
cache_ttl c calendar now monthly_ranking ((year, month), min_users) =
    monthly_ttl c calendar year month now
cache_ttl c calendar now weekly_ranking ((year, week), min_users) =
    weekly_ttl c calendar year week now

-- One of the nine caches over Redis.
abbrev pub api_cache :
    (r : RedisClient)
    → Snappy
    → {V : Type 0} → Codec V
    → (Bytes → Bytes)
    → (Bytes → Bytes)
    → (Bytes → Bytes)
    → CacheTtlConfig
    → Calendar
    → Time
    → (k : CacheKind) → Cache (Args k) V
api_cache r snappy codec to_lower query_escape sha256 c calendar now k =
    snappy_cache r snappy codec (cache_key to_lower query_escape sha256 k)
      (cache_ttl c calendar now k)

-- The caches by name, each with Get and Set at the time of a call; the archive has two.
module _ (r : RedisClient) (snappy : Snappy) {V : Type 0} (codec : Codec V)
    (to_lower query_escape sha256 : Bytes → Bytes) (c : CacheTtlConfig) (calendar : Calendar)
    (now : Time) where
  abbrev pub day_entries_cache : Cache Bytes V
  day_entries_cache =
      api_cache r snappy codec to_lower query_escape sha256 c calendar now day_entries

  abbrev pub tag_entries_cache : Cache (Bytes × SortType × ℤ) V
  tag_entries_cache =
      api_cache r snappy codec to_lower query_escape sha256 c calendar now tag_entries

  abbrev pub search_cache : Cache (Bytes × SortType × ℤ × ℤ × ℤ) V
  search_cache = api_cache r snappy codec to_lower query_escape sha256 c calendar now search_results

  abbrev pub tags_list_cache : Cache (ℤ × ℤ) V
  tags_list_cache = api_cache r snappy codec to_lower query_escape sha256 c calendar now tags_list

  abbrev pub archive_today_cache : Cache ℤ V
  archive_today_cache =
      api_cache r snappy codec to_lower query_escape sha256 c calendar now archive_today

  abbrev pub archive_past_cache : Cache ℤ V
  archive_past_cache =
      api_cache r snappy codec to_lower query_escape sha256 c calendar now archive_past

  abbrev pub yearly_ranking_cache : Cache (ℤ × ℤ) V
  yearly_ranking_cache =
      api_cache r snappy codec to_lower query_escape sha256 c calendar now yearly_ranking

  abbrev pub monthly_ranking_cache : Cache ((ℤ × ℤ) × ℤ) V
  monthly_ranking_cache =
      api_cache r snappy codec to_lower query_escape sha256 c calendar now monthly_ranking

  abbrev pub weekly_ranking_cache : Cache ((ℤ × ℤ) × ℤ) V
  weekly_ranking_cache =
      api_cache r snappy codec to_lower query_escape sha256 c calendar now weekly_ranking
