-- ===== src/Usecase/Favicon.antt =====
-- internal/usecase/favicon/service.go with internal/infra/redis/favicon_cache.go and
-- favicon_ratelimiter.go: the icons of hosts, kept in Redis. Logging is left out.
pub mod Keys
pub mod Twice
pub mod Examples
use hateblog_backend.Common.{
  ◌+◌, ◌-◌, ◌/◌, ap, Bool, true, false, not, Option, none, some, ◌++◌, if◌then◌else◌, all, All,
  Result, ok, err, Bytes, codes, is_empty,
}
use hateblog_backend.Usecase.Ports.{Fault, found}
use hateblog_backend.Pkg.Hostname.{HostnameError, normalize}

pub record Icon : Type 0 where
  pub bytes : Bytes
  pub content_type : Bytes

-- The Redis client: Get finds nothing on a miss; Set and SetNX, with the times to live that the wrappers
-- were made with, give the state after them, and SetNX whether the key was free.
pub record RedisClient : Type 1 where
  pub State : Type 0
  pub get : State → Bytes → Result Fault (Option Bytes)
  pub set : State → Bytes → Bytes → State
  pub set_nx : State → Bytes → Bytes → State × Result Fault Bool

-- encoding/json at the struct of the cache.
pub record IconCodec : Type 0 where
  pub marshal : Icon → Bytes
  pub unmarshal : Bytes → Option Icon

pub data FaviconError : Type 0 where
  invalid_host : HostnameError → FaviconError
  rate_limited : FaviconError
  fallback_unavailable : FaviconError

unfoldable pub icon_key : Bytes → Bytes
icon_key host = codes "favicon:" ++ host

unfoldable pub negative_key : Bytes → Bytes
negative_key key = key ++ codes ":neg"

unfoldable pub limit_key : Bytes → Bytes
limit_key host = codes "favicon:ratelimit:" ++ host

-- The icon and whether it comes from the cache.
abbrev pub Answer : Type 0
Answer = Result FaviconError (Icon × Bool)

module _ (url_host : Bytes → Option Bytes) (to_lower : Bytes → Bytes) (redis : RedisClient)
    (codec : IconCodec) (fallback_icon : Icon) (fetcher : Bytes → Option Icon) where
  -- `Get`: a payload that is no icon fails, and an icon without bytes counts as a miss.
  unfoldable pub cached_icon : redis.State → Bytes → Option Icon
  cached_icon st key = elim (found (redis.get st key)) [
    | none ↦ none
    | some payload ↦ elim (codec.unmarshal payload) [
      | none ↦ none
      | some icon ↦ if is_empty icon.bytes then none else some icon
    ]
  ]

  -- `IsNegative`; a failed lookup counts as false.
  unfoldable pub is_negative : redis.State → Bytes → Bool
  is_negative st key = elim (found (redis.get st (negative_key key))) [
    | none ↦ false
    | some v ↦ true
  ]

  unfoldable pub fallback : Bool → Answer
  fallback hit =
      if is_empty fallback_icon.bytes then err fallback_unavailable else ok (fallback_icon, hit)

  -- `Allow`: a failure of it is logged, and the icon is fetched.
  unfoldable pub allow : redis.State → Bytes → redis.State × Bool
  allow st domain = elim (normalize url_host to_lower domain) [
    | err e ↦ (st, true)
    | ok host ↦
        let (next, answer) = redis.set_nx st (limit_key host) (codes "1") in
        elim answer [ err f ↦ (next, true) | ok free ↦ (next, free) ]
  ]

  -- What comes after the cache.
  unfoldable pub fetch_icon : redis.State → Bytes → Bytes → redis.State × Answer
  fetch_icon st key domain = elim (fetcher domain) [
    | none ↦ (redis.set st (negative_key key) (codes "1"), fallback false)
    | some icon ↦ (redis.set st key (codec.marshal icon), ok (icon, false))
  ]

  unfoldable pub limited_fetch : redis.State → Bytes → Bytes → redis.State × Answer
  limited_fetch st key domain =
      let (next, allowed) = allow st domain in
      if allowed then fetch_icon next key domain else (next, err rate_limited)

  -- `Fetch` with a cache and a limiter.
  unfoldable pub fetch : redis.State → Bytes → redis.State × Answer
  fetch st domain = elim (normalize url_host to_lower domain) [
    | err e ↦ (st, err (invalid_host e))
    | ok host ↦
        let key = icon_key host in
        if is_negative st key then (st, fallback true) else elim (cached_icon st key) [
          | some icon ↦ (st, ok (icon, true))
          | none ↦ limited_fetch st key domain
        ]
  ]
