-- ===== src/Server/RateLimit.antt =====
-- The fixed-window rate limiter, and IncrementWithTTL of internal/platform/cache/cache.go with its
-- Redis script.
pub mod Window
pub mod Examples
use hateblog_backend.Common.{
  ℕ, ◌+◌, ◌-◌, ◌*◌, ◌/◌, ap, Bool, not, ◌||◌, Option, none, some, List, [], ◌∷◌, ◌++◌, ltb, leb,
  if◌then◌else◌, any, ℤ, pos, pos_part, ltb_ℤ, leb_ℤ, err, Bytes, codes, bytes_eq, is_empty,
  trim_space,
}
use hateblog_backend.Domain.Entry.{Time}

-- A counter of Redis with the time at which it expires.
pub record Counter : Type 0 where
  pub count : ℕ
  pub expires : Time

abbrev pub Counters : Type 0
Counters = Bytes → Option Counter

-- The counter of a key that has not expired.
unfoldable pub live : Counters → Bytes → Time → Option Counter
live cs key now = elim (cs key) [
  | none ↦ none
  | some c ↦ if ltb now c.expires then some c else none
]

abbrev update : Counters → Bytes → Counter → Counters
update cs key c other = if bytes_eq key other then some c else cs other

-- INCR, and PEXPIRE if the counter is new. PEXPIRE counts whole milliseconds.
script : Option Counter → Bytes → ℕ → Time → Counters → ℕ × Counters
script none key ttl now cs =
    (1, update cs key (record { count = 1; expires = now + ttl / 1_000_000 * 1_000_000 }))
script (some c) key ttl now cs =
    (c.count + 1, update cs key (record { count = c.count + 1; expires = c.expires }))

-- `none` is an error: a window that is not positive, or a failure of Redis.
unfoldable pub increment_with_ttl : Bytes → ℤ → Time → Bool → Counters → Option ℕ × Counters
unfolding script live
increment_with_ttl key ttl now fails cs =
    if leb_ℤ ttl (pos 0) || fails
    then (none, cs)
    else (let (n, cs') = script (live cs key now) key (pos_part ttl) now cs in (some n, cs'))

pub record RateLimitConfig : Type 0 where
  pub has_cache : Bool
  pub limit : ℤ
  pub window : ℤ
  pub prefix : Bytes

-- What the limiter reads of a request, the time at which it arrives and whether Redis fails then.
pub record Request : Type 0 where
  pub skipped : Bool
  pub client_ip : Bytes
  pub api_key : Bytes
  pub now : Time
  pub redis_fails : Bool

pub data Response : Type 0 where
  -- next.ServeHTTP
  next : Response
  too_many_requests : (retry_after : ℕ) → Response

unfoldable pub key_prefix : Bytes → Bytes
key_prefix prefix = if is_empty (trim_space prefix) then codes "ratelimit" else trim_space prefix

-- The default Key; `none` is the error of an empty address.
unfoldable pub request_key : Request → Option Bytes
request_key r =
    if is_empty r.client_ip
    then none
    else if is_empty (trim_space r.api_key)
    then some (codes "ip:" ++ r.client_ip)
    else some (codes "key:" ++ trim_space r.api_key)

unfoldable pub redis_key : RateLimitConfig → Bytes → Bytes
unfolding key_prefix
redis_key cfg key = key_prefix cfg.prefix ++ (codes ":" ++ key)

decide : RateLimitConfig → Option ℕ × Counters → Response × Counters
decide cfg (none, cs) = (next, cs)
decide cfg (some n, cs) =
    if ltb_ℤ cfg.limit (pos n)
    then (too_many_requests (pos_part cfg.window / 1_000_000_000), cs)
    else (next, cs)

limit_key : RateLimitConfig → Request → Option Bytes → Counters → Response × Counters
unfolding decide
limit_key cfg r none cs = (next, cs)
limit_key cfg r (some key) cs =
    decide cfg (increment_with_ttl (redis_key cfg key) cfg.window r.now r.redis_fails cs)

unfoldable pub is_disabled : RateLimitConfig → Bool
is_disabled cfg = leb_ℤ cfg.limit (pos 0) || (leb_ℤ cfg.window (pos 0) || not cfg.has_cache)

-- One request through the middleware.
unfoldable pub rate_limit : RateLimitConfig → Request → Counters → Response × Counters
unfolding limit_key is_disabled
rate_limit cfg r cs =
    if is_disabled cfg
    then (next, cs)
    else if r.skipped
    then (next, cs)
    else limit_key cfg r (request_key r) cs

-- A sequence of requests: the responses in order, and the counters behind them.
unfoldable pub serve : RateLimitConfig → List Request → Counters → List Response × Counters
serve cfg [] cs = ([], cs)
serve cfg (r ∷ rs) cs =
    let (out, cs') = rate_limit cfg r cs in
    let (outs, cs'') = serve cfg rs cs' in (out ∷ outs, cs'')
