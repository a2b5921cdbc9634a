-- ===== src/Server/RateLimit/Examples.antt =====
-- The rate limiter at a concrete configuration.
use hateblog_backend.Common.{
  min, ℕ, suc, ◌-◌, ◌≡◌, refl, true, false, none, some, List, [], ◌∷◌, arith, pos, Bytes, codes,
  trim_space,
}
use hateblog_backend.Server.RateLimit.{
  RateLimitConfig, Request, next, too_many_requests, Counters, serve, rate_limit, limit_key,
  request_key, redis_key, key_prefix, is_disabled, increment_with_ttl, script, live, decide,
}
use hateblog_backend.Server.RateLimit.Window.{
  counted, served_of, requests_of, served_of-window, served_of_new_window,
}

-- Two requests in a second.
abbrev two_a_second : RateLimitConfig
two_a_second = record {
  has_cache = true;
  limit = pos 2;
  window = pos 1_000_000_000;
  prefix = codes "rl";
}

abbrev request_at : ℕ → Request
request_at t = record {
  skipped = false;
  client_ip = codes "::1";
  api_key = [];
  now = t;
  redis_fails = false;
}

abbrev three_requests : List Request
three_requests = request_at 5 ∷ request_at 6 ∷ request_at 7 ∷ []

abbrev sample_key : Bytes
sample_key = codes "rl:ip:::1"

abbrev no_counters : Counters
no_counters key = none

-- The third request of the second is refused, and may be retried after a second.
serve_three :
    (serve two_a_second three_requests no_counters).0 ≡ next ∷ next ∷ too_many_requests 1 ∷ []
unfolding serve rate_limit limit_key request_key redis_key key_prefix is_disabled increment_with_ttl
    script live decide trim_space
serve_three = refl

-- A window below a millisecond counts as zero milliseconds, so its counter is dead at once and the
-- limit has no effect.
serve_short_window :
    (serve
      (record two_a_second { window = pos 999_999 })
      (request_at 5 ∷ request_at 5 ∷ request_at 5 ∷ [])
      no_counters).0
    ≡ next ∷ next ∷ next ∷ []
unfolding serve rate_limit limit_key request_key redis_key key_prefix is_disabled increment_with_ttl
    script live decide trim_space
serve_short_window = refl

sample_counted : counted two_a_second sample_key (request_at 5) ≡ true
unfolding request_key redis_key key_prefix trim_space
sample_counted = refl

abbrev full_counters : Counters
full_counters key = some (record { count = 1; expires = 100 })

served_of-window_example :
    served_of two_a_second sample_key three_requests
      (serve two_a_second three_requests full_counters).0
    ≡ min (requests_of two_a_second sample_key three_requests) (2 - 1)
served_of-window_example =
    served_of-window two_a_second sample_key 2 three_requests full_counters
      (record { count = 1; expires = 100 }) (unfold is_disabled in refl) refl refl
      (omega arith, (omega arith, (omega arith, tt)))

served_of_new_window_example :
    served_of two_a_second sample_key three_requests
      (serve two_a_second three_requests no_counters).0
    ≡ min (suc (requests_of two_a_second sample_key (request_at 6 ∷ request_at 7 ∷ []))) 2
served_of_new_window_example =
    served_of_new_window two_a_second sample_key 2 (request_at 5) (request_at 6 ∷ request_at 7 ∷ [])
      no_counters (unfold is_disabled in refl) refl sample_counted (unfold live in refl)
      (omega arith, (omega arith, tt))
