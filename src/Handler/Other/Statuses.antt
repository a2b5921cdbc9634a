-- ===== src/Handler/Other/Statuses.antt =====
-- The statuses of the icons and of the health.
pub mod Examples
use hateblog_backend.Common.{
  ℕ, ◌-◌, ◌≡◌, refl, ◌≢◌, ◌↔◌, ◌⊎◌, inl, inr, Bool, true, false, not, Option, none, some, arith,
  if◌then◌else◌, Option-cases, take, all, Result, ok, err, ◌>>=◌, ◌>>◌, Bytes, codes, is_empty,
}
use hateblog_backend.Domain.Entry.{Time}
use hateblog_backend.Pkg.Hostname.{normalize, trim_dot}
use hateblog_backend.Pkg.Hostname.Laws.{normalize-normalize}
use hateblog_backend.Usecase.Ports.{Fault}
use hateblog_backend.Usecase.Favicon.{
  Icon, RedisClient, IconCodec, rate_limited, Answer, fallback, allow, fetch_icon, limited_fetch,
  fetch, cached_icon, is_negative, icon_key, limit_key,
}
use hateblog_backend.Handler.Params.{Query}
use hateblog_backend.Handler.Responses.{
  internal_error, failure, payload, write_error, write_json, error_message,
}
use hateblog_backend.Handler.Other.{
  write_icon, serve_icon, handle_get_favicon, serve_health, status_after,
}

unhealthy : ◌≡◌ {A = ℕ} 503 200 → ⊥
unhealthy h = omega arith

-- The health is served with 200 exactly if no dependency that is configured fails.
pub serve_health_iff :
    (db cache : Option (Option Fault)) (now : Time)
    → ((serve_health db cache now).status ≡ 200)
      ↔ (((f : Fault) → db ≢ some (some f)) × ((f : Fault) → cache ≢ some (some f)))
unfolding serve_health status_after write_json
serve_health_iff (some (some f)) (some (some g)) now =
    ((λ h. absurd (unhealthy h)), (λ h. absurd (h.0 f refl)))
serve_health_iff (some (some f)) (some none) now =
    ((λ h. absurd (unhealthy h)), (λ h. absurd (h.0 f refl)))
serve_health_iff (some (some f)) none now =
    ((λ h. absurd (unhealthy h)), (λ h. absurd (h.0 f refl)))
serve_health_iff (some none) (some (some g)) now =
    ((λ h. absurd (unhealthy h)), (λ h. absurd (h.1 g refl)))
serve_health_iff none (some (some g)) now =
    ((λ h. absurd (unhealthy h)), (λ h. absurd (h.1 g refl)))
serve_health_iff (some none) (some none) now = ((λ h. (λ f e. cc e, λ f e. cc e)), (λ h. refl))
serve_health_iff (some none) none now = ((λ h. (λ f e. cc e, λ f e. cc e)), (λ h. refl))
serve_health_iff none (some none) now = ((λ h. (λ f e. cc e, λ f e. cc e)), (λ h. refl))
serve_health_iff none none now = ((λ h. (λ f e. cc e, λ f e. cc e)), (λ h. refl))

module _ (url_host : Bytes → Option Bytes) (to_lower : Bytes → Bytes) (redis : RedisClient)
    (codec : IconCodec) (fallback_icon : Icon) (fetcher : Bytes → Option Icon) where
  -- What the rate limiter's SetNX for a host answers; `ok false` is a refusal.
  abbrev pub asked : redis.State → Bytes → Result Fault Bool
  asked st host = (redis.set_nx st (limit_key host) (codes "1")).1

  -- A host that is marked as failed gets the icon to fall back on; else the icon in the cache; else,
  -- unless the rate limiter refuses, the icon that is fetched, or that to fall back on.
  abbrev pub IsIconOf : redis.State → Bytes → Icon → Type 0
  IsIconOf st host icon =
      ((is_negative url_host to_lower redis codec fallback_icon fetcher st (icon_key host) ≡ true)
        × (icon ≡ fallback_icon))
      ⊎ (((is_negative url_host to_lower redis codec fallback_icon fetcher st (icon_key host)
              ≡ false)
            × (cached_icon url_host to_lower redis codec fallback_icon fetcher st (icon_key host)
                ≡ some icon))
          ⊎ ((is_negative url_host to_lower redis codec fallback_icon fetcher st (icon_key host)
                ≡ false)
              × (cached_icon url_host to_lower redis codec fallback_icon fetcher st (icon_key host)
                  ≡ none)
              × (asked st host ≢ ok false)
              × ((fetcher host ≡ some icon) ⊎ ((fetcher host ≡ none) × (icon ≡ fallback_icon)))))

  -- Nothing is known of the host, and the rate limiter refuses to fetch its icon.
  abbrev pub IsLimitedAt : redis.State → Bytes → Type 0
  IsLimitedAt st host =
      (is_negative url_host to_lower redis codec fallback_icon fetcher st (icon_key host) ≡ false)
      × (cached_icon url_host to_lower redis codec fallback_icon fetcher st (icon_key host) ≡ none)
      × (asked st host ≡ ok false)

  -- An icon, or the refusal of the rate limiter.
  abbrev pub IsServed : redis.State → Bytes → Answer → Type 0
  IsServed st host a =
      ((icon : Icon) × (hit : Bool) × (a ≡ ok (icon, hit)) × IsIconOf st host icon)
      ⊎ ((a ≡ err rate_limited) × IsLimitedAt st host)

  module _ (has_fallback : is_empty fallback_icon.bytes ≡ false) where
    fallback_given :
        (hit : Bool)
        → fallback url_host to_lower redis codec fallback_icon fetcher hit ≡ ok (fallback_icon, hit)
    unfolding fallback
    fallback_given hit = rw has_fallback refl

    fetch_icon-given :
        (st : redis.State) (key domain : Bytes)
        → (icon : Icon) × ((fetch_icon url_host to_lower redis codec fallback_icon fetcher st key
              domain).1
            ≡ ok (icon, false))
          × ((fetcher domain ≡ some icon) ⊎ ((fetcher domain ≡ none) × (icon ≡ fallback_icon)))
    unfolding fetch_icon
    fetch_icon-given st key domain = elim (Option-cases (fetcher domain)) [
      | inl failed ↦
          (fallback_icon, rw (fetch_icon, failed) (fallback_given false), inr (failed, refl))
      | inr (icon, fetched) ↦ (icon, rw (fetch_icon, fetched) refl, inl fetched)
    ]

    -- The limiter lets a host pass unless its SetNX answers that the key was there.
    allow-asked :
        (st : redis.State) (host : Bytes)
        → normalize url_host to_lower host ≡ ok host
        → (((allow url_host to_lower redis codec fallback_icon fetcher st host).1 ≡ true)
            × (asked st host ≢ ok false))
          ⊎ (((allow url_host to_lower redis codec fallback_icon fetcher st host).1 ≡ false)
              × (asked st host ≡ ok false))
    unfolding allow
    allow-asked st host q = rw (allow, q) (go (asked st host) refl)
      where
        passed : Result Fault Bool → redis.State × Bool
        passed o = elim o [
          | err f ↦ ((redis.set_nx st (limit_key host) (codes "1")).0, true)
          | ok free ↦ ((redis.set_nx st (limit_key host) (codes "1")).0, free)
        ]

        go :
            (o : Result Fault Bool)
            → asked st host ≡ o
            → (((passed o).1 ≡ true) × (asked st host ≢ ok false))
              ⊎ (((passed o).1 ≡ false) × (asked st host ≡ ok false))
        go (err f) e = inl (refl, λ h. cc (e, h))
        go (ok true) e = inl (refl, λ h. cc (e, h))
        go (ok false) e = inr (refl, e)

    limited_fetch-IsServed :
        (st : redis.State) (host : Bytes)
        → normalize url_host to_lower host ≡ ok host
        → is_negative url_host to_lower redis codec fallback_icon fetcher st (icon_key host) ≡ false
        → cached_icon url_host to_lower redis codec fallback_icon fetcher st (icon_key host) ≡ none
        → IsServed st host
            (limited_fetch url_host to_lower redis codec fallback_icon fetcher st
              (icon_key host)
              host).1
    unfolding limited_fetch
    limited_fetch-IsServed st host q unknown uncached = elim (allow-asked st host q) [
      | inl (free, passed) ↦
          let (icon, answer, source) =
            fetch_icon-given (allow url_host to_lower redis codec fallback_icon fetcher st host).0
              (icon_key host) host in
          rw free (inl (icon, false, answer, inr (inr (unknown, uncached, passed, source))))
      | inr (taken, refused) ↦ rw taken (inr (refl, (unknown, uncached, refused)))
    ]

    fetch-IsServed :
        (st : redis.State) (host : Bytes)
        → normalize url_host to_lower host ≡ ok host
        → IsServed st host (fetch url_host to_lower redis codec fallback_icon fetcher st host).1
    unfolding fetch
    fetch-IsServed st host q =
        rw (fetch, q)
          (go (is_negative url_host to_lower redis codec fallback_icon fetcher st (icon_key host))
            (cached_icon url_host to_lower redis codec fallback_icon fetcher st (icon_key host))
            refl refl)
      where
        answered : Bool → Option Icon → Answer
        answered known kept =
            (if known
              then (st, fallback url_host to_lower redis codec fallback_icon fetcher true)
              else elim kept as (λ x. redis.State × Answer) [
                | some icon ↦ (st, ok (icon, true))
                | none ↦
                    limited_fetch url_host to_lower redis codec fallback_icon fetcher st
                      (icon_key host) host
              ]).1

        go :
            (known : Bool) (kept : Option Icon)
            → is_negative url_host to_lower redis codec fallback_icon fetcher st (icon_key host)
              ≡ known
            → cached_icon url_host to_lower redis codec fallback_icon fetcher st (icon_key host)
              ≡ kept
            → IsServed st host (answered known kept)
        go true kept n c = inl (fallback_icon, true, fallback_given true, inl (n, refl))
        go false (some icon) n c = inl (icon, true, refl, inr (inl (n, c)))
        go false none n c = limited_fetch-IsServed st host q n c

    -- With an icon to fall back on: a request for a domain whose host name is in normal form, in lower
    -- case and without a dot at its end, is answered with status 200 and, for a host that is marked
    -- as failed, the icon to fall back on; else the icon in the cache; else, if the rate limiter
    -- does not refuse, the icon that is fetched, or on a failure that to fall back on; and with
    -- status 425 exactly where nothing is known of the host and the rate limiter refuses, whatever
    -- Redis and the fetcher do.
    pub handle_get_favicon_lem :
        (r : Query) (st : redis.State) (host : Bytes)
        → is_empty (r (codes "domain")) ≡ false
        → normalize url_host to_lower (r (codes "domain")) ≡ ok host
        → to_lower host ≡ host
        → trim_dot host ≡ host
        → let out =
            (handle_get_favicon url_host to_lower redis codec fallback_icon fetcher r st).1 in
          ((icon : Icon) × (out.status ≡ 200)
            × (out.body ≡ payload icon.bytes)
            × (out.headers.content_type ≡ icon.content_type)
            × IsIconOf st host icon)
          ⊎ ((out.status ≡ 425) × (out.body ≡ failure internal_error) × IsLimitedAt st host)
    unfolding handle_get_favicon serve_icon
    handle_get_favicon_lem r st host given named lower dot =
        rw (handle_get_favicon, given, named)
          (go _ (
            fetch-IsServed st host
              (normalize-normalize url_host to_lower (r (codes "domain")) host named lower dot)))
      where
        go :
            (a : Answer)
            → IsServed st host a
            → ((icon : Icon) × ((write_icon a).status ≡ 200)
                × ((write_icon a).body ≡ payload icon.bytes)
                × ((write_icon a).headers.content_type ≡ icon.content_type)
                × IsIconOf st host icon)
              ⊎ (((write_icon a).status ≡ 425)
                  × ((write_icon a).body ≡ failure internal_error)
                  × IsLimitedAt st host)
        go a (inl (icon, hit, same, source)) =
            rw same (unfold write_icon in inl (icon, refl, refl, refl, source))
        go a (inr (same, limited)) =
            rw same
              (unfold write_icon write_error write_json error_message in inr (refl, refl, limited))
