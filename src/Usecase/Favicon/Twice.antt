-- ===== src/Usecase/Favicon/Twice.antt =====
-- What a fetch has found is served from Redis the next time.
use hateblog_backend.Common.{
  ◌≡◌, refl, ap, ◌∙◌, inl, inr, Bool, true, false, Option, none, some, Option-cases, ok, Bytes,
  codes, bytes_eq, is_empty,
}
use hateblog_backend.Usecase.Ports.{found}
use hateblog_backend.Pkg.Hostname.{normalize}
use hateblog_backend.Pkg.Hostname.Laws.{normalize-IsHost}
use hateblog_backend.Usecase.Favicon.{
  Icon, RedisClient, IconCodec, Answer, icon_key, negative_key, limit_key, cached_icon, is_negative,
  fallback, allow, fetch_icon, limited_fetch, fetch,
}
use hateblog_backend.Usecase.Favicon.Keys.{icon_key-negative_key, negative_key-limit_key}

-- A Redis that works, for as long as nothing expires.
pub record IsKept (r : RedisClient) : Type 0 where
  pub get-set : (st : r.State) (k v : Bytes) → r.get (r.set st k v) k ≡ ok (some v)
  pub get-set_other :
      (st : r.State) (k v j : Bytes) → bytes_eq k j ≡ false → r.get (r.set st k v) j ≡ r.get st j
  pub get-set_nx_other :
      (st : r.State) (k v j : Bytes)
      → bytes_eq k j ≡ false
      → r.get (r.set_nx st k v).0 j ≡ r.get st j

module _ (url_host : Bytes → Option Bytes) (to_lower : Bytes → Bytes) (redis : RedisClient)
    (codec : IconCodec) (fallback_icon : Icon) (fetcher : Bytes → Option Icon)
    (kept : IsKept redis) where
  -- The icon that was fetched, or the one that stands for a failure.
  abbrev pub served : Bool → Option Icon → Answer
  served hit none = fallback url_host to_lower redis codec fallback_icon fetcher hit
  served hit (some icon) = ok (icon, hit)

  abbrev run : redis.State → Bytes → redis.State × Answer
  run = fetch url_host to_lower redis codec fallback_icon fetcher

  module _ (st : redis.State) (domain host : Bytes)
      (valid : normalize url_host to_lower domain ≡ ok host)
      (clean : is_negative url_host to_lower redis codec fallback_icon fetcher st (icon_key host)
        ≡ false)
      (missed : cached_icon url_host to_lower redis codec fallback_icon fetcher st (icon_key host)
        ≡ none)
      (free : (redis.set_nx st (limit_key host) (codes "1")).1 ≡ ok true) where
    abbrev next : redis.State
    next = (redis.set_nx st (limit_key host) (codes "1")).0

    abbrev key : Bytes
    key = icon_key host

    first_run :
        run st domain
        ≡ fetch_icon url_host to_lower redis codec fallback_icon fetcher next key domain
    unfolding fetch limited_fetch allow
    first_run = rw (fetch, valid, clean, missed, limited_fetch, allow, valid, free) refl

    from_negative :
        (s : redis.State)
        → is_negative url_host to_lower redis codec fallback_icon fetcher s key ≡ true
        → run s domain ≡ (s, served true none)
    unfolding fetch
    from_negative s h = rw (fetch, valid, h) refl

    from_cached :
        (s : redis.State) (icon : Icon)
        → is_negative url_host to_lower redis codec fallback_icon fetcher s key ≡ false
        → cached_icon url_host to_lower redis codec fallback_icon fetcher s key ≡ some icon
        → run s domain ≡ (s, served true (some icon))
    unfolding fetch
    from_cached s icon n h = rw (fetch, valid, n, h) refl

    abbrev stored : Option Icon → redis.State
    stored none = redis.set next (negative_key key) (codes "1")
    stored (some icon) = redis.set next key (codec.marshal icon)

    -- The icon of a host is not taken for a failure.
    still_clean :
        (icon : Icon)
        → is_negative url_host to_lower redis codec fallback_icon fetcher (stored (some icon)) key
          ≡ false
    unfolding is_negative
    still_clean icon =
        ap (λ m. elim (found {A = Bytes} m) as (λ _. Bool) [ none ↦ false | some v ↦ true ])
          (kept.get-set_other next key (codec.marshal icon) (negative_key key)
              (icon_key-negative_key host host
                (normalize-IsHost url_host to_lower domain host valid)).0
            ∙ kept.get-set_nx_other st (limit_key host) (codes "1") (negative_key key)
                (negative_key-limit_key host))
        ∙ clean

    failure_found :
        is_negative url_host to_lower redis codec fallback_icon fetcher (stored none) key ≡ true
    unfolding is_negative found
    failure_found = rw (is_negative, kept.get-set next (negative_key key) (codes "1")) refl

    icon_found :
        (icon : Icon)
        → codec.unmarshal (codec.marshal icon) ≡ some icon
        → is_empty icon.bytes ≡ false
        → cached_icon url_host to_lower redis codec fallback_icon fetcher (stored (some icon)) key
          ≡ some icon
    unfolding cached_icon found
    icon_found icon back filled =
        rw (cached_icon, kept.get-set next key (codec.marshal icon), back, filled) refl

    -- For a host without a failure and without an icon in Redis, which the limiter lets pass, the icon is
    -- asked for; the answer is the icon, or the fallback on a failure. As long as nothing expires, a second fetch gives the same
    -- answer from Redis, and changes nothing there: the limiter is not asked. An icon that is fetched
    -- is not empty and comes back from JSON as it was.
    pub fetch_twice :
        ((icon : Icon)
          → fetcher domain ≡ some icon
          → (codec.unmarshal (codec.marshal icon) ≡ some icon) × (is_empty icon.bytes ≡ false))
        → (later : redis.State) × (run st domain ≡ (later, served false (fetcher domain)))
          × (run later domain ≡ (later, served true (fetcher domain)))
    unfolding fetch_icon
    fetch_twice fine = elim (Option-cases (fetcher domain)) [
      | inl h ↦ (
        stored none,
        first_run ∙ rw (fetch_icon, h) refl,
        rw h (from_negative (stored none) failure_found),
      )
      | inr (icon, h) ↦
          let (back, filled) = fine icon h in
          (
            stored (some icon),
            first_run ∙ rw (fetch_icon, h) refl,
            rw h (
                from_cached (stored (some icon)) icon (still_clean icon)
                  (icon_found icon back filled)),
          )
    ]
