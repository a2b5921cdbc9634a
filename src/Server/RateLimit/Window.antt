-- ===== src/Server/RateLimit/Window.antt =====
-- Within one window the limiter lets through as many requests of a key as its limit allows.
use hateblog_backend.Common.{
  min, ℕ, suc, ◌+◌, ◌-◌, ◌*◌, ◌/◌, ◌<◌, ◌≡◌, refl, ap, ap₂, ◌∙◌, ◌⊎◌, inl, inr, Bool, true, false,
  not, ◌&&◌, ◌||◌, Option, none, some, List, [], ◌∷◌, arith, leb, if◌then◌else◌, lt→ltb, &&-true,
  Bool-cases, All, ℤ, pos, pos_part, ltb_ℤ, leb_ℤ, Bytes, bytes_eq, bytes_eq_iff, bytes_eq_refl,
}
use hateblog_backend.Server.RateLimit.{
  serve, update, limit_key, is_disabled, live, Counters, Time, Counter, decide, rate_limit,
  increment_with_ttl, script, RateLimitConfig, Request, Response, next, too_many_requests,
  request_key, redis_key,
}

-- The requests that reach the counter of a key: not skipped, with Redis at work.
abbrev pub counted : RateLimitConfig → Bytes → Request → Bool
counted cfg key r =
    not r.skipped
    && (not r.redis_fails
        && elim (request_key r) [ none ↦ false | some k ↦ bytes_eq (redis_key cfg k) key ])

is_next : Response → Bool
is_next next = true
is_next (too_many_requests n) = false

-- How many requests of a key there are, and how many of those are let through.
pub requests_of : RateLimitConfig → Bytes → List Request → ℕ
requests_of cfg key [] = 0
requests_of cfg key (r ∷ rs) =
    if counted cfg key r then suc (requests_of cfg key rs) else requests_of cfg key rs

pub served_of : RateLimitConfig → Bytes → List Request → List Response → ℕ
unfolding is_next
served_of cfg key [] outs = 0
served_of cfg key (r ∷ rs) [] = 0
served_of cfg key (r ∷ rs) (out ∷ outs) =
    if counted cfg key r && is_next out
    then suc (served_of cfg key rs outs)
    else served_of cfg key rs outs

abbrev next_with : Counters → Response × Counters
next_with cs = (next, cs)

decide-counters :
    (cfg : RateLimitConfig) (o : Option ℕ) (cs : Counters) → (decide cfg (o, cs)).1 ≡ cs
unfolding decide
decide-counters cfg none cs = refl
decide-counters cfg (some n) cs = elim (Bool-cases (ltb_ℤ cfg.limit (pos n))) [
  | inl over ↦ rw over refl
  | inr under ↦ rw under refl
]

script_other :
    (o : Option Counter) (k key : Bytes) (ttl : ℕ) (now : Time) (cs : Counters)
    → bytes_eq k key ≡ false
    → (script o k ttl now cs).1 key ≡ cs key
unfolding script
script_other none k key ttl now cs h = rw h refl
script_other (some c) k key ttl now cs h = rw h refl

increment_with_ttl_other :
    (k key : Bytes) (ttl : ℤ) (now : Time) (fails : Bool) (cs : Counters)
    → fails ≡ true ⊎ bytes_eq k key ≡ false
    → (increment_with_ttl k ttl now fails cs).1 key ≡ cs key
unfolding increment_with_ttl
increment_with_ttl_other k key ttl now fails cs h = elim (Bool-cases (leb_ℤ ttl (pos 0) || fails)) [
  | inl broken ↦ rw broken refl
  | inr works ↦ rw works (elim h [
    | inl f ↦ absurd (ground arith)
    | inr other ↦ script_other (live cs k now) k key (pos_part ttl) now cs other
  ])
]

-- A request that does not reach the counter of the key leaves it alone.
rate_limit_other :
    (cfg : RateLimitConfig) (key : Bytes) (r : Request) (cs : Counters)
    → is_disabled cfg ≡ false
    → counted cfg key r ≡ false
    → (rate_limit cfg r cs).1 key ≡ cs key
unfolding rate_limit
rate_limit_other cfg key r cs enabled h = rw enabled (by_skip r.skipped refl)
  where
    by_key :
        (o : Option Bytes)
        → request_key r ≡ o
        → r.skipped ≡ false
        → (limit_key cfg r o cs).1 key ≡ cs key
    by_key none e s = refl
    by_key (some k) e s =
        let inc = increment_with_ttl (redis_key cfg k) cfg.window r.now r.redis_fails cs in
        ap (λ (x : Counters). x key) (decide-counters cfg inc.0 inc.1)
        ∙ increment_with_ttl_other (redis_key cfg k) key cfg.window r.now r.redis_fails cs
            (ground arith)

    by_skip :
        (s : Bool)
        → r.skipped ≡ s
        → (if s then (next_with cs) else limit_key cfg r (request_key r) cs).1 key ≡ cs key
    by_skip true e = refl
    by_skip false e = by_key (request_key r) refl e

update_self : (cs : Counters) (key : Bytes) (c : Counter) → update cs key c key ≡ some c
update_self cs key c = rw (bytes_eq_refl key) refl

-- The counter of a new window: a window counts whole milliseconds.
abbrev pub fresh : ℤ → Time → Counter
fresh ttl now = record { count = 1; expires = now + pos_part ttl / 1_000_000 * 1_000_000 }

abbrev bumped : Counter → Counter
bumped c = record { count = c.count + 1; expires = c.expires }

decide-is_next :
    (cfg : RateLimitConfig) (n : ℕ) (cs : Counters)
    → is_next (decide cfg (some n, cs)).0 ≡ leb_ℤ (pos n) cfg.limit
unfolding decide is_next
decide-is_next cfg n cs = ground arith

is_disabled-window :
    (cfg : RateLimitConfig) → is_disabled cfg ≡ false → leb_ℤ cfg.window (pos 0) ≡ false
unfolding is_disabled
is_disabled-window cfg h = ground arith

increment_with_ttl_live :
    (key : Bytes) (ttl : ℤ) (now : Time) (cs : Counters) (c : Counter)
    → leb_ℤ ttl (pos 0) ≡ false
    → cs key ≡ some c
    → now < c.expires
    → increment_with_ttl key ttl now false cs ≡ (some (c.count + 1), update cs key (bumped c))
unfolding increment_with_ttl
increment_with_ttl_live key ttl now cs c positive at before =
    let alive : live cs key now ≡ some c =
      unfold live in (rw (at, live, lt→ltb now c.expires before) refl) in
    rw (positive, alive) refl

increment_with_ttl_dead :
    (key : Bytes) (ttl : ℤ) (now : Time) (cs : Counters)
    → leb_ℤ ttl (pos 0) ≡ false
    → live cs key now ≡ none
    → increment_with_ttl key ttl now false cs ≡ (some 1, update cs key (fresh ttl now))
unfolding increment_with_ttl
increment_with_ttl_dead key ttl now cs positive dead = rw (positive, dead) refl

-- A request that reaches the counter of the key is let through if the new count is within the
-- limit, and leaves the new counter.
rate_limit_counted :
    (cfg : RateLimitConfig) (key : Bytes) (r : Request) (cs : Counters) (n : ℕ) (c : Counter)
    → is_disabled cfg ≡ false
    → counted cfg key r ≡ true
    → increment_with_ttl key cfg.window r.now false cs ≡ (some n, update cs key c)
    → (is_next (rate_limit cfg r cs).0 ≡ leb_ℤ (pos n) cfg.limit)
      × ((rate_limit cfg r cs).1 key ≡ some c)
unfolding rate_limit
rate_limit_counted cfg key r cs n c enabled h counts =
    rw enabled (by_skip r.skipped (request_key r) h)
  where
    by_skip :
        (s : Bool) (o : Option Bytes)
        → (not s
            && (not r.redis_fails
                && elim o [ none ↦ false | some k ↦ bytes_eq (redis_key cfg k) key ]))
          ≡ true
        → let out = (if s then (next_with cs) else limit_key cfg r o cs) in
          (is_next out.0 ≡ leb_ℤ (pos n) cfg.limit) × (out.1 key ≡ some c)
    by_skip true o e = cc
    by_skip false none e = ground arith
    by_skip false (some k) e =
        let (works, same) = &&-true (not r.redis_fails) (bytes_eq (redis_key cfg k) key) e in
        let inc : increment_with_ttl (redis_key cfg k) cfg.window r.now r.redis_fails cs
            ≡ (some n, update cs key c) =
          ap₂ (λ x f. increment_with_ttl x cfg.window r.now f cs)
            ((bytes_eq_iff (redis_key cfg k) key).0 same) (ground arith)
          ∙ counts in
        rw inc (
          decide-is_next cfg n (update cs key c),
          ap (λ (x : Counters). x key) (decide-counters cfg (some n) (update cs key c))
              ∙ update_self cs key c,
        )

-- While a counter lives and shows `n` requests, an enabled limiter with the limit `l` lets
-- through, of the requests of its key, the first `l - n`: whatever other requests come between
-- them, and whatever becomes of those.
pub served_of-window :
    (cfg : RateLimitConfig) (key : Bytes) (l : ℕ) (rs : List Request) (cs : Counters) (c : Counter)
    → is_disabled cfg ≡ false
    → cfg.limit ≡ pos l
    → cs key ≡ some c
    → All (λ r. r.now < c.expires) rs
    → served_of cfg key rs (serve cfg rs cs).0 ≡ min (requests_of cfg key rs) (l - c.count)
unfolding served_of requests_of serve
served_of-window cfg key l [] cs c enabled lim at before = omega arith
served_of-window cfg key l (r ∷ rs) cs c enabled lim at (first, before) =
    elim (Bool-cases (counted cfg key r)) [
      | inl hit ↦
          let (let_in, kept) =
            rate_limit_counted cfg key r cs (c.count + 1) (bumped c) enabled hit (
              increment_with_ttl_live key cfg.window r.now cs c (is_disabled-window cfg enabled) at
                first) in
          let rest =
            served_of-window cfg key l rs (rate_limit cfg r cs).1 (bumped c) enabled lim kept
              before in
          let test : is_next (rate_limit cfg r cs).0 ≡ leb (c.count + 1) l =
            let_in ∙ ap (leb_ℤ (pos (c.count + 1))) lim ∙ ground arith in
          rw (hit, test) (ground (arith, rest))
      | inr miss ↦
          let rest =
            served_of-window cfg key l rs (rate_limit cfg r cs).1 c enabled lim
              (rate_limit_other cfg key r cs enabled miss ∙ at) before in
          rw miss rest
    ]

-- A request of a key with no live counter opens a window of an enabled limiter: of it and of the
-- requests of the key until the window ends, `l` are let through, or all if there are fewer.
pub served_of_new_window :
    (cfg : RateLimitConfig) (key : Bytes) (l : ℕ) (r : Request) (rs : List Request) (cs : Counters)
    → is_disabled cfg ≡ false
    → cfg.limit ≡ pos l
    → counted cfg key r ≡ true
    → live cs key r.now ≡ none
    → All (λ q. q.now < (fresh cfg.window r.now).expires) rs
    → served_of cfg key (r ∷ rs) (serve cfg (r ∷ rs) cs).0 ≡ min (suc (requests_of cfg key rs)) l
unfolding served_of serve
served_of_new_window cfg key l r rs cs enabled lim hit dead before =
    let c = fresh cfg.window r.now in
    let (let_in, kept) =
      rate_limit_counted cfg key r cs 1 c enabled hit
        (increment_with_ttl_dead key cfg.window r.now cs (is_disabled-window cfg enabled) dead) in
    let rest = served_of-window cfg key l rs (rate_limit cfg r cs).1 c enabled lim kept before in
    let test : is_next (rate_limit cfg r cs).0 ≡ leb 1 l =
      let_in ∙ ap (leb_ℤ (pos 1)) lim ∙ ground arith in
    rw (hit, test) (ground (arith, rest))
