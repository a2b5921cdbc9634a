-- ===== src/Pkg/Hostname/Laws.antt =====
-- What Normalize gives, and when normalising again changes nothing.
use hateblog_backend.Common.{
  ℕ, ◌<◌, ◌≡◌, refl, subst, ◌≢◌, Bool, true, false, not, Option, [], ◌∷◌, ◌++◌, reverse, arith,
  &&-true, all, any, ok, >>=-eq-ok, guard-eq-ok, Bytes, codes, is_empty, trim_space, has_prefix,
  is_space_byte, lead_width, last_width, Trimmed, trim_space_of_Trimmed,
}
use mathlib.Core.List.{reverse-cons}
use hateblog_backend.Pkg.Hostname.{
  contains, trim_dot, is_host_byte, host_pattern, is_separator, host_of, check_host, normalize,
  hostname_required, invalid_hostname,
}

-- A host name holds none of the bytes that ContainsAny looks for: that test refuses nothing that
-- the pattern would let through.
no_separator : (s : Bytes) → all is_host_byte s ≡ true → any is_separator s ≡ false
unfolding is_separator
no_separator [] h = refl
no_separator (c ∷ s) h = ground (arith, no_separator s)

is_empty_of_ne : (s : Bytes) → s ≢ [] → is_empty s ≡ false
is_empty_of_ne [] h = absurd (h refl)
is_empty_of_ne (c ∷ s) h = refl

abbrev pub IsHost : Bytes → Type 0
IsHost s = (s ≢ []) × (all is_host_byte s ≡ true)

-- Host bytes are no white space, and no text of them has a scheme.
host_byte_not_space : (c : ℕ) → is_host_byte c ≡ true → (c < 128) × (is_space_byte c ≡ false)
host_byte_not_space c h = ground arith

all-append :
    (s t : Bytes)
    → all is_host_byte s ≡ true
    → all is_host_byte t ≡ true
    → all is_host_byte (s ++ t) ≡ true
all-append [] t h k = k
all-append (c ∷ s) t h k = ground (arith, all-append s t)

all-reverse : (s : Bytes) → all is_host_byte s ≡ true → all is_host_byte (reverse s) ≡ true
all-reverse [] h = refl
all-reverse (c ∷ s) h =
    let (first, rest) = &&-true (is_host_byte c) (all is_host_byte s) h in
    rw (reverse-cons c s) (all-append (reverse s) (c ∷ []) (all-reverse s rest) (rw first))

lead_width_of_host : (s : Bytes) → all is_host_byte s ≡ true → lead_width s ≡ 0
unfolding lead_width
lead_width_of_host [] h = refl
lead_width_of_host (a ∷ []) h = ground arith
lead_width_of_host (a ∷ b ∷ []) h = ground (arith, host_byte_not_space a, host_byte_not_space b)
lead_width_of_host (a ∷ b ∷ c ∷ s) h =
    ground (arith, host_byte_not_space a, host_byte_not_space b, host_byte_not_space c)

last_width_of_host : (s : Bytes) → all is_host_byte s ≡ true → last_width s ≡ 0
unfolding last_width
last_width_of_host [] h = refl
last_width_of_host (a ∷ []) h = ground arith
last_width_of_host (a ∷ b ∷ []) h = ground (arith, host_byte_not_space a, host_byte_not_space b)
last_width_of_host (a ∷ b ∷ c ∷ s) h =
    ground (arith, host_byte_not_space a, host_byte_not_space b, host_byte_not_space c)

host-Trimmed : (s : Bytes) → all is_host_byte s ≡ true → Trimmed s
host-Trimmed s h = (lead_width_of_host s h, last_width_of_host (reverse s) (all-reverse s h))

no_scheme : (s : Bytes) → all is_host_byte s ≡ true → contains s (codes "://") ≡ false
unfolding contains has_prefix
no_scheme [] h = refl
no_scheme (c ∷ s) h = ground (arith, no_scheme s)

module _ (url_host : Bytes → Option Bytes) (to_lower : Bytes → Bytes) where
  check_host_sound :
      (raw value out : Bytes)
      → check_host url_host to_lower raw value ≡ ok out
      → (out ≡ value) × IsHost out
  unfolding check_host
  check_host_sound raw [] out h = cc
  check_host_sound raw (c ∷ s) out h =
      let (_, h1) = guard-eq-ok (any is_separator (c ∷ s)) (invalid_hostname raw) _ h in
      let (b, h2) = guard-eq-ok (not (host_pattern (c ∷ s))) (invalid_hostname raw) _ h1 in
      let same : c ∷ s ≡ out = cc h2 in
      subst (λ x. (x ≡ c ∷ s) × IsHost x) same
        (refl, ((λ e. cc), truth_of_not (all is_host_byte (c ∷ s)) b))
    where
      truth_of_not : (t : Bool) → not t ≡ false → t ≡ true
      truth_of_not true e = refl
      truth_of_not false e = cc

  check_host_complete :
      (raw value : Bytes) → IsHost value → check_host url_host to_lower raw value ≡ ok value
  unfolding check_host
  check_host_complete raw [] h = absurd (h.0 refl)
  check_host_complete raw (c ∷ s) h = rw (no_separator (c ∷ s) h.1, h.1) refl

  -- A host name that Normalize gives is not empty and holds lower-case letters, digits, dots and
  -- hyphens only, whatever url.Parse and ToLower do.
  pub normalize-IsHost : (raw out : Bytes) → normalize url_host to_lower raw ≡ ok out → IsHost out
  unfolding normalize
  normalize-IsHost raw out h =
      let (_, h1) = guard-eq-ok (is_empty (trim_space raw)) hostname_required _ h in
      let (host, _, h2) = >>=-eq-ok (host_of url_host to_lower raw (trim_space raw)) _ h1 in
      (check_host_sound raw (trim_dot (to_lower host)) out h2).1

  -- A host name that Normalize gives is its own normal form if ToLower leaves it alone and it does
  -- not end in a dot: the handler, the cache and the rate limiter, which normalise in turn, agree.
  pub normalize-normalize :
      (raw out : Bytes)
      → normalize url_host to_lower raw ≡ ok out
      → to_lower out ≡ out
      → trim_dot out ≡ out
      → normalize url_host to_lower out ≡ ok out
  unfolding normalize host_of
  normalize-normalize raw out h lower dot =
      let host = normalize-IsHost raw out h in
      rw
        (
          trim_space_of_Trimmed out (host-Trimmed out host.1),
          is_empty_of_ne out host.0,
          no_scheme out host.1,
          lower,
          dot,
        )
        (check_host_complete out out host)
