-- ===== src/Server/Guard/Open.antt =====
-- Which requests pass the guard, and the path of the health check.
pub mod Examples
use hateblog_backend.Common.{
  ◌+◌, ◌-◌, ◌/◌, ◌≡◌, refl, sym, ap, ap₂, ◌∙◌, ◌≢◌, ◌⊎◌, inl, inr, Bool, true, false, not, ◌&&◌,
  none, some, [], ◌∷◌, ◌++◌, ◌==◌, &&-true, Bool-cases, keep, all, ok, Bytes, codes, bytes_eq,
  bytes_eq_sound, bytes_eq_refl, is_empty, is_empty_cases, trim_space, has_prefix,
}
use hateblog_backend.Domain.Tag.{Uuid}
use hateblog_backend.Domain.Entry.{Time}
use hateblog_backend.Domain.ApiKey.{ApiKey}
use hateblog_backend.Pkg.ApiKeyHash.{hash}
use hateblog_backend.Usecase.ApiKeys.{Redis, Codec, get_by_id}
use hateblog_backend.Server.Auth.{allowed, is_expired, dynamic_api_key_auth}
use hateblog_backend.Server.Auth.Keys.{dynamic_api_key_auth-allowed}
use hateblog_backend.Handler.Paths.{slash, with_slash, trim_slashes, normalize_api_base_path}
use hateblog_backend.Handler.Paths.Rooted.{with_slash_rooted, trim_slashes_rooted}
use hateblog_backend.Server.Guard.{
  app_base_path, below, is_exempt, is_open, healthcheck_path, router_base_path, served_health_path,
  guard,
}

is_exempt_path :
    (base path : Bytes)
    → is_exempt base path ≡ true
    → (path ≡ below base (codes "/health"))
      ⊎ ((path ≡ below base (codes "/api-keys")) ⊎ (path ≡ below base (codes "/favicons")))
unfolding is_exempt
is_exempt_path base path h = elim (Bool-cases (bytes_eq path (below base (codes "/health")))) [
  | inl health ↦ inl (bytes_eq_sound path _ health)
  | inr no_health ↦ elim (Bool-cases (bytes_eq path (below base (codes "/api-keys")))) [
    | inl keys ↦ inr (inl (bytes_eq_sound path _ keys))
    | inr no_keys ↦ inr (inr (bytes_eq_sound path _ (rw (no_health, no_keys) at h)))
  ]
]

module _ (redis : Redis) (codec : Codec) (sha256 : Bytes → Bytes) where
  -- A request that the guard lets through lies outside the base path, which is then not "/"; or asks
  -- for the health, for a new key or for an icon; or names a stored key that has not expired, and
  -- bears the key whose hash is stored.
  pub guard-allowed :
      (base path key_id api_key : Bytes) (now : Time) (st : redis.State)
      → guard redis codec sha256 base path key_id api_key now st ≡ allowed
      → ((base ≢ slash) × (has_prefix path (base ++ slash) ≡ false))
        ⊎ (((path ≡ below base (codes "/health"))
              ⊎ ((path ≡ below base (codes "/api-keys")) ⊎ (path ≡ below base (codes "/favicons"))))
            ⊎ ((id : Uuid) × (k : ApiKey) × (codec.parse_id key_id ≡ some id)
                × (get_by_id redis codec id now st ≡ ok k)
                × (k.key_hash ≡ hash sha256 api_key)
                × (is_expired k.expires_at now ≡ false)))
  unfolding guard is_open
  guard-allowed base path key_id api_key now st h =
      elim (Bool-cases (not (bytes_eq base slash) && not (has_prefix path (base ++ slash)))) [
        | inl outside ↦
            let (a, b) = &&-true (not (bytes_eq base slash)) _ outside in
            inl (not_same base slash a, not_true (has_prefix path (base ++ slash)) b)
        | inr inside ↦ elim (Bool-cases (is_exempt base path)) [
          | inl exempt ↦ inr (inl (is_exempt_path base path exempt))
          | inr guarded ↦ inr (
              inr (
                dynamic_api_key_auth-allowed redis codec sha256 key_id api_key now st
                  (rw (inside, guarded) at h)))
        ]
      ]
    where
      not_true : (b : Bool) → not b ≡ true → b ≡ false
      not_true false h = refl
      not_true true h = cc h

      not_same : (s t : Bytes) → not (bytes_eq s t) ≡ true → s ≢ t
      not_same s t h e = cc (h, e, bytes_eq_refl t)

trim_slashes-ne : (s : Bytes) → trim_slashes s ≢ slash
unfolding trim_slashes
trim_slashes-ne [] h = cc h
trim_slashes-ne (c ∷ s) h = elim (Bool-cases ((c == b'/') && is_empty (trim_slashes s))) [
  | inl gone ↦ let none_left = rw gone at h in cc none_left
  | inr left ↦
      let kept = rw left at h in
      let first : c ≡ b'/' = cc kept in
      let rest : trim_slashes s ≡ [] = cc kept in
      cc (left, ap₂ (λ x y. (x == b'/') && is_empty y) first rest)
]

is_empty_other : (s : Bytes) → s ≢ [] → is_empty s ≡ false
is_empty_other [] h = absurd (h refl)
is_empty_other (c ∷ s) h = refl

bytes_eq_apart : (s t : Bytes) → s ≢ t → bytes_eq s t ≡ false
bytes_eq_apart s t h = elim (Bool-cases (bytes_eq s t)) [
  | inl same ↦ absurd (h (bytes_eq_sound s t same))
  | inr other ↦ other
]

-- A text without slashes at its end that begins with one is left as it is.
normalize_api_base_path-rooted :
    (s : Bytes)
    → trim_space s ≡ s
    → is_empty s ≡ false
    → with_slash s ≡ s
    → bytes_eq s slash ≡ false
    → trim_slashes s ≡ s
    → normalize_api_base_path s ≡ s
unfolding normalize_api_base_path
normalize_api_base_path-rooted s trimmed filled rooted other cut =
    rw (trimmed, filled, rooted, other) cut

trim_slashes_idem : (s : Bytes) → trim_slashes (trim_slashes s) ≡ trim_slashes s
unfolding trim_slashes
trim_slashes_idem [] = refl
trim_slashes_idem (c ∷ s) = elim (Bool-cases ((c == b'/') && is_empty (trim_slashes s))) [
  | inl gone ↦ rw gone refl
  | inr left ↦ rw (left, trim_slashes_idem s, left) refl
]

has_prefix-with_slash : (s : Bytes) → has_prefix s slash ≡ true → with_slash s ≡ s
unfolding with_slash
has_prefix-with_slash s h = rw h refl

-- The path of the health that the router serves, for a base path that trim_slashes has left.
served_health_path-trim_slashes :
    (s : Bytes)
    → has_prefix s slash ≡ true
    → trim_space (trim_slashes s) ≡ trim_slashes s
    → served_health_path (trim_slashes s) ≡ trim_slashes s ++ codes "/health"
unfolding served_health_path router_base_path below normalize_api_base_path
served_health_path-trim_slashes s h trimmed = elim (is_empty_cases (trim_slashes s)) [
  | inl (none_left, empty) ↦ rw (trimmed, empty) (sym (ap (λ x. x ++ codes "/health") none_left))
  | inr (some_left, filled) ↦
      let other = bytes_eq_apart (trim_slashes s) slash (trim_slashes-ne s) in
      let rooted = has_prefix-with_slash (trim_slashes s) (trim_slashes_rooted s h filled) in
      rw
        (
          normalize_api_base_path-rooted (trim_slashes s) trimmed filled rooted other
              (trim_slashes_idem s),
          filled,
          other,
        )
        refl
]

-- For a configured base path that is not blank, and that keeps no white space at its end once the
-- slashes there are cut: the program's own health check asks for the path under which the router
-- serves the health, and which the guard leaves open, but for the base path "/": there it asks for
-- "//health", and "/health" is served.
pub healthcheck_path_lem :
    (configured : Bytes)
    → trim_space configured ≢ []
    → trim_space (app_base_path configured) ≡ app_base_path configured
    → ((app_base_path configured ≡ slash)
        × (healthcheck_path configured ≡ codes "//health")
        × (served_health_path (app_base_path configured) ≡ codes "/health"))
      ⊎ ((app_base_path configured ≢ slash)
          × (healthcheck_path configured ≡ served_health_path (app_base_path configured))
          × (healthcheck_path configured ≡ below (app_base_path configured) (codes "/health")))
unfolding app_base_path healthcheck_path below
healthcheck_path_lem configured h trimmed =
    let rooted = with_slash (trim_space configured) in
    let given = is_empty_other (trim_space configured) h in
    elim (Bool-cases (bytes_eq rooted slash)) [
      | inl whole ↦
          let same = bytes_eq_sound rooted slash whole in
          inl (
            rw (given, whole) same,
            rw (given, whole) (ap (λ s. s ++ codes "/health") same),
            rw (given, whole) (ap served_health_path same ∙ root_health),
          )
      | inr part ↦
          let cut = trim_slashes-ne rooted in
          let plain : trim_space (trim_slashes rooted) ≡ trim_slashes rooted =
            rw (given, part) at trimmed in
          let served =
            served_health_path-trim_slashes rooted (with_slash_rooted (trim_space configured))
              plain in
          inr (
            rw (given, part) cut,
            rw (given, part) (sym served),
            rw (given, part, bytes_eq_apart (trim_slashes rooted) slash cut) refl,
          )
    ]
  where
    root_health : served_health_path slash ≡ codes "/health"
    root_health =
        unfold served_health_path router_base_path below normalize_api_base_path trim_space
          with_slash has_prefix in
        refl
