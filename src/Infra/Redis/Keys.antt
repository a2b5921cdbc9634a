-- ===== src/Infra/Redis/Keys.antt =====
-- When two keys of the caches are equal.
use hateblog_backend.Common.{
  ℕ, zero, suc, ◌/◌, ◌%◌, ◌≡◌, refl, sym, ap, ap₂, ◌∙◌, subst, true, false, not, [], ◌∷◌, ◌++◌,
  arith, ◌==◌, if◌then◌else◌, &&-true, length, take, drop, length-append, take-append, ℤ, Bytes,
  codes, trim_space,
}
use hateblog_backend.Domain.Tag.{normalize_name}
use hateblog_backend.Pkg.ApiKeyHash.{hex_encode, hex_digit}
use hateblog_backend.Infra.Decimal.{itoa}
use hateblog_backend.Infra.Decimal.Printed.{
  itoa_injective, colon_free, is_numeral, itoa-is_numeral, itoa-colon_free, first_colon,
}
use hateblog_backend.Infra.Redis.{
  CacheKind, day_entries, tag_entries, search_results, tags_list, archive_today, archive_past,
  yearly_ranking, monthly_ranking, weekly_ranking, Args, cache_key, sort_text, sha256_hex,
  day_entries_key, tag_entries_key, search_cache_key, tags_list_key, archive_today_key,
  archive_past_key, yearly_key, monthly_key, weekly_key,
}

-- The byte at a position, 0 behind the end.
abbrev at : ℕ → Bytes → ℕ
at n [] = 0
at zero (c ∷ s) = c
at (suc n) (c ∷ s) = at n s

abbrev after_colon : Bytes → Bytes
after_colon [] = []
after_colon (c ∷ s) = if c == b':' then s else after_colon s

after_colon-append : (s t : Bytes) → colon_free s ≡ true → after_colon (s ++ b':' ∷ t) ≡ t
after_colon-append [] t h = refl
after_colon-append (c ∷ s) t h =
    let (here, rest) = &&-true (not (c == b':')) (colon_free s) h in
    let other : (c == b':') ≡ false = ground arith in rw other (after_colon-append s t rest)

numeral_start : (s t : Bytes) → is_numeral s ≡ true → (at 0 (s ++ b':' ∷ t) == b'e') ≡ false
numeral_start [] t h = refl
numeral_start (c ∷ s) t h = ground arith

-- The cache that a key belongs to, read from its bytes.
abbrev kind_of : Bytes → CacheKind
kind_of s =
    if at 9 s == b'e'
    then day_entries
    else if at 9 s == b's'
    then search_results
    else if at 9 s == b'a'
    then if at 17 s == b't' then archive_today else archive_past
    else if at 9 s == b'r'
    then if at 18 s == b'y'
      then yearly_ranking
      else if at 18 s == b'm'
      then monthly_ranking
      else weekly_ranking
    else if at 0 (after_colon (drop 14 s)) == b'e'
    then tag_entries
    else tags_list

itoa_colon : (a b : ℤ) (u v : Bytes) → itoa a ++ b':' ∷ u ≡ itoa b ++ b':' ∷ v → (a ≡ b) × (u ≡ v)
itoa_colon a b u v h =
    let (p, q) = first_colon (itoa a) (itoa b) u v (itoa-colon_free a) (itoa-colon_free b) h in
    (itoa_injective a b p, q)

same_period :
    (a b c a' b' c' : ℤ)
    → itoa a ++ b':' ∷ (itoa b ++ b':' ∷ itoa c) ≡ itoa a' ++ b':' ∷ (itoa b' ++ b':' ∷ itoa c')
    → ◌≡◌ {A = (ℤ × ℤ) × ℤ} ((a, b), c) ((a', b'), c')
same_period a b c a' b' c' h =
    let (p, rest) = itoa_colon a a' _ _ h in
    let (q, rest') = itoa_colon b b' _ _ rest in rw (p, q, itoa_injective c c' rest') refl

-- Two texts before the same ending are the same.
same_ending : (s t e : Bytes) → s ++ e ≡ t ++ e → s ≡ t
same_ending s t e h =
    let lengths = ap length h in
    let same : length s ≡ length t = omega (arith, length-append s e, length-append t e) in
    sym (take-append s e) ∙ ap₂ take same h ∙ take-append t e

hex_encode-colon_free : (s : Bytes) → colon_free (hex_encode s) ≡ true
unfolding hex_encode hex_digit
hex_encode-colon_free [] = refl
hex_encode-colon_free (c ∷ s) = rw (digit (c / 16), digit (c % 16), hex_encode-colon_free s) refl
  where
    digit : (n : ℕ) → (hex_digit n == b':') ≡ false
    digit n = ground arith

-- `query_escape` is url.QueryEscape, which escapes colons and can be undone.
module _ (to_lower query_escape sha256 : Bytes → Bytes)
    (escape_free : (s : Bytes) → colon_free (query_escape s) ≡ true)
    (escape_injective : (s t : Bytes) → query_escape s ≡ query_escape t → s ≡ t) where
  abbrev pub key : (k : CacheKind) → Args k → Bytes
  key = cache_key to_lower query_escape sha256

  sha256_hex-colon_free : (s : Bytes) → colon_free (sha256_hex sha256 s) ≡ true
  unfolding sha256_hex
  sha256_hex-colon_free s = hex_encode-colon_free (sha256 s)

  kind_of-key : (k : CacheKind) (a : Args k) → kind_of (key k a) ≡ k
  unfolding cache_key day_entries_key tag_entries_key search_cache_key tags_list_key
      archive_today_key archive_past_key yearly_key monthly_key weekly_key
  kind_of-key day_entries date = refl
  kind_of-key tag_entries (name, sort, min_users) =
      rw
        (after_colon-append (query_escape (normalize_name to_lower name))
          (codes "entries:"
            ++ (sort_text sort ++ (codes ":" ++ (itoa min_users ++ codes ":100:0"))))
          (escape_free (normalize_name to_lower name)))
        refl
  kind_of-key search_results (query, sort, min_users, limit, offset) = refl
  kind_of-key tags_list (limit, offset) =
      rw (numeral_start (itoa limit) (itoa offset) (itoa-is_numeral limit)) refl
  kind_of-key archive_today min_users = refl
  kind_of-key archive_past min_users = refl
  kind_of-key yearly_ranking (year, min_users) = refl
  kind_of-key monthly_ranking ((year, month), min_users) = refl
  kind_of-key weekly_ranking ((year, week), min_users) = refl

  -- The arguments of two keys of one cache are the same, for tags and queries as far as the code
  -- takes them into the key.
  abbrev pub IsSame : (k : CacheKind) → Args k → Args k → Type 0
  IsSame day_entries date date' = date ≡ date'
  IsSame tag_entries (name, sort, m) (name', sort', m') =
      (normalize_name to_lower name ≡ normalize_name to_lower name')
      × (sort_text sort ≡ sort_text sort')
      × (m ≡ m')
  IsSame search_results (query, sort, m, limit, offset) (query', sort', m', limit', offset') =
      (sha256_hex sha256 (trim_space query) ≡ sha256_hex sha256 (trim_space query'))
      × (sort_text sort ≡ sort_text sort')
      × (m ≡ m')
      × (limit ≡ limit')
      × (offset ≡ offset')
  IsSame tags_list a b = a ≡ b
  IsSame archive_today a b = a ≡ b
  IsSame archive_past a b = a ≡ b
  IsSame yearly_ranking a b = a ≡ b
  IsSame monthly_ranking a b = a ≡ b
  IsSame weekly_ranking a b = a ≡ b

  -- A sort without a colon, as the use cases pass on: "new" or "hot".
  abbrev pub HasPlainSort : (k : CacheKind) → Args k → Type 0
  HasPlainSort tag_entries (name, sort, m) = colon_free (sort_text sort) ≡ true
  HasPlainSort search_results (query, sort, m, limit, offset) = colon_free (sort_text sort) ≡ true
  HasPlainSort _ a = Unit

  pub cache-IsSame :
      (k : CacheKind) (a b : Args k)
      → HasPlainSort k a
      → HasPlainSort k b
      → key k a ≡ key k b
      → IsSame k a b
  unfolding cache_key day_entries_key tag_entries_key search_cache_key tags_list_key
      archive_today_key archive_past_key yearly_key monthly_key weekly_key
  cache-IsSame day_entries date date' p q h = same_ending date date' (codes ":all") (ap (drop 17) h)
  cache-IsSame tag_entries (name, sort, m) (name', sort', m') p q h =
      let (a, rest) =
        first_colon (query_escape (normalize_name to_lower name))
          (query_escape (normalize_name to_lower name')) _ _
          (escape_free (normalize_name to_lower name)) (escape_free (normalize_name to_lower name'))
          (ap (drop 14) h) in
      let (b, rest') = first_colon (sort_text sort) (sort_text sort') _ _ p q (ap (drop 8) rest) in
      let (c, _) = itoa_colon m m' _ _ rest' in (escape_injective _ _ a, b, c)
  cache-IsSame search_results (query, sort, m, limit, offset) (query', sort', m', limit', offset') p
        q h =
      let (a, rest) =
        first_colon (sha256_hex sha256 (trim_space query)) (sha256_hex sha256 (trim_space query')) _
          _ (sha256_hex-colon_free (trim_space query)) (sha256_hex-colon_free (trim_space query'))
          (ap (drop 16) h) in
      let (b, rest') = first_colon (sort_text sort) (sort_text sort') _ _ p q rest in
      let (c, rest'') = itoa_colon m m' _ _ rest' in
      let (d, e) = itoa_colon limit limit' _ _ rest'' in
      (a, b, c, d, itoa_injective offset offset' e)
  cache-IsSame tags_list (limit, offset) (limit', offset') p q h =
      let (a, b) = itoa_colon limit limit' _ _ (ap (drop 19) h) in
      ap₂ (λ x y. (x, y)) a (itoa_injective offset offset' b)
  cache-IsSame archive_today m m' p q h = itoa_injective m m' (ap (drop 23) h)
  cache-IsSame archive_past m m' p q h = itoa_injective m m' (ap (drop 22) h)
  cache-IsSame yearly_ranking (year, m) (year', m') p q h =
      let (a, b) = itoa_colon year year' _ _ (ap (drop 25) h) in
      ap₂ (λ x y. (x, y)) a (itoa_injective m m' b)
  cache-IsSame monthly_ranking ((year, month), m) ((year', month'), m') p q h =
      same_period year month m year' month' m' (ap (drop 26) h)
  cache-IsSame weekly_ranking ((year, week), m) ((year', week'), m') p q h =
      same_period year week m year' week' m' (ap (drop 25) h)

  cache-IsSame_at :
      (k : CacheKind) (a : Args k) (j : CacheKind) (e : k ≡ j) (b : Args j)
      → HasPlainSort k a
      → HasPlainSort j b
      → key k a ≡ key j b
      → IsSame j (subst Args e a) b
  cache-IsSame_at k a j e =
      coe 0 1
        (i.
          (b : Args (e i))
          → HasPlainSort k a
          → HasPlainSort (e i) b
          → key k a ≡ key (e i) b
          → IsSame (e i) (coe 0 i (l. Args (e l)) a) b)
        (cache-IsSame k a)

  -- Where url.QueryEscape leaves no colon and can be undone: two keys that are equal, for sorts
  -- without a colon, are keys of one cache for the same arguments: the same date, numbers and sort,
  -- tags with the same normalized name, and queries whose trimmed texts have the same SHA-256 sum.
  pub cache_key_lem :
      (k : CacheKind) (a : Args k) (j : CacheKind) (b : Args j)
      → HasPlainSort k a
      → HasPlainSort j b
      → key k a ≡ key j b
      → (e : k ≡ j) × IsSame j (subst Args e a) b
  cache_key_lem k a j b p q h =
      let e = sym (kind_of-key k a) ∙ ap kind_of h ∙ kind_of-key j b in
      (e, cache-IsSame_at k a j e b p q h)
