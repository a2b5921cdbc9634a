-- ===== src/Batch/Updater/Merged.antt =====
-- What one step of `normalizeHTTPURLs` leaves as it is, for the entries that come later.
use hateblog_backend.Common.{
  ◌≡◌, refl, sym, ap, ◌∙◌, subst, ◌⊎◌, inl, inr, Bool, true, false, not, ◌&&◌, ◌||◌, Option, none,
  some, List, [], ◌∷◌, map, arith, if◌then◌else◌, Bool-cases, ℤ, ltb_ℤ, Bytes, bytes_eq,
  bytes_eq_sym, bytes_eq_sound, bytes_eq_refl, has_text,
}
use hateblog_backend.Infra.Hatena.{Counts}
use hateblog_backend.Batch.Entries.{
  Table, Statement, SqlError, unique_violation, broken, breaks_unique,
}
use hateblog_backend.Batch.Updater.{HttpEntry, https_url, count_or_zero, best_url}
use hateblog_backend.Batch.Updater.Https.{IsHttp, http_neq_https, https_url_inj}
use hateblog_backend.Batch.Updater.Refresh.{has_url}
use hateblog_backend.Batch.Updater.Kept.{
  Matches, after, has_url-set_count, has_url-remove, has_url-rewrite, Matches-set_count,
  Matches-remove, Matches-rewrite, breaks_unique_same, breaks_unique_free,
}

abbrev pub is_violation : Option SqlError → Bool
is_violation none = false
is_violation (some unique_violation) = true
is_violation (some (broken f)) = false

abbrev pub is_some {ℓ} : {A : Type ℓ} → Option A → Bool
is_some none = false
is_some (some a) = true

-- The URL, or the one with https:// made of it, is in the table.
abbrev pub is_kept : Table → Bytes → Bool
is_kept rows u = has_url rows u || has_url rows (https_url u)

if_either {ℓ} :
    {A : Type ℓ} (b : Bool) {x y : A} → ((if b then x else y) ≡ y) ⊎ ((if b then x else y) ≡ x)
if_either true = inr refl
if_either false = inl refl

module _ (existing : Bytes → Option Bytes) where
  -- What the loop relies on for the entries that it has not come to yet.
  abbrev pub Ready : List HttpEntry → Table → Type 0
  Ready [] rows = Unit
  Ready (e ∷ es) rows =
      IsHttp e.url
      × Matches e rows
      × (is_some (existing (https_url e.url)) ≡ has_url rows (https_url e.url))
      × (has_text e.url (map (λ f. f.url) es) ≡ false)
      × Ready es rows

  -- A table in which the same holds for the entries other than `e`, since it has changed only for `e`.
  abbrev pub SameFor : HttpEntry → Table → Table → Type 0
  SameFor e rows rows' =
      (f : HttpEntry)
      → IsHttp f.url
      → bytes_eq e.url f.url ≡ false
      → Matches f rows
      → Matches f rows' × (has_url rows' (https_url f.url) ≡ has_url rows (https_url f.url))

  pub Ready-step :
      (e : HttpEntry) (es : List HttpEntry) (rows rows' : Table)
      → has_text e.url (map (λ f. f.url) es) ≡ false
      → SameFor e rows rows'
      → Ready es rows
      → Ready es rows'
  Ready-step e [] rows rows' fresh same r = tt
  Ready-step e (f ∷ es) rows rows' fresh same (http, m, known, apart, rest) =
      let not_f : bytes_eq e.url f.url ≡ false = bytes_eq_sym e.url f.url ∙ ground arith in
      let (m', url') = same f http not_f m in
      (http, m', known ∙ sym url', apart, Ready-step e es rows rows' (ground arith) same rest)

  -- What is kept in a table, if no URL but that of `e` goes, and that one for the one with https://.
  is_kept_step :
      (e : HttpEntry) (rows rows' : Table)
      → IsHttp e.url
      → ((v : Bytes) → bytes_eq e.url v ≡ false → has_url rows v ≡ true → has_url rows' v ≡ true)
      → (has_url rows e.url ≡ true → is_kept rows' e.url ≡ true)
      → (u : Bytes) → is_kept rows u ≡ true
      → is_kept rows' u ≡ true
  is_kept_step e rows rows' http stay moved u kept = elim (Bool-cases (bytes_eq e.url u)) [
    | inl same ↦
        let at : e.url ≡ u = bytes_eq_sound e.url u same in
        let other : has_url rows (https_url e.url) ≡ true → has_url rows' (https_url e.url) ≡ true =
          stay (https_url e.url) (http_neq_https e.url e.url http) in
        subst (λ w. is_kept rows' w ≡ true) at
          (ground (arith, moved, other, subst (λ w. is_kept rows w ≡ true) (sym at) kept))
    | inr apart ↦
        ground (arith, stay u apart, stay (https_url u) (http_neq_https e.url u http), kept)
  ]

  -- After both statements of `mergeAndDelete`.
  abbrev pub merged : Bytes → ℤ → ℤ → HttpEntry → Table → Table
  merged kept c now e rows =
      after (Statement.remove e.id) (after (Statement.set_count c now kept) rows)

  has_url-merged :
      (kept : Bytes) (c now : ℤ) (e : HttpEntry) (v : Bytes) (rows : Table)
      → Matches e rows
      → has_url (merged kept c now e rows) v ≡ (has_url rows v && not (bytes_eq e.url v))
  has_url-merged kept c now e v rows m =
      has_url-remove e v (after (Statement.set_count c now kept) rows)
        (Matches-set_count c now kept e rows m)
      ∙ ap (λ b. b && not (bytes_eq e.url v)) (has_url-set_count c now kept v rows)

  pub SameFor-merged :
      (kept : Bytes) (c now : ℤ) (e : HttpEntry) (rows : Table)
      → IsHttp e.url
      → Matches e rows
      → SameFor e rows (merged kept c now e rows)
  SameFor-merged kept c now e rows http m f http' apart n = (
    Matches-remove e.id f _ (Matches-set_count c now kept f rows n),
    has_url-merged kept c now e (https_url f.url) rows m
        ∙ ground (arith, http_neq_https e.url f.url http),
  )

  -- The new URL of a rewritten entry is its own or the one with https, which no other entry has.
  unfoldable pub IsNew : HttpEntry → Bytes → Type 0
  IsNew e u = (u ≡ e.url) ⊎ (u ≡ https_url e.url)

  pub best_url-IsNew : (counts : Counts) (e : HttpEntry) → IsNew e (best_url counts e.url)
  unfolding best_url IsNew
  best_url-IsNew counts e =
      if_either (ltb_ℤ (count_or_zero counts e.url) (count_or_zero counts (https_url e.url)))

  IsNew-apart :
      (e f : HttpEntry) (u : Bytes)
      → IsHttp e.url
      → IsHttp f.url
      → bytes_eq e.url f.url ≡ false
      → IsNew e u
      → (bytes_eq u f.url ≡ false) × (bytes_eq u (https_url f.url) ≡ false)
  unfolding IsNew
  IsNew-apart e f u http http' apart (inl own) = rw own (apart, http_neq_https e.url f.url http)
  IsNew-apart e f u http http' apart (inr moved) = rw moved (
    bytes_eq_sym (https_url e.url) f.url ∙ http_neq_https f.url e.url http',
    https_url_inj e.url f.url http http' ∙ apart,
  )

  pub SameFor-rewrite :
      (u : Bytes) (c now : ℤ) (e : HttpEntry) (rows : Table)
      → IsNew e u
      → IsHttp e.url
      → Matches e rows
      → SameFor e rows (after (Statement.rewrite u c now e.id) rows)
  SameFor-rewrite u c now e rows new http m f http' apart n =
      let (not_url, not_https) = IsNew-apart e f u http http' apart new in
      (
        Matches-rewrite e f u c now rows apart not_url m n,
        has_url-rewrite e u (https_url f.url) c now rows m
            ∙ ground (arith, http_neq_https e.url f.url http),
      )

  pub rewrite_fits :
      (u : Bytes) (c now : ℤ) (e : HttpEntry) (rows : Table)
      → IsNew e u
      → Matches e rows
      → has_url rows (https_url e.url) ≡ false
      → breaks_unique (Statement.rewrite u c now e.id) rows ≡ false
  unfolding IsNew
  rewrite_fits u c now e rows (inl own) m free = rw own (breaks_unique_same e c now rows m)
  rewrite_fits u c now e rows (inr moved) m free =
      rw moved (breaks_unique_free e.id (https_url e.url) c now rows free)

  pub kept-merged :
      (kept : Bytes) (c now : ℤ) (e : HttpEntry) (rows : Table)
      → IsHttp e.url
      → Matches e rows
      → has_url rows (https_url e.url) ≡ true
      → (u : Bytes) → is_kept rows u ≡ true
      → is_kept (merged kept c now e rows) u ≡ true
  kept-merged kept c now e rows http m there =
      is_kept_step e rows (merged kept c now e rows) http
        (λ v apart h. has_url-merged kept c now e v rows m ∙ ground (arith, apart, h))
        (λ h. ground (
          arith,
          has_url-merged kept c now e (https_url e.url) rows m,
          there,
          http_neq_https e.url e.url http,
        ))

  pub kept-rewrite :
      (u : Bytes) (c now : ℤ) (e : HttpEntry) (rows : Table)
      → IsNew e u
      → IsHttp e.url
      → Matches e rows
      → (v : Bytes) → is_kept rows v ≡ true
      → is_kept (after (Statement.rewrite u c now e.id) rows) v ≡ true
  unfolding IsNew
  kept-rewrite u c now e rows new http m =
      let rows' = after (Statement.rewrite u c now e.id) rows in
      let there : (v : Bytes) → u ≡ v → has_url rows e.url ≡ true → has_url rows' v ≡ true =
        λ v at h.
          has_url-rewrite e u v c now rows m
          ∙ ground (arith, h, ap (λ w. bytes_eq w v) at, bytes_eq_refl v) in
      is_kept_step e rows rows' http
        (λ v apart h. has_url-rewrite e u v c now rows m ∙ ground (arith, apart, h))
        (λ h. elim new [
          | inl own ↦ ground (arith, there e.url own h)
          | inr moved ↦ ground (arith, there (https_url e.url) moved h)
        ])
