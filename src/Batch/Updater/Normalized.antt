-- ===== src/Batch/Updater/Normalized.antt =====
-- The whole loop of `normalizeHTTPURLs`, wherever it stops.
use hateblog_backend.Common.{
  ℕ, suc, ◌≡◌, refl, sym, ap, ap₂, ◌∙◌, ◌⊎◌, inl, inr, Bool, true, false, ◌||◌, Option, none, some,
  List, [], ◌∷◌, map, if◌then◌else◌, Bool-cases, Option-cases, ℤ, Result, ok, err, Bytes, bytes_eq,
  is_empty, has_text, or_else,
}
use hateblog_backend.Usecase.Ports.{Fault}
use hateblog_backend.Infra.Hatena.{Counts}
use hateblog_backend.Batch.Entries.{Table, Statement, broken, exec, breaks_unique, affected}
use hateblog_backend.Batch.Updater.{
  both_urls, Done, HttpEntry, count_affected, https_url, best_url, best_count, merge_and_delete,
  normalize_from, normalize_http_urls, find_existing,
}
use hateblog_backend.Batch.Updater.Https.{IsHttp}
use hateblog_backend.Batch.Updater.Refresh.{has_url}
use hateblog_backend.Batch.Updater.Kept.{Matches, after, has_url-set_count}
use hateblog_backend.Batch.Updater.Merged.{
  is_violation, is_some, is_kept, Ready, Ready-step, merged, SameFor-merged, best_url-IsNew,
  SameFor-rewrite, rewrite_fits, kept-merged, kept-rewrite,
}

-- No violation of the constraint, and no URL lost.
abbrev IsSafe : Table → Done → Type 0
IsSafe rows d =
    (is_violation d.failed ≡ false)
    × ((u : Bytes) → is_kept rows u ≡ true → is_kept d.rows u ≡ true)

IsSafe-trans :
    (rows rows' : Table) (d : Done)
    → ((u : Bytes) → is_kept rows u ≡ true → is_kept rows' u ≡ true)
    → IsSafe rows' d
    → IsSafe rows d
IsSafe-trans rows rows' d step (fine, rest) = (fine, λ u h. rest u (step u h))

module _ (failure : Statement → Option Fault) (now : ℤ) (existing : Bytes → Option Bytes)
    (counts : Counts) where
  abbrev run : List HttpEntry → Table → ℕ → ℕ → Done
  run = normalize_from failure now existing counts

  abbrev set_statement : HttpEntry → Bytes → Statement
  set_statement e kept = Statement.set_count (best_count counts e.url) now kept

  abbrev rewrite_statement : HttpEntry → Statement
  rewrite_statement e = Statement.rewrite (best_url counts e.url) (best_count counts e.url) now e.id

  exec_ok :
      (s : Statement) (rows : Table)
      → failure s ≡ none
      → breaks_unique s rows ≡ false
      → exec failure s rows ≡ ok (after s rows, affected s rows)
  unfolding exec
  exec_ok s rows h fits = rw (exec, h, fits) refl

  exec_fails :
      (s : Statement) (rows : Table) (f : Fault)
      → failure s ≡ some f
      → exec failure s rows ≡ err (broken f)
  unfolding exec
  exec_fails s rows f h = rw (exec, h) refl

  -- The three ways in which `mergeAndDelete` ends.
  merge_cases :
      (kept : Bytes) (e : HttpEntry) (c : ℤ) (rows : Table)
      → ((f : Fault) × (merge_and_delete failure kept e.id c now rows ≡ (rows, some (broken f))))
        ⊎ (((f : Fault) × (merge_and_delete failure kept e.id c now rows
                ≡ (after (Statement.set_count c now kept) rows, some (broken f))))
            ⊎ (merge_and_delete failure kept e.id c now rows
                ≡ (merged existing kept c now e rows, none)))
  unfolding merge_and_delete breaks_unique
  merge_cases kept e c rows =
      let s = Statement.set_count c now kept in
      let d = Statement.remove e.id in
      elim (Option-cases (failure s)) [
        | inr (f, h) ↦ inl (f, rw (merge_and_delete, exec_fails s rows f h) refl)
        | inl set ↦ elim (Option-cases (failure d)) [
          | inr (f, h) ↦ inr (
              inl (
                f,
                rw (merge_and_delete, exec_ok s rows set refl, exec_fails d (after s rows) f h)
                    refl,
              ))
          | inl removed ↦ inr (
              inr (
                rw
                  (merge_and_delete, exec_ok s rows set refl, exec_ok d (after s rows) removed refl)
                  refl))
        ]
      ]

  merge-IsSafe :
      (e : HttpEntry) (es : List HttpEntry) (rows : Table) (m k : ℕ) (kept : Bytes)
      → existing (https_url e.url) ≡ some kept
      → Ready existing (e ∷ es) rows
      → ((rows' : Table) (m' k' : ℕ) → Ready existing es rows' → IsSafe rows' (run es rows' m' k'))
      → IsSafe rows (run (e ∷ es) rows m k)
  unfolding normalize_from
  merge-IsSafe e es rows m k kept at (http, matches, known, fresh, rest) next =
      let c = best_count counts e.url in
      let there : has_url rows (https_url e.url) ≡ true = sym known ∙ ap is_some at in
      elim (merge_cases kept e c rows) [
        | inl (f, way) ↦ rw (normalize_from, at, way, way) (refl, λ u h. h)
        | inr (inl (f, way)) ↦
            rw (normalize_from, at, way, way)
              (
                refl,
                λ u h.
                    ap₂ ◌||◌ (has_url-set_count c now kept u rows)
                      (has_url-set_count c now kept (https_url u) rows)
                    ∙ h,
              )
        | inr (inr way) ↦
            let left = merged existing kept c now e rows in
            let step : run (e ∷ es) rows m k ≡ run es left (suc m) (suc k) =
              rw (normalize_from, at, way, way) refl in
            rw step (
              IsSafe-trans rows left (run es left (suc m) (suc k))
                (kept-merged existing kept c now e rows http matches there)
                (next left (suc m) (suc k) (
                  Ready-step existing e es rows left fresh
                    (SameFor-merged existing kept c now e rows http matches) rest)))
      ]

  rewrite-IsSafe :
      (e : HttpEntry) (es : List HttpEntry) (rows : Table) (m k : ℕ)
      → existing (https_url e.url) ≡ none
      → Ready existing (e ∷ es) rows
      → ((rows' : Table) (m' k' : ℕ) → Ready existing es rows' → IsSafe rows' (run es rows' m' k'))
      → IsSafe rows (run (e ∷ es) rows m k)
  unfolding normalize_from
  rewrite-IsSafe e es rows m k at (http, matches, known, fresh, rest) next =
      let c = best_count counts e.url in
      let u = best_url counts e.url in
      let s = rewrite_statement e in
      let new = best_url-IsNew existing counts e in
      let free : has_url rows (https_url e.url) ≡ false = sym known ∙ ap is_some at in
      elim (Option-cases (failure s)) [
        | inr (f, h) ↦ rw (normalize_from, at, exec_fails s rows f h) (refl, λ u h. h)
        | inl rewritten ↦
            let n = count_affected (affected s rows) m in
            let step : run (e ∷ es) rows m k ≡ run es (after s rows) n k =
              rw
                (
                  normalize_from,
                  at,
                  exec_ok s rows rewritten (rewrite_fits existing u c now e rows new matches free),
                )
                refl in
            rw step (
              IsSafe-trans rows (after s rows) (run es (after s rows) n k)
                (kept-rewrite existing u c now e rows new http matches)
                (next (after s rows) n k (
                  Ready-step existing e es rows (after s rows) fresh
                    (SameFor-rewrite existing u c now e rows new http matches) rest)))
      ]

  normalize_from-IsSafe :
      (es : List HttpEntry) (rows : Table) (m k : ℕ)
      → Ready existing es rows
      → IsSafe rows (run es rows m k)
  unfolding normalize_from
  normalize_from-IsSafe [] rows m k ready = (refl, λ u h. h)
  normalize_from-IsSafe (e ∷ es) rows m k ready = elim (Option-cases (existing (https_url e.url))) [
    | inl at ↦ rewrite-IsSafe e es rows m k at ready (normalize_from-IsSafe es)
    | inr (kept, at) ↦ merge-IsSafe e es rows m k kept at ready (normalize_from-IsSafe es)
  ]

-- What the rows of `selectHTTPEntries` are: each URL begins with http:// and stands once, and the
-- rows with it are those with the entry's identifier, since both are unique.
abbrev pub AreSelected : List HttpEntry → Table → Type 0
AreSelected [] rows = Unit
AreSelected (e ∷ es) rows =
    IsHttp e.url
    × Matches e rows
    × (has_text e.url (map (λ f. f.url) es) ≡ false)
    × AreSelected es rows

is_some-or_else :
    (o : Option Bytes) (i : Bytes) (b : Bool)
    → is_some (or_else o (if b then some i else none)) ≡ (b || is_some o)
is_some-or_else none i true = refl
is_some-or_else none i false = refl
is_some-or_else (some j) i true = refl
is_some-or_else (some j) i false = refl

find_existing-has_url : (rows : Table) (u : Bytes) → is_some (find_existing rows u) ≡ has_url rows u
unfolding find_existing
find_existing-has_url [] u = refl
find_existing-has_url (r ∷ rows) u =
    is_some-or_else (find_existing rows u) r.id (bytes_eq r.url u)
    ∙ ap (λ b. bytes_eq r.url u || b) (find_existing-has_url rows u)

AreSelected-Ready :
    (es : List HttpEntry) (rows : Table) → AreSelected es rows → Ready (find_existing rows) es rows
AreSelected-Ready [] rows s = tt
AreSelected-Ready (e ∷ es) rows (http, matches, fresh, rest) = (
  http,
  matches,
  find_existing-has_url rows (https_url e.url),
  fresh,
  AreSelected-Ready es rows rest,
)

Result-cases {ℓ} :
    {A : Type ℓ} (o : Result Fault A) → ((a : A) × (o ≡ ok a)) ⊎ ((f : Fault) × (o ≡ err f))
Result-cases (ok a) = inl (a, refl)
Result-cases (err f) = inr (f, refl)

normalize_http_urls-IsSafe :
    (failure : Statement → Option Fault) (now : ℤ) (select_failure : Option Fault)
    (get_counts : List Bytes → Result Fault Counts) (es : List HttpEntry) (rows : Table)
    → AreSelected es rows
    → IsSafe rows (normalize_http_urls failure now select_failure get_counts es rows)
unfolding normalize_http_urls
normalize_http_urls-IsSafe failure now select_failure get_counts es rows selected =
    elim (Bool-cases (is_empty es)) [
      | inl none_given ↦ rw (normalize_http_urls, none_given) (refl, λ u h. h)
      | inr given ↦ elim (Option-cases select_failure) [
        | inr (f, h) ↦ rw (normalize_http_urls, given, h) (refl, λ u h. h)
        | inl fine ↦ elim (Result-cases (get_counts (both_urls es))) [
          | inl (counts, h) ↦
              rw (normalize_http_urls, given, fine, h)
                (normalize_from-IsSafe failure now (find_existing rows) counts es rows 0 0
                  (AreSelected-Ready es rows selected))
          | inr (f, h) ↦ rw (normalize_http_urls, given, fine, h) (refl, λ u h. h)
        ]
      ]
    ]

-- A run for selected entries never breaks the unique constraint on URLs, and a URL that was in the
-- table before, itself or with https://, is still there afterwards in one of these forms, whatever the
-- counts are and at whatever statement the run fails.
pub normalize_http_urls_safe :
    (failure : Statement → Option Fault) (now : ℤ) (select_failure : Option Fault)
    (get_counts : List Bytes → Result Fault Counts) (es : List HttpEntry) (rows : Table) (u : Bytes)
    → AreSelected es rows
    → is_kept rows u ≡ true
    → (is_violation (normalize_http_urls failure now select_failure get_counts es rows).failed
        ≡ false)
      × (is_kept (normalize_http_urls failure now select_failure get_counts es rows).rows u ≡ true)
normalize_http_urls_safe failure now select_failure get_counts es rows u selected before =
    let (fine, kept) =
      normalize_http_urls-IsSafe failure now select_failure get_counts es rows selected in
    (fine, kept u before)
