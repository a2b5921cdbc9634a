-- ===== src/Batch/Updater/Applied.antt =====
-- What `applyCounts` has done when it returns, also after a statement that failed.
use hateblog_backend.Common.{
  ℕ, suc, ◌+◌, ◌≡◌, refl, sym, ap, ap₂, ◌∙◌, inl, inr, Bool, true, false, Option, none, some, List,
  [], ◌∷◌, map, arith, Option-cases, length, keep, ℤ, ok, err, Bytes, find_text,
}
use hateblog_backend.Usecase.Ports.{Fault}
use hateblog_backend.Infra.Hatena.{Counts}
use hateblog_backend.Batch.Entries.{
  Table, Statement, SqlError, broken, exec, affected, breaks_unique,
}
use hateblog_backend.Batch.Updater.{Done, count_affected, apply_from, apply_counts}
use hateblog_backend.Batch.Updater.Refresh.{
  refreshed, refresh_row, has_url, filter_map-refresh, map-refreshed, affected_iff, has_url-refresh,
}

abbrev pub has_no_count : Counts → Bytes → Bool
has_no_count counts u = elim (find_text counts u) [ none ↦ true | some c ↦ false ]

Done_eq :
    {rows rows' : Table} {m m' k k' : ℕ} {f f' : Option SqlError}
    → rows ≡ rows'
    → m ≡ m'
    → k ≡ k'
    → f ≡ f'
    → Path Done
        (record { rows = rows; updated = m; other = k; failed = f })
        (record { rows = rows'; updated = m'; other = k'; failed = f' })
Done_eq p q r t = rw (p, q, r, t) refl

keep_same :
    (p q : Bytes → Bool) (us : List Bytes) → ((u : Bytes) → p u ≡ q u) → keep p us ≡ keep q us
keep_same p q [] h = refl
keep_same p q (u ∷ us) h =
    ap₂ (λ b vs. elim b as (λ x. List Bytes) [ true ↦ u ∷ vs | false ↦ vs ]) (h u)
      (keep_same p q us h)

module _ (failure : Statement → Option Fault) (now : ℤ) (counts : Counts) where
  abbrev failure_at : Bytes → Option Fault
  failure_at u = failure (Statement.refresh (find_text counts u) now u)

  -- The URLs before the first one whose statement fails.
  unfoldable pub done_urls : List Bytes → List Bytes
  done_urls [] = []
  done_urls (u ∷ urls) = elim (failure_at u) [ none ↦ u ∷ done_urls urls | some f ↦ [] ]

  -- These, and that one.
  unfoldable pub tried_urls : List Bytes → List Bytes
  tried_urls [] = []
  tried_urls (u ∷ urls) = elim (failure_at u) [ none ↦ u ∷ tried_urls urls | some f ↦ u ∷ [] ]

  unfoldable pub first_failure : List Bytes → Option SqlError
  first_failure [] = none
  first_failure (u ∷ urls) = elim (failure_at u) [
    | none ↦ first_failure urls
    | some f ↦ some (broken f)
  ]

  abbrev outcome : List Bytes → Table → ℕ → ℕ → Done
  outcome urls rows m k = record {
    rows = map (refreshed now counts (done_urls urls)) rows;
    updated = m + length (keep (has_url rows) (done_urls urls));
    other = k + length (keep (has_no_count counts) (tried_urls urls));
    failed = first_failure urls;
  }

  missing_step :
      (u : Bytes) (us : List Bytes) (k : ℕ)
      → k + length (keep (has_no_count counts) (u ∷ us))
        ≡ (elim (find_text counts u) [ none ↦ suc k | some c ↦ k ])
          + length (keep (has_no_count counts) us)
  missing_step u us k = ground arith

  updated_step :
      (u : Bytes) (us : List Bytes) (rows : Table) (m : ℕ)
      → m + length (keep (has_url rows) (u ∷ us))
        ≡ count_affected (affected (Statement.refresh (find_text counts u) now u) rows) m
          + length (keep (has_url (map (refresh_row (find_text counts u) now u) rows)) us)
  updated_step u us rows m =
      rw
        (
          keep_same (has_url (map (refresh_row (find_text counts u) now u) rows)) (has_url rows) us
              (λ v. has_url-refresh (find_text counts u) now u v rows),
          affected_iff (find_text counts u) now u rows,
        )
        (ground arith)

  map-refreshed_none : (rows : Table) → map (refreshed now counts []) rows ≡ rows
  unfolding refreshed
  map-refreshed_none [] = refl
  map-refreshed_none (r ∷ rows) = ap (λ rs. r ∷ rs) (map-refreshed_none rows)

  exec_refresh :
      (u : Bytes) (rows : Table)
      → failure_at u ≡ none
      → exec failure (Statement.refresh (find_text counts u) now u) rows
        ≡ ok (
          map (refresh_row (find_text counts u) now u) rows,
          affected (Statement.refresh (find_text counts u) now u) rows,
        )
  unfolding exec breaks_unique
  exec_refresh u rows h = rw (exec, h, filter_map-refresh (find_text counts u) now u rows) refl

  exec_fails :
      (u : Bytes) (rows : Table) (f : Fault)
      → failure_at u ≡ some f
      → exec failure (Statement.refresh (find_text counts u) now u) rows ≡ err (broken f)
  unfolding exec
  exec_fails u rows f h = rw (exec, h) refl

  outcome_fails :
      (u : Bytes) (urls : List Bytes) (rows : Table) (m k : ℕ) (f : Fault)
      → failure_at u ≡ some f
      → outcome (u ∷ urls) rows m k ≡ record {
        rows = rows;
        updated = m;
        other = elim (find_text counts u) [ none ↦ suc k | some c ↦ k ];
        failed = some (broken f);
      }
  unfolding done_urls tried_urls first_failure
  outcome_fails u urls rows m k f h =
      Done_eq (rw (done_urls, h) (map-refreshed_none rows)) (rw (done_urls, h) (omega arith))
        (rw (tried_urls, h) (missing_step u [] k ∙ omega arith)) (rw (first_failure, h) refl)

  outcome_step :
      (u : Bytes) (urls : List Bytes) (rows : Table) (m k : ℕ)
      → failure_at u ≡ none
      → outcome (u ∷ urls) rows m k
        ≡ outcome urls
            (map (refresh_row (find_text counts u) now u) rows)
            (count_affected (affected (Statement.refresh (find_text counts u) now u) rows) m)
            (elim (find_text counts u) [ none ↦ suc k | some c ↦ k ])
  unfolding done_urls tried_urls first_failure
  outcome_step u urls rows m k h =
      Done_eq (rw (done_urls, h) (sym (map-refreshed now counts u (done_urls urls) rows)))
        (rw (done_urls, h) (updated_step u (done_urls urls) rows m))
        (rw (tried_urls, h) (missing_step u (tried_urls urls) k)) (rw (first_failure, h) refl)

  apply_from_lem :
      (urls : List Bytes) (rows : Table) (m k : ℕ)
      → apply_from failure now counts urls rows m k ≡ outcome urls rows m k
  unfolding apply_from done_urls tried_urls first_failure
  apply_from_lem [] rows m k =
      sym (Done_eq (map-refreshed_none rows) (omega arith) (omega arith) refl)
  apply_from_lem (u ∷ urls) rows m k = elim (Option-cases (failure_at u)) [
    | inl fine ↦
        rw (apply_from, exec_refresh u rows fine)
          (apply_from_lem urls _ _ _ ∙ sym (outcome_step u urls rows m k fine))
    | inr (f, h) ↦ rw (apply_from, exec_fails u rows f h) (sym (outcome_fails u urls rows m k f h))
  ]

  -- When a run of `applyCounts` ends, the rows whose URL was refreshed have the count that was found for
  -- it, or the one they had if none was found, and the new time; no other row has changed, and none is
  -- added, removed or moved. `updated` is the number of these URLs that some row has, `missing` that of the URLs tried
  -- without a count, and the error is that of the first statement that failed, if one did.
  pub apply_counts_lem :
      (urls : List Bytes) (rows : Table)
      → apply_counts failure now urls counts rows ≡ record {
        rows = map (refreshed now counts (done_urls urls)) rows;
        updated = length (keep (has_url rows) (done_urls urls));
        other = length (keep (has_no_count counts) (tried_urls urls));
        failed = first_failure urls;
      }
  unfolding apply_counts
  apply_counts_lem urls rows =
      apply_from_lem urls rows 0 0 ∙ Done_eq refl (omega arith) (omega arith) refl
