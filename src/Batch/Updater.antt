-- ===== src/Batch/Updater.antt =====
-- cmd/updater/main.go: bookmark counts are refreshed, and entries whose URL begins with http:// are
-- moved to https://, or merged into the entry that is there. Nothing is rolled back after a failure.
pub mod Https
pub mod Kept
pub mod Merged
pub mod Normalized
pub mod Refresh
pub mod Examples
pub mod Applied
use hateblog_backend.Common.{
  ℕ, suc, Option, none, some, List, [], ◌∷◌, ◌++◌, ltb, if◌then◌else◌, ℤ, pos, ltb_ℤ, Result, ok,
  err, Bytes, codes, bytes_eq, is_empty, trim_space, trim_prefix, find_text, or_else,
}
use hateblog_backend.Usecase.Ports.{Fault}
use hateblog_backend.Infra.Hatena.{Counts}
use hateblog_backend.Batch.Entries.{Table, Statement, SqlError, broken, exec}

-- The rows that `selectTargetURLs` scans: trimmed, without the empty ones.
unfoldable pub target_urls : List Bytes → List Bytes
target_urls [] = []
target_urls (u ∷ urls) =
    let rest = target_urls urls in let t = trim_space u in if is_empty t then rest else t ∷ rest

-- What a function has done when it returns: the table, its two counters, and its error.
pub record Done : Type 0 where
  pub rows : Table
  pub updated : ℕ
  pub other : ℕ
  pub failed : Option SqlError

-- `updated++` if a row was affected.
abbrev pub count_affected : ℕ → ℕ → ℕ
count_affected n updated = if ltb 0 n then suc updated else updated

module _ (failure : Statement → Option Fault) (now : ℤ) where
  -- The loop of `applyCounts`; `other` counts the URLs that have no count.
  apply_from : Counts → List Bytes → Table → ℕ → ℕ → Done
  apply_from counts [] rows updated missing = record {
    rows = rows;
    updated = updated;
    other = missing;
    failed = none;
  }
  apply_from counts (u ∷ urls) rows updated missing =
      let count = find_text counts u in
      let missed : ℕ = elim count [ none ↦ suc missing | some c ↦ missing ] in
      let next : Table → ℕ → Done =
        λ rs n. apply_from counts urls rs (count_affected n updated) missed in
      elim (exec failure (Statement.refresh count now u) rows) [
        | err e ↦ record { rows = rows; updated = updated; other = missed; failed = some e }
        | ok (rs, n) ↦ next rs n
      ]

  unfoldable pub apply_counts : List Bytes → Counts → Table → Done
  unfolding apply_from
  apply_counts urls counts rows = apply_from counts urls rows 0 0

-- `httpEntry`
pub record HttpEntry : Type 0 where
  pub id : Bytes
  pub url : Bytes

unfoldable pub http_prefix : Bytes
http_prefix = codes "http://"

unfoldable pub https_prefix : Bytes
https_prefix = codes "https://"

-- `"https://" + strings.TrimPrefix(e.url, "http://")`
unfoldable pub https_url : Bytes → Bytes
unfolding http_prefix https_prefix
https_url u = https_prefix ++ trim_prefix u http_prefix

-- `counts[u]`: 0 for a URL that is not there.
abbrev pub count_or_zero : Counts → Bytes → ℤ
count_or_zero counts u = elim (find_text counts u) [ none ↦ pos 0 | some c ↦ c ]

unfoldable pub best_count : Counts → Bytes → ℤ
best_count counts u =
    let https_count = count_or_zero counts (https_url u) in
    if ltb_ℤ (count_or_zero counts u) https_count then https_count else count_or_zero counts u

unfoldable pub best_url : Counts → Bytes → Bytes
best_url counts u =
    if ltb_ℤ (count_or_zero counts u) (count_or_zero counts (https_url u)) then https_url u else u

-- The identifier of the row that `findExistingEntries` finds for a URL, the last one in its map.
unfoldable pub find_existing : Table → Bytes → Option Bytes
find_existing [] u = none
find_existing (r ∷ rows) u =
    or_else (find_existing rows u) (if bytes_eq r.url u then some r.id else none)

-- `mergeAndDelete`: the table is changed by the first statement even if the second fails.
unfoldable pub merge_and_delete :
    (Statement → Option Fault) → Bytes → Bytes → ℤ → ℤ → Table → Table × Option SqlError
merge_and_delete failure keep_id delete_id count now rows =
    elim (exec failure (Statement.set_count count now keep_id) rows) [
      | err e ↦ (rows, some e)
      | ok (rs, n) ↦ elim (exec failure (Statement.remove delete_id) rs) [
        | err e ↦ (rs, some e)
        | ok (left, m) ↦ (left, none)
      ]
    ]

module _ (failure : Statement → Option Fault) (now : ℤ) (existing : Bytes → Option Bytes)
    (counts : Counts) where
  -- The loop of `normalizeHTTPURLs`; `other` counts the deleted entries.
  normalize_from : List HttpEntry → Table → ℕ → ℕ → Done
  normalize_from [] rows updated deleted = record {
    rows = rows;
    updated = updated;
    other = deleted;
    failed = none;
  }
  normalize_from (e ∷ es) rows updated deleted =
      let next : Table → ℕ → ℕ → Done = λ rs m k. normalize_from es rs m k in
      let best = best_count counts e.url in
      elim (existing (https_url e.url)) [
        | some kept ↦
            let (rs, outcome) = merge_and_delete failure kept e.id best now rows in
            elim outcome [
              | some f ↦ record { rows = rs; updated = updated; other = deleted; failed = some f }
              | none ↦ next rs (suc updated) (suc deleted)
            ]
        | none ↦
            elim (exec failure (Statement.rewrite (best_url counts e.url) best now e.id) rows) [
              | err f ↦ record { rows = rows; updated = updated; other = deleted; failed = some f }
              | ok (rs, n) ↦ next rs (count_affected n updated) deleted
            ]
      ]

-- The URLs that are asked for: each entry's, and the one with https.
unfoldable pub both_urls : List HttpEntry → List Bytes
both_urls [] = []
both_urls (e ∷ es) = e.url ∷ https_url e.url ∷ both_urls es

-- The entries with https are read once, from the table before the loop; that may fail, and the
-- request for the counts too.
unfoldable pub normalize_http_urls :
    (Statement → Option Fault)
    → ℤ
    → Option Fault
    → (List Bytes → Result Fault Counts)
    → List HttpEntry
    → Table
    → Done
unfolding normalize_from
normalize_http_urls failure now select_failure get_counts es rows =
    let stop : Option SqlError → Done =
      λ f. record { rows = rows; updated = 0; other = 0; failed = f } in
    if is_empty es then stop none else elim select_failure [
      | some f ↦ stop (some (broken f))
      | none ↦ elim (get_counts (both_urls es)) [
        | err f ↦ stop (some (broken f))
        | ok counts ↦ normalize_from failure now (find_existing rows) counts es rows 0 0
      ]
    ]
