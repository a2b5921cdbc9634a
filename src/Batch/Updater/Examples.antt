-- ===== src/Batch/Updater/Examples.antt =====
-- Examples of refreshed counts, and of entries moved to https.
use hateblog_backend.Common.{
  ℕ, ◌≡◌, refl, true, false, Option, none, some, List, [], ◌∷◌, map, if◌then◌else◌, length, keep, ℤ,
  pos, Result, ok, Bytes, codes, bytes_eq, has_prefix, trim_prefix,
}
use hateblog_backend.Usecase.Ports.{Fault, fault}
use hateblog_backend.Infra.Hatena.{Counts}
use hateblog_backend.Batch.Entries.{
  exec, breaks_unique, affected, change_row, is_target, change, Row, Table, Statement, broken,
}
use hateblog_backend.Batch.Updater.{
  find_existing, https_url, merge_and_delete, best_url, http_prefix, Done, HttpEntry, apply_counts,
  normalize_http_urls,
}
use hateblog_backend.Batch.Updater.Refresh.{refreshed, has_url}
use hateblog_backend.Batch.Updater.Applied.{
  has_no_count, done_urls, tried_urls, first_failure, apply_counts_lem,
}
use hateblog_backend.Batch.Updater.Merged.{is_violation, is_kept}
use hateblog_backend.Batch.Updater.Normalized.{AreSelected, normalize_http_urls_safe}

abbrev row : ℕ → Bytes → ℤ → Row
row i u c = record { id = i ∷ []; url = u; bookmark_count = c; updated_at = pos 0 }

abbrev a_http : Bytes
a_http = codes "http://a"

abbrev a_https : Bytes
a_https = codes "https://a"

abbrev b_http : Bytes
b_http = codes "http://b"

abbrev rows : Table
rows = row 1 a_http (pos 3) ∷ row 2 a_https (pos 4) ∷ row 3 b_http (pos 5) ∷ []

-- The statement for the last URL fails.
abbrev failure : Statement → Option Fault
failure (Statement.refresh c now u) = if bytes_eq u b_http then some (fault 1) else none
failure (Statement.rewrite u c now i) = none
failure (Statement.set_count c now i) = none
failure (Statement.remove i) = none

abbrev given : List Bytes
given = a_http ∷ a_https ∷ b_http ∷ []

abbrev counts : Counts
counts = (a_https, pos 9) ∷ []

apply_counts_lem_example : Path Done (apply_counts failure (pos 7) given counts rows) (record {
  rows = map (refreshed (pos 7) counts (done_urls failure (pos 7) counts given)) rows;
  updated = length (keep (has_url rows) (done_urls failure (pos 7) counts given));
  other = length (keep (has_no_count counts) (tried_urls failure (pos 7) counts given));
  failed = first_failure failure (pos 7) counts given;
})
apply_counts_lem_example = apply_counts_lem failure (pos 7) counts given rows

applied_test : (apply_counts failure (pos 7) given counts rows).updated ≡ 2
unfolding apply_counts exec breaks_unique affected change_row is_target change
applied_test = refl

failed_test : (apply_counts failure (pos 7) given counts rows).failed ≡ some (broken (fault 1))
unfolding apply_counts exec breaks_unique
failed_test = refl

abbrev selected : List HttpEntry
selected = record { id = 1 ∷ []; url = a_http } ∷ record { id = 3 ∷ []; url = b_http } ∷ []

selected-AreSelected : AreSelected selected rows
unfolding http_prefix has_prefix
selected-AreSelected =
    (refl, (refl, (refl, (refl, tt))), refl, (refl, (refl, (refl, (refl, tt))), refl, tt))

abbrev get_counts : List Bytes → Result Fault Counts
get_counts urls = ok counts

normalize_http_urls_safe_example :
    (is_violation (normalize_http_urls failure (pos 7) none get_counts selected rows).failed
      ≡ false)
    × (is_kept (normalize_http_urls failure (pos 7) none get_counts selected rows).rows a_http
        ≡ true)
unfolding https_url trim_prefix
normalize_http_urls_safe_example =
    normalize_http_urls_safe failure (pos 7) none get_counts selected rows a_http
      selected-AreSelected refl

normalized_test :
    map (λ r. r.url) (normalize_http_urls failure (pos 7) none get_counts selected rows).rows
    ≡ a_https ∷ b_http ∷ []
unfolding normalize_http_urls find_existing https_url trim_prefix merge_and_delete exec
    breaks_unique change_row is_target change best_url
normalized_test = refl
