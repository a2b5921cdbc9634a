-- ===== src/Infra/Hatena/Examples.antt =====
-- Examples of counts asked for in chunks.
use hateblog_backend.Common.{
  ◌≤◌, ◌<◌, ◌≡◌, refl, inl, inr, not, ◌&&◌, Option, none, some, List, [], ◌∷◌, map, arith,
  if◌then◌else◌, Bool-cases, ℤ, pos, Result, ok, Bytes, bytes_eq, is_empty, trim_space, has_text,
  find_text,
}
use hateblog_backend.Infra.Hatena.{Counts, dedupe_urls, fetch_bookmark_counts, max_urls}
use hateblog_backend.Infra.Hatena.Chunks.{Answers, fetch_bookmark_counts_total, max_urls_bounds}
use hateblog_backend.Usecase.Ports.{Fault}

-- A service that has 7 bookmarks for each URL.
abbrev sevens : List Bytes → Counts
sevens [] = []
sevens (u ∷ us) = (u, pos 7) ∷ sevens us

abbrev request : List Bytes → Result Fault Counts
request c = ok (sevens c)

abbrev value : Bytes → Option ℤ
value u = some (pos 7)

find_text-sevens :
    (c : List Bytes) (u : Bytes) → find_text (sevens c) u ≡ (if has_text u c then value u else none)
find_text-sevens [] u = refl
find_text-sevens (v ∷ c) u = elim (Bool-cases (bytes_eq v u)) [
  | inl same ↦ rw same refl
  | inr other ↦ rw other (find_text-sevens c u)
]

request-Answers : Answers request 2 value
request-Answers c fits = (sevens c, refl, find_text-sevens c)

-- Three URLs, one of them blank, one given twice with spaces around it.
abbrev given : List Bytes
given = (97 ∷ []) ∷ (32 ∷ []) ∷ (98 ∷ []) ∷ (32 ∷ 97 ∷ []) ∷ (99 ∷ []) ∷ []

asked_test : dedupe_urls given ≡ (97 ∷ []) ∷ (98 ∷ []) ∷ (99 ∷ []) ∷ []
unfolding dedupe_urls trim_space
asked_test = refl

fetch_bookmark_counts_total_example :
    (out : Counts) × (fetch_bookmark_counts request 2 given ≡ some (ok out))
    × ((u : Bytes)
        → find_text out u
          ≡ (if not (is_empty u) && has_text u (map trim_space given) then value u else none))
fetch_bookmark_counts_total_example =
    fetch_bookmark_counts_total request 2 value (omega arith) request-Answers given

max_urls_bounds_example : (0 < max_urls (pos 80)) × (max_urls (pos 80) ≤ 50)
max_urls_bounds_example = max_urls_bounds (pos 80)
