-- ===== src/Infra/Hatena.antt =====
-- internal/infra/external/hatena/bookmark_count.go and NewClient of client.go: the bookmark counts of
-- many URLs, asked for in chunks. The HTTP request with its JSON is a parameter.
pub mod Chunks
pub mod Examples
use hateblog_backend.Common.{
  ℕ, zero, suc, ◌+◌, ◌-◌, ◌/◌, ap, ◌||◌, Option, none, some, List, [], ◌∷◌, ◌++◌, map, ltb, leb,
  if◌then◌else◌, length, take, drop, any, ℤ, pos, pos_part, ltb_ℤ, leb_ℤ, Result, ok, err, Bytes,
  is_empty, trim_space, has_text,
}
use hateblog_backend.Usecase.Ports.{Fault}

-- `map[string]int`
abbrev pub Counts : Type 0
Counts = List (Bytes × ℤ)

abbrev pub max_url_upper_bound : ℕ
max_url_upper_bound = 50

-- The field bookmarkCountMaxURLs that NewClient sets.
unfoldable pub max_urls : ℤ → ℕ
max_urls configured =
    if leb_ℤ configured (pos 0) || ltb_ℤ (pos max_url_upper_bound) configured
    then max_url_upper_bound
    else pos_part configured

-- The loop of `dedupeURLs`, with the map `seen`.
dedupe_from : List Bytes → List Bytes → List Bytes
dedupe_from seen [] = []
dedupe_from seen (u ∷ urls) =
    let t = trim_space u in
    let skipped = dedupe_from seen urls in
    let kept = dedupe_from (t ∷ seen) urls in
    if is_empty t then skipped else if has_text t seen then skipped else t ∷ kept

unfoldable pub dedupe_urls : List Bytes → List Bytes
unfolding dedupe_from
dedupe_urls input = dedupe_from [] input

-- `cleanList[start:end]` with the end of a chunk.
abbrev pub chunk_at : List Bytes → ℕ → ℕ → List Bytes
chunk_at urls start most =
    let end = if ltb (length urls) (start + most) then length urls else start + most in
    take (end - start) (drop start urls)

module _ (request : List Bytes → Result Fault Counts) where
  -- The loop over the chunks; `none` means that the fuel ran out. A later count replaces an earlier.
  count_chunks : ℕ → List Bytes → ℕ → ℕ → Counts → Option (Result Fault Counts)
  count_chunks zero urls most start counts = none
  count_chunks (suc fuel) urls most start counts =
      let rest : Counts → Option (Result Fault Counts) =
        λ part. count_chunks fuel urls most (start + most) (part ++ counts) in
      if ltb start (length urls)
      then elim (request (chunk_at urls start most)) [ err f ↦ some (err f) | ok part ↦ rest part ]
      else some (ok counts)

  -- A round takes at least one URL, so there are at most as many rounds as URLs, and the last test.
  unfoldable pub fetch_bookmark_counts : ℕ → List Bytes → Option (Result Fault Counts)
  unfolding count_chunks
  fetch_bookmark_counts most urls =
      let clean = dedupe_urls urls in
      if is_empty clean then some (ok []) else count_chunks (suc (length clean)) clean most 0 []
