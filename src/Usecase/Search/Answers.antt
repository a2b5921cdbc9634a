-- ===== src/Usecase/Search/Answers.antt =====
-- What a search answers, and what it leaves in the history.
use hateblog_backend.Common.{
  ◌≡◌, refl, sym, subst, inl, inr, Bool, true, false, Option, none, some, List, [], ◌∷◌, ◌++◌, ltb,
  if◌then◌else◌, length, Result, ok, err, ◌>>=◌, >>=-eq-ok, guard-eq-ok, Bytes, is_empty,
  trim_space,
}
use hateblog_backend.Domain.ListQuery.{SortType}
use hateblog_backend.Usecase.Ports.{is_hit, Cache, IsCache, found, found-some}
use hateblog_backend.Usecase.Search.{
  SearchRepository, SearchParams, SearchResult, SearchError, SearchKey, State, check_search,
  search_limit, at_least_zero, record_history, fetch_search, store_search, answer_search,
  search_checked, search_key, uses_cache, lookup_search, search_sort, q_required, q_too_long,
  search_with_cache_status,
}

module _ (repo : SearchRepository) (cache : Cache SearchKey SearchResult) (enabled : Bool)
    (has_history : Bool) where
  abbrev Outcome : Type 0
  Outcome = Result SearchError (SearchResult × Bool) × State repo cache enabled has_history

  -- What a search leaves: one query more at the end of the history after an answer, where there is
  -- a history, and all as it was after an error.
  abbrev pub IsRecorded : Bytes → cache.Store → List Bytes → Outcome → Type 0
  IsRecorded norm st before (ok r, (st', after)) =
      after ≡ (if has_history then before ++ (norm ∷ []) else before)
  IsRecorded norm st before (err e, after) = after ≡ (st, before)

  store_search-IsRecorded :
      (u : Bool) (key : SearchKey) (r : Result SearchError SearchResult) (st : cache.Store)
      (history : List Bytes)
      → IsRecorded key.0 st history
          (store_search repo cache enabled has_history u key r (st, history))
  unfolding store_search record_history
  store_search-IsRecorded u key (ok r) st history = refl
  store_search-IsRecorded u key (err e) st history = refl

  answer_search-IsRecorded :
      (o : Option SearchResult) (u : Bool) (key : SearchKey) (st : cache.Store)
      (history : List Bytes)
      → IsRecorded key.0 st history
          (answer_search repo cache enabled has_history o u key (st, history))
  unfolding answer_search record_history
  answer_search-IsRecorded (some r) u key st history = refl
  answer_search-IsRecorded none u key st history =
      store_search-IsRecorded u key (fetch_search repo cache enabled has_history key) st history

  lookup_search-IsRecorded :
      (u : Bool) (key : SearchKey) (st : cache.Store) (history : List Bytes)
      → IsRecorded key.0 st history
          (lookup_search repo cache enabled has_history u key (st, history))
  unfolding lookup_search
  lookup_search-IsRecorded u key st history =
      answer_search-IsRecorded (if u then found (cache.get st key) else none) u key st history

  abbrev pair_ok : Bytes → SortType → Result SearchError (Bytes × SortType)
  pair_ok norm s = ok (norm, s)

  check_search-norm :
      (query : Bytes) (sort : SortType) {out : Bytes × SortType}
      → check_search query sort ≡ ok out
      → trim_space query ≡ out.0
  unfolding check_search
  check_search-norm query sort h =
      let norm = trim_space query in
      let (_, h1) = guard-eq-ok (is_empty norm) q_required _ h in
      let (_, h2) = guard-eq-ok (ltb 500 (length norm)) q_too_long _ h1 in
      let (s, _, h3) = >>=-eq-ok (search_sort sort) _ h2 in last s h3
    where
      last :
          (s : SortType) {out : Bytes × SortType}
          → pair_ok (trim_space query) s ≡ ok out
          → trim_space query ≡ out.0
      last s h = cc h

  -- A search that is answered, from the cache or not, adds its trimmed query once, at the end of the
  -- history, where the service has one; a search that fails changes neither history nor cache.
  pub search_with_cache_status-IsRecorded :
      (query : Bytes) (p : SearchParams) (st : cache.Store) (history : List Bytes)
      → IsRecorded
          (trim_space query)
          st
          history
          (search_with_cache_status repo cache enabled has_history query p (st, history))
  unfolding search_with_cache_status search_checked
  search_with_cache_status-IsRecorded query p st history = go (check_search query p.sort) refl
    where
      go :
          (r : Result SearchError (Bytes × SortType))
          → check_search query p.sort ≡ r
          → IsRecorded
              (trim_space query)
              st
              history
              (search_checked repo cache enabled has_history r p (st, history))
      go (err e) h = refl
      go (ok (norm, sort)) h =
          subst
            (λ n.
              IsRecorded n st history
                (search_checked repo cache enabled has_history (ok (norm, sort)) p (st, history)))
            (sym (check_search-norm query p.sort h))
            (lookup_search-IsRecorded (uses_cache repo cache enabled has_history p)
              (search_key p norm sort) st history)

  -- What the repository answers, with no cache.
  abbrev pub direct : Bytes → SearchParams → Result SearchError SearchResult
  direct query p = do
    (norm, sort) ← check_search query p.sort
    fetch_search repo cache enabled has_history (
      norm,
      sort,
      at_least_zero p.min_bookmark_count,
      search_limit p.limit,
      at_least_zero p.offset,
    )

  -- Every result in the cache is what the repository answers for its key.
  abbrev pub IsCoherent : cache.Store → Type 0
  IsCoherent st =
      (key : SearchKey) (r : SearchResult)
      → cache.get st key ≡ ok (some r)
      → fetch_search repo cache enabled has_history key ≡ ok r

  abbrev pub with_status :
      Bool → Result SearchError SearchResult → Result SearchError (SearchResult × Bool)
  with_status hit (ok r) = ok (r, hit)
  with_status hit (err e) = err e

  -- The outcome is the given answer with the cache status, and the cache is coherent.
  abbrev pub IsAnswer : Bool → Result SearchError SearchResult → Outcome → Type 0
  IsAnswer hit a out = (out.0 ≡ with_status hit a) × IsCoherent out.1.0

  -- A search is a hit if it may use the cache, which finds its key.
  abbrev hit_of : Result SearchError (Bytes × SortType) → SearchParams → cache.Store → Bool
  hit_of (err e) p st = false
  hit_of (ok (norm, sort)) p st = is_hit (
      if uses_cache repo cache enabled has_history p
      then found (cache.get st (search_key p norm sort))
      else none)

  abbrev pub is_search_hit : Bytes → SearchParams → cache.Store → Bool
  is_search_hit query p st = hit_of (check_search query p.sort) p st

  store_search-IsAnswer :
      IsCache cache
      → (u : Bool) (key : SearchKey) (a : Result SearchError SearchResult) (st : cache.Store)
        (history : List Bytes)
      → fetch_search repo cache enabled has_history key ≡ a
      → IsCoherent st
      → IsAnswer false a (store_search repo cache enabled has_history u key a (st, history))
  unfolding store_search
  store_search-IsAnswer law u key (err e) st history same coh = (refl, coh)
  store_search-IsAnswer law false key (ok r) st history same coh = (refl, coh)
  store_search-IsAnswer law true key (ok r) st history same coh = (refl, kept)
    where
      kept : IsCoherent (cache.set st key r).0
      kept j w h = elim (law.get-set st key r j w h) [
        | inl (k, v) ↦ rw (k, v) same
        | inr before ↦ coh j w before
      ]

  answer_search-IsAnswer :
      IsCache cache
      → (o : Option SearchResult) (u : Bool) (key : SearchKey) (st : cache.Store)
        (history : List Bytes)
      → ((r : SearchResult) → o ≡ some r → fetch_search repo cache enabled has_history key ≡ ok r)
      → IsCoherent st
      → IsAnswer
          (is_hit o)
          (fetch_search repo cache enabled has_history key)
          (answer_search repo cache enabled has_history o u key (st, history))
  unfolding answer_search
  answer_search-IsAnswer law (some r) u key st history right coh = (rw (right r refl) refl, coh)
  answer_search-IsAnswer law none u key st history right coh =
      store_search-IsAnswer law u key (fetch_search repo cache enabled has_history key) st history
        refl coh

  lookup_search-IsAnswer :
      IsCache cache
      → (u : Bool) (key : SearchKey) (st : cache.Store) (history : List Bytes) → IsCoherent st
      → IsAnswer
          (is_hit (if u then found (cache.get st key) else none))
          (fetch_search repo cache enabled has_history key)
          (lookup_search repo cache enabled has_history u key (st, history))
  unfolding lookup_search
  lookup_search-IsAnswer law u key st history coh =
      answer_search-IsAnswer law (if u then found (cache.get st key) else none) u key st history
        (right u) coh
    where
      right :
          (u : Bool) (r : SearchResult)
          → (if u then found (cache.get st key) else none) ≡ some r
          → fetch_search repo cache enabled has_history key ≡ ok r
      right true r h = coh key r (found-some (cache.get st key) h)
      right false r h = cc h

  -- For a cache that finds only what was set: with a cache that holds only what the repository
  -- answers, a search gives what the repository answers, or the error of the check, with the cache
  -- status, and even if the lookup fails; and the cache stays so.
  pub search_with_cache_status-IsAnswer :
      IsCache cache
      → (query : Bytes) (p : SearchParams) (st : cache.Store) (history : List Bytes) → IsCoherent st
      → IsAnswer
          (is_search_hit query p st)
          (direct query p)
          (search_with_cache_status repo cache enabled has_history query p (st, history))
  unfolding search_with_cache_status search_checked
  search_with_cache_status-IsAnswer law query p st history coh = go (check_search query p.sort)
    where
      go :
          (r : Result SearchError (Bytes × SortType))
          → IsAnswer
              (hit_of r p st)
              (r >>= λ (norm, sort).
                fetch_search repo cache enabled has_history (search_key p norm sort))
              (search_checked repo cache enabled has_history r p (st, history))
      go (err e) = (refl, coh)
      go (ok (norm, sort)) =
          lookup_search-IsAnswer law (uses_cache repo cache enabled has_history p)
            (search_key p norm sort) st history coh
