-- ===== src/Usecase/Search.antt =====
-- internal/usecase/search/service.go: the search by keyword, with its cache and the history of the
-- searches. Logging is left out; a nil cache is `enabled` false.
pub mod Answers
pub mod Examples
use hateblog_backend.Common.{
  zero, ◌+◌, ◌-◌, ◌/◌, Bool, true, false, ◌&&◌, Option, none, some, List, [], ◌∷◌, ◌++◌, ltb, leb,
  if◌then◌else◌, length, all, ℤ, pos, ltb_ℤ, leb_ℤ, eqb_ℤ, Result, ok, err, ◌>>=◌, ◌>>◌, reject_if,
  Bytes, is_empty, trim_space, min,
}
use hateblog_backend.Domain.ListQuery.{
  ListQuery, SortType, sort_hot, sort_new, unset, unsupported, default_limit,
}
use hateblog_backend.Domain.Entry.{Entry}
use hateblog_backend.Usecase.Ports.{Fault, EntryRepository, Cache, found}

pub record SearchParams : Type 0 where
  pub min_bookmark_count : ℤ
  pub limit : ℤ
  pub offset : ℤ
  pub sort : SortType

pub record SearchResult : Type 0 where
  pub query : Bytes
  pub entries : List Entry
  pub total : ℤ
  pub limit : ℤ
  pub offset : ℤ

pub data SearchError : Type 0 where
  q_required : SearchError
  q_too_long : SearchError
  unsupported_sort : Bytes → SearchError
  infra : Fault → SearchError

unfoldable pub or_infra {ℓ} : {A : Type ℓ} → Result Fault A → Result SearchError A
or_infra (ok a) = ok a
or_infra (err f) = err (infra f)

-- The method's local constant `maxLimit`.
abbrev pub max_search_limit : ℤ
max_search_limit = pos 100

abbrev pub search_limit : ℤ → ℤ
search_limit limit =
    let given = if leb_ℤ limit (pos 0) then default_limit else limit in
    if ltb_ℤ max_search_limit given then max_search_limit else given

abbrev pub at_least_zero : ℤ → ℤ
at_least_zero n = if ltb_ℤ n (pos 0) then pos 0 else n

-- The default sort is hot.
unfoldable pub search_sort : SortType → Result SearchError SortType
search_sort sort_hot = ok sort_hot
search_sort sort_new = ok sort_new
search_sort unset = ok sort_hot
search_sort (unsupported raw) = err (unsupported_sort raw)

-- What may refuse a search: the trimmed query, counted in bytes, and the sort.
unfoldable pub check_search : Bytes → SortType → Result SearchError (Bytes × SortType)
unfolding search_sort
check_search query sort = do
  let norm = trim_space query
  reject_if (is_empty norm) q_required
  reject_if (ltb 500 (length norm)) q_too_long
  resolved ← search_sort sort
  ok (norm, resolved)

abbrev pub search_query : Bytes → SortType → ℤ → ℤ → ℤ → ListQuery
search_query norm sort min_users limit offset = record {
  tags = [];
  min_bookmark_count = min_users;
  offset = offset;
  limit = limit;
  sort = sort;
  keyword = norm;
  posted_at_from = 0;
  posted_at_to = 0;
  max_limit_override = pos 0;
}

-- Query, sort, least number of users, limit and offset.
abbrev pub SearchKey : Type 0
SearchKey = Bytes × SortType × ℤ × ℤ × ℤ

abbrev pub search_key : SearchParams → Bytes → SortType → SearchKey
search_key p norm sort =
    (norm, sort, at_least_zero p.min_bookmark_count, search_limit p.limit, at_least_zero p.offset)

-- The repository, with its method ListAndCount if it has one.
pub record SearchRepository : Type 0 where
  pub base : EntryRepository
  pub both : Option (ListQuery → Result Fault (List Entry × ℤ))

unfoldable pub list_and_count : SearchRepository → ListQuery → Result Fault (List Entry × ℤ)
list_and_count repo query = elim repo.both [
  | some both ↦ both query
  | none ↦ do entries ← repo.base.list query; total ← repo.base.count query; ok (entries, total)
]

module _ (repo : SearchRepository) (cache : Cache SearchKey SearchResult) (enabled : Bool)
    (has_history : Bool) where
  -- The cache, and the queries for which Record was called, in order. An error of Record is logged.
  abbrev pub State : Type 0
  State = cache.Store × List Bytes

  unfoldable pub record_history : Bytes → List Bytes → List Bytes
  record_history norm history = if has_history then history ++ (norm ∷ []) else history

  -- The search in the repository, and the result made of it.
  unfoldable pub fetch_search : SearchKey → Result SearchError SearchResult
  unfolding list_and_count
  fetch_search (norm, sort, min_users, limit, offset) = do
    (entries, total) ←
        or_infra (list_and_count repo (search_query norm sort min_users limit offset))
    ok (record { query = norm; entries = entries; total = total; limit = limit; offset = offset })

  store_search :
      Bool
      → SearchKey
      → Result SearchError SearchResult
      → State
      → Result SearchError (SearchResult × Bool) × State
  unfolding record_history
  store_search use_cache key (err e) st = (err e, st)
  store_search use_cache key (ok r) (st, history) = (
    ok (r, false),
    (if use_cache then (cache.set st key r).0 else st, record_history key.0 history),
  )

  answer_search :
      Option SearchResult
      → Bool
      → SearchKey
      → State
      → Result SearchError (SearchResult × Bool) × State
  unfolding store_search
  answer_search (some cached) use_cache key (st, history) =
      (ok (cached, true), (st, record_history key.0 history))
  answer_search none use_cache key st = store_search use_cache key (fetch_search key) st

  lookup_search : Bool → SearchKey → State → Result SearchError (SearchResult × Bool) × State
  unfolding answer_search
  lookup_search use_cache key (st, history) =
      answer_search (if use_cache then found (cache.get st key) else none) use_cache key
        (st, history)

  -- Only the first page of 100 goes through the cache.
  abbrev pub uses_cache : SearchParams → Bool
  uses_cache p =
      eqb_ℤ (search_limit p.limit) max_search_limit
      && (eqb_ℤ (at_least_zero p.offset) (pos 0) && enabled)

  search_checked :
      Result SearchError (Bytes × SortType)
      → SearchParams
      → State
      → Result SearchError (SearchResult × Bool) × State
  unfolding lookup_search
  search_checked (err e) p st = (err e, st)
  search_checked (ok (norm, sort)) p st = lookup_search (uses_cache p) (search_key p norm sort) st

  unfoldable pub search_with_cache_status :
      Bytes → SearchParams → State → Result SearchError (SearchResult × Bool) × State
  unfolding search_checked
  search_with_cache_status query p st = search_checked (check_search query p.sort) p st
