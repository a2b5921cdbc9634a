-- ===== src/Usecase/Entries.antt =====
-- internal/usecase/entry/service.go: the entries of a day and of a tag. Logging is left out; a nil
-- cache is `enabled` false.
pub mod Paging
pub mod Days
pub mod Examples
use hateblog_backend.Common.{
  ℕ, ◌+◌, ◌-◌, ◌/◌, ap, Bool, true, false, not, ◌&&◌, Option, none, some, List, [], ◌∷◌, ltb, leb,
  if◌then◌else◌, length, take, drop, keep, all, All, ℤ, pos, pos_part, ◌+ℤ◌, ltb_ℤ, leb_ℤ, eqb_ℤ,
  wrap64, Result, ok, err, ◌>>=◌, ◌>>◌, Bytes, is_empty, min,
}
use hateblog_backend.Domain.Entry.{Entry, Time}
use hateblog_backend.Domain.ListQuery.{
  ListQuery, SortType, sort_hot, sort_new, unset, unsupported, default_limit,
}
use hateblog_backend.Pkg.Apptime.{Calendar, RangeError, day_range}
use hateblog_backend.Usecase.Ports.{Fault, EntryRepository, Cache, found}

pub record ListResult : Type 0 where
  pub entries : List Entry
  pub total : ℤ

pub record DayListParams : Type 0 where
  pub date : Bytes
  pub min_bookmark_count : ℤ
  pub offset : ℤ
  pub limit : ℤ

pub record TagListParams : Type 0 where
  pub min_bookmark_count : ℤ
  pub offset : ℤ
  pub limit : ℤ
  pub sort : SortType

-- `panics` is a slice expression out of range.
pub data EntriesError : Type 0 where
  date_required : EntriesError
  tag_required : EntriesError
  unsupported_sort : Bytes → EntriesError
  range : RangeError → EntriesError
  infra : Fault → EntriesError
  panics : EntriesError

unfoldable pub or_infra {ℓ} : {A : Type ℓ} → Result Fault A → Result EntriesError A
or_infra (ok a) = ok a
or_infra (err f) = err (infra f)

unfoldable pub or_range {ℓ} : {A : Type ℓ} → Result RangeError A → Result EntriesError A
or_range (ok a) = ok a
or_range (err e) = err (range e)

unfoldable pub or_panic {ℓ} : {A : Type ℓ} → Option A → Result EntriesError A
or_panic none = err panics
or_panic (some a) = ok a

-- The field maxAllResults.
abbrev pub max_all_results : ℤ
max_all_results = pos 100000

unfoldable pub filter_by_min_users : List Entry → ℤ → List Entry
filter_by_min_users entries min_users =
    let least = if ltb_ℤ min_users (pos 0) then pos 0 else min_users in
    if eqb_ℤ least (pos 0) then entries else keep (λ e. leb_ℤ least e.bookmark_count) entries

unfoldable pub page_from : ℤ → ℤ
page_from offset = if ltb_ℤ offset (pos 0) then pos 0 else offset

unfoldable pub page_count : ℤ → ℤ
page_count limit = if leb_ℤ limit (pos 0) then default_limit else limit

-- `end := offset + limit`, an int that may wrap around, and at most the length.
unfoldable pub page_end : ℕ → ℤ → ℤ → ℤ
page_end len from count =
    let end = wrap64 (from +ℤ count) in if ltb_ℤ (pos len) end then pos len else end

-- `none` is the panic of `entries[offset:end]` with an end before the offset.
unfoldable pub cut_page {ℓ} : {A : Type ℓ} → List A → ℤ → ℤ → Option (List A)
cut_page entries from end =
    if leb_ℤ (pos (length entries)) from
    then some []
    else if ltb_ℤ end from
    then none
    else some (take (pos_part end - pos_part from) (drop (pos_part from) entries))

unfoldable pub paginate {ℓ} : {A : Type ℓ} → List A → ℤ → ℤ → Option (List A)
paginate entries offset limit =
    cut_page entries (page_from offset)
      (page_end (length entries) (page_from offset) (page_count limit))

-- The `less` of the hot order.
unfoldable pub hotter : Entry → Entry → Bool
hotter a b =
    if not (eqb_ℤ a.bookmark_count b.bookmark_count)
    then ltb_ℤ b.bookmark_count a.bookmark_count
    else ltb b.created_at a.created_at

-- The query of `loadAllDayEntries`.
abbrev pub day_query : Time × Time → ListQuery
day_query (from, to) = record {
  tags = [];
  min_bookmark_count = pos 0;
  offset = pos 0;
  limit = max_all_results;
  sort = sort_new;
  keyword = [];
  posted_at_from = from;
  posted_at_to = to;
  max_limit_override = max_all_results;
}

-- `sort_slice` is sort.Slice with the order `hotter`.
module _ (calendar : Calendar) (repo : EntryRepository) (sort_slice : List Entry → List Entry)
    (cache : Cache Bytes (List Entry)) (enabled : Bool) where
  -- The range of the day and its entries.
  unfoldable pub fetch_day : Bytes → Result EntriesError (List Entry)
  fetch_day date = do r ← or_range (day_range calendar date); or_infra (repo.list (day_query r))

  store_day :
      Bytes
      → Result EntriesError (List Entry)
      → cache.Store
      → Result EntriesError (List Entry × Bool) × cache.Store
  store_day date (err e) st = (err e, st)
  store_day date (ok es) st = (ok (es, false), if enabled then (cache.set st date es).0 else st)

  answer_day :
      Option (List Entry)
      → Bytes
      → cache.Store
      → Result EntriesError (List Entry × Bool) × cache.Store
  unfolding store_day
  answer_day (some cached) date st = (ok (cached, true), st)
  answer_day none date st = store_day date (fetch_day date) st

  load_all_day_entries : Bytes → cache.Store → Result EntriesError (List Entry × Bool) × cache.Store
  unfolding answer_day
  load_all_day_entries date st =
      answer_day (if enabled then found (cache.get st date) else none) date st

  unfoldable pub arrange : SortType → List Entry → List Entry
  arrange sort_hot es = sort_slice es
  arrange _ es = es

  -- What `listDayEntriesWithCacheStatus` makes of the entries of the day.
  unfoldable pub page_of_day :
      SortType → DayListParams → List Entry → Result EntriesError ListResult
  unfolding arrange
  page_of_day sort p es = do
    let filtered = arrange sort (filter_by_min_users es p.min_bookmark_count)
    paged ← or_panic (paginate filtered p.offset p.limit)
    ok (record { entries = paged; total = pos (length filtered) })

  with_page :
      SortType
      → DayListParams
      → Result EntriesError (List Entry × Bool)
      → Result EntriesError (ListResult × Bool)
  unfolding page_of_day
  with_page sort p loaded = do (es, hit) ← loaded; page ← page_of_day sort p es; ok (page, hit)

  unfoldable pub list_day_entries_with_cache_status :
      SortType → DayListParams → cache.Store → Result EntriesError (ListResult × Bool) × cache.Store
  unfolding load_all_day_entries with_page
  list_day_entries_with_cache_status sort p st =
      if is_empty p.date
      then (err date_required, st)
      else (let (loaded, st') = load_all_day_entries p.date st in (with_page sort p loaded, st'))

-- The default sort is new.
resolve_sort : SortType → Result EntriesError SortType
resolve_sort sort_hot = ok sort_hot
resolve_sort sort_new = ok sort_new
resolve_sort unset = ok sort_new
resolve_sort (unsupported raw) = err (unsupported_sort raw)

-- The method's local constant `maxLimit`.
abbrev pub max_tag_limit : ℤ
max_tag_limit = pos 100

abbrev pub tag_limit : ℤ → ℤ
tag_limit limit =
    let given = if leb_ℤ limit (pos 0) then default_limit else limit in
    if ltb_ℤ max_tag_limit given then max_tag_limit else given

abbrev pub not_negative : ℤ → ℤ
not_negative n = if ltb_ℤ n (pos 0) then pos 0 else n

abbrev pub tag_query : Bytes → SortType → ℤ → ℤ → ℤ → ListQuery
tag_query name sort limit offset min_users = record {
  tags = name ∷ [];
  min_bookmark_count = min_users;
  offset = offset;
  limit = limit;
  sort = sort;
  keyword = [];
  posted_at_from = 0;
  posted_at_to = 0;
  max_limit_override = max_tag_limit;
}

module _ (repo : EntryRepository) (cache : Cache (Bytes × SortType × ℤ) ListResult)
    (enabled : Bool) where
  pub fetch_tag : Bytes → SortType → ℤ → ℤ → ℤ → Result EntriesError ListResult
  fetch_tag name sort limit offset min_users = do
    entries ← or_infra (repo.list (tag_query name sort limit offset min_users))
    total ← or_infra (repo.count (tag_query name sort limit offset min_users))
    ok (record { entries = entries; total = total })

  store_tag :
      Bool
      → Bytes × SortType × ℤ
      → Result EntriesError ListResult
      → cache.Store
      → Result EntriesError (ListResult × Bool) × cache.Store
  store_tag use_cache key (err e) st = (err e, st)
  store_tag use_cache key (ok r) st =
      (ok (r, false), if use_cache then (cache.set st key r).0 else st)

  answer_tag :
      Option ListResult
      → Bool
      → Bytes
      → SortType
      → ℤ
      → ℤ
      → ℤ
      → cache.Store
      → Result EntriesError (ListResult × Bool) × cache.Store
  unfolding store_tag
  answer_tag (some cached) use_cache name sort limit offset min_users st = (ok (cached, true), st)
  answer_tag none use_cache name sort limit offset min_users st =
      store_tag use_cache (name, sort, min_users) (fetch_tag name sort limit offset min_users) st

  sorted_tag :
      Result EntriesError SortType
      → Bytes
      → ℤ
      → ℤ
      → ℤ
      → cache.Store
      → Result EntriesError (ListResult × Bool) × cache.Store
  unfolding answer_tag
  sorted_tag (err e) name limit offset min_users st = (err e, st)
  sorted_tag (ok sort) name limit offset min_users st =
      let use_cache = eqb_ℤ limit max_tag_limit && (eqb_ℤ offset (pos 0) && enabled) in
      answer_tag (if use_cache then found (cache.get st (name, sort, min_users)) else none)
        use_cache name sort limit offset min_users st

  unfoldable pub list_tag_entries_with_cache_status :
      Bytes → TagListParams → cache.Store → Result EntriesError (ListResult × Bool) × cache.Store
  unfolding resolve_sort sorted_tag
  list_tag_entries_with_cache_status name p st =
      if is_empty name
      then (err tag_required, st)
      else sorted_tag (resolve_sort p.sort) name (tag_limit p.limit) (not_negative p.offset)
          (not_negative p.min_bookmark_count) st
