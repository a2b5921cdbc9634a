-- ===== src/Usecase/Entries/Days.antt =====
-- The entries of a day: what a page holds, and that the cache of the days is transparent.
use hateblog_backend.Common.{
  ℕ, suc, ◌+◌, ◌<◌, ◌≡◌, refl, ap, ap₂, ◌∙◌, ◌⊎◌, inl, inr, Bool, true, false, Option, none, some,
  List, [], ◌∷◌, if◌then◌else◌, length, take, drop, pos, half64, Result, ok, err, ◌>>=◌, Bytes,
  is_empty_cases,
}
use mathlib.Core.List.{Perm}
use hateblog_backend.Domain.Entry.{Entry}
use hateblog_backend.Domain.ListQuery.{SortType, sort_hot}
use hateblog_backend.Pkg.Apptime.{Calendar}
use hateblog_backend.Usecase.Ports.{is_hit, EntryRepository, Cache, IsCache, found, found-some}
use hateblog_backend.Usecase.Entries.{
  or_panic, ListResult, DayListParams, EntriesError, date_required, filter_by_min_users, hotter,
  paginate, fetch_day, store_day, answer_day, load_all_day_entries, arrange, page_of_day, with_page,
  list_day_entries_with_cache_status,
}
use hateblog_backend.Usecase.Entries.Paging.{paginate_page}

-- No entry is hotter than the one before it.
abbrev pub IsHotOrdered : List Entry → Type 0
IsHotOrdered [] = Unit
IsHotOrdered (e ∷ []) = Unit
IsHotOrdered (e ∷ f ∷ es) = (hotter f e ≡ false) × IsHotOrdered (f ∷ es)

-- sort.Slice rearranges the list so that no entry is hotter than the one before it.
pub record Sorts (sort_slice : List Entry → List Entry) : Type 0 where
  pub sorted_perm : (es : List Entry) → Perm (sort_slice es) es
  pub sorted_order : (es : List Entry) → IsHotOrdered (sort_slice es)

module _ (calendar : Calendar) (repo : EntryRepository) (sort_slice : List Entry → List Entry)
    (cache : Cache Bytes (List Entry)) (enabled : Bool) where
  abbrev pub page : SortType → DayListParams → List Entry → Result EntriesError ListResult
  page = page_of_day calendar repo sort_slice cache enabled

  abbrev pub day : Bytes → Result EntriesError (List Entry)
  day = fetch_day calendar repo sort_slice cache enabled

  -- If sort.Slice sorts, a hot page shows `limit` entries from `offset` on of the filtered entries
  -- in hot order, with their number as the total, as long as the offset and the limit together fit
  -- 64 bits.
  pub page_of_day-hot :
      Sorts sort_slice
      → (es : List Entry) (p : DayListParams) (offset limit : ℕ) → p.offset ≡ pos offset
      → p.limit ≡ pos (suc limit)
      → offset + suc limit < half64
      → (hot : List Entry) × Perm hot (filter_by_min_users es p.min_bookmark_count)
        × IsHotOrdered hot
        × (page sort_hot p es
            ≡ ok
                (record { entries = take (suc limit) (drop offset hot); total = pos (length hot) }))
  unfolding page_of_day arrange
  page_of_day-hot sorts es p offset limit o l fits =
      let filtered = filter_by_min_users es p.min_bookmark_count in
      (
        sort_slice filtered,
        sorts.sorted_perm filtered,
        sorts.sorted_order filtered,
        rw
            (ap₂ (paginate (sort_slice filtered)) o l
              ∙ paginate_page (sort_slice filtered) offset limit fits)
            (unfold or_panic in refl),
      )

  -- Every list in the cache is what the repository answers for the day.
  abbrev pub IsCoherent : cache.Store → Type 0
  IsCoherent st =
      (date : Bytes) (es : List Entry) → cache.get st date ≡ ok (some es) → day date ≡ ok es

  abbrev pub with_status {ℓ} :
      {A : Type ℓ} → Bool → Result EntriesError A → Result EntriesError (A × Bool)
  with_status hit (ok a) = ok (a, hit)
  with_status hit (err e) = err e

  store_day-IsCoherent :
      IsCache cache
      → (date : Bytes) (d : Result EntriesError (List Entry)) (st : cache.Store) → day date ≡ d
      → IsCoherent st
      → IsCoherent (store_day calendar repo sort_slice cache enabled date d st).1
  unfolding store_day
  store_day-IsCoherent law date (err e) st same coh = coh
  store_day-IsCoherent law date (ok es) st same coh = go enabled
    where
      go : (u : Bool) → IsCoherent (if u then (cache.set st date es).0 else st)
      go false d ws h = coh d ws h
      go true d ws h = elim (law.get-set st date es d ws h) [
        | inl (k, w) ↦ rw (k, w) same
        | inr before ↦ coh d ws before
      ]

  store_day-status :
      (date : Bytes) (d : Result EntriesError (List Entry)) (st : cache.Store)
      → (store_day calendar repo sort_slice cache enabled date d st).0 ≡ with_status false d
  unfolding store_day
  store_day-status date (ok es) st = refl
  store_day-status date (err e) st = refl

  -- The list of the day is a hit if the service has a cache, which finds the day.
  abbrev pub is_day_hit : Bytes → cache.Store → Bool
  is_day_hit date st = is_hit (if enabled then found (cache.get st date) else none)

  abbrev IsDay : Bool → Bytes → Result EntriesError (List Entry × Bool) × cache.Store → Type 0
  IsDay hit date out = (out.0 ≡ with_status hit (day date)) × IsCoherent out.1

  answer_day-IsDay :
      IsCache cache
      → (o : Option (List Entry)) (date : Bytes) (st : cache.Store)
      → ((es : List Entry) → o ≡ some es → day date ≡ ok es)
      → IsCoherent st
      → IsDay (is_hit o) date (answer_day calendar repo sort_slice cache enabled o date st)
  unfolding answer_day
  answer_day-IsDay law (some es) date st right coh = (rw (right es refl), coh)
  answer_day-IsDay law none date st right coh =
      (store_day-status date (day date) st, store_day-IsCoherent law date (day date) st refl coh)

  load_all_day_entries-IsDay :
      IsCache cache
      → (date : Bytes) (st : cache.Store) → IsCoherent st
      → IsDay
          (is_day_hit date st)
          date
          (load_all_day_entries calendar repo sort_slice cache enabled date st)
  unfolding load_all_day_entries
  load_all_day_entries-IsDay law date st coh =
      answer_day-IsDay law (if enabled then found (cache.get st date) else none) date st
        (right enabled) coh
    where
      right :
          (u : Bool) (es : List Entry)
          → (if u then found (cache.get st date) else none) ≡ some es
          → day date ≡ ok es
      right true es h = coh date es (found-some (cache.get st date) h)
      right false es h = cc

  with_page-status :
      (sort : SortType) (p : DayListParams) (hit : Bool) (d : Result EntriesError (List Entry))
      → with_page calendar repo sort_slice cache enabled sort p (with_status hit d)
        ≡ with_status hit (d >>= page sort p)
  unfolding with_page
  with_page-status sort p hit (err e) = refl
  with_page-status sort p hit (ok es) = go (page sort p es)
    where
      go : (m : Result EntriesError ListResult) → (m >>= λ r. ok (r, hit)) ≡ with_status hit m
      go (ok r) = refl
      go (err e) = refl

  -- For a cache that finds only what was set: with a cache that holds only what the repository
  -- answers, the service shows the page of the repository's day, with the cache status and even if
  -- the lookup fails, and the cache stays so. A request without a date is refused.
  pub list_day_entries-page :
      IsCache cache
      → (sort : SortType) (p : DayListParams) (st : cache.Store) → IsCoherent st
      → let out =
          list_day_entries_with_cache_status calendar repo sort_slice cache enabled sort p st in
        (((p.date ≡ []) × (out.0 ≡ err date_required))
          ⊎ (out.0 ≡ with_status (is_day_hit p.date st) (day p.date >>= page sort p)))
        × IsCoherent out.1
  unfolding list_day_entries_with_cache_status
  list_day_entries-page law sort p st coh = elim (is_empty_cases p.date) [
    | inl (e, t) ↦ rw t (inl (e, refl), coh)
    | inr (e, t) ↦
        let (same, kept) = load_all_day_entries-IsDay law p.date st coh in
        rw t (
          inr (
              ap (with_page calendar repo sort_slice cache enabled sort p) same
              ∙ with_page-status sort p (is_day_hit p.date st) (day p.date)),
          kept,
        )
  ]
