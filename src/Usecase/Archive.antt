-- ===== src/Usecase/Archive.antt =====
-- internal/usecase/archive/service.go and internal/domain/archive/archive.go: the number of entries
-- by day, with the count of the present day cached apart from those of the past. The date of the
-- present day in Japan, `todayDate`, is an argument of the operations that ask for it; a nil cache
-- is `enabled` false.
pub mod Split
pub mod Examples
use hateblog_backend.Common.{
  suc, ◌-◌, ◌/◌, ap, Bool, true, false, not, ◌&&◌, Option, none, some, List, [], ◌∷◌, if◌then◌else◌,
  all, any, All, ℤ, pos, eqb_ℤ, Result, ok, err, ◌>>=◌, ◌>>◌,
}
use hateblog_backend.Usecase.Ports.{Fault, Cache}

-- The year, month and day of a time in its own location; the service reads nothing else of it.
abbrev pub Date : Type 0
Date = ℤ × ℤ × ℤ

pub record ArchiveCount : Type 0 where
  pub date : Date
  pub count : ℤ

pub data ArchiveError : Type 0 where
  min_users_not_allowed : ArchiveError
  infra : Fault → ArchiveError

-- `IsAllowedMinUsers`, the test of `ValidateMinUsers`.
unfoldable pub is_allowed_min_users : ℤ → Bool
is_allowed_min_users value =
    any (eqb_ℤ value) (pos 5 ∷ pos 10 ∷ pos 50 ∷ pos 100 ∷ pos 500 ∷ pos 1000 ∷ [])

unfoldable pub is_same_date : Date → Date → Bool
is_same_date (y, m, d) (y', m', d') = eqb_ℤ y y' && (eqb_ℤ m m' && eqb_ℤ d d')

-- The loop of `storeInCache`: the last item of the present day, and the other items.
unfoldable pub today_of : Date → List ArchiveCount → Option ArchiveCount → Option ArchiveCount
today_of today [] found = found
today_of today (c ∷ cs) found =
    today_of today cs (if is_same_date c.date today then some c else found)

unfoldable pub past_of : Date → List ArchiveCount → List ArchiveCount
past_of today [] = []
past_of today (c ∷ cs) =
    let rest = past_of today cs in if is_same_date c.date today then rest else c ∷ rest

-- The merge of `getFromCache`.
unfoldable pub merge : Date → Option ArchiveCount → List ArchiveCount → List ArchiveCount
merge today none past = past
merge today (some c) past = if is_same_date c.date today then c ∷ past else past

-- Both parts must be there for a hit.
unfoldable pub both_hit :
    Date → Option (Option ArchiveCount) → Option (List ArchiveCount) → Option (List ArchiveCount)
both_hit today none past = none
both_hit today (some c) none = none
both_hit today (some c) (some past) = some (merge today c past)

-- The first cache is that of the present day, where a nil pointer is a value too.
module _ (repo : ℤ → Result Fault (List ArchiveCount)) (today_cache : Cache ℤ (Option ArchiveCount))
    (past_cache : Cache ℤ (List ArchiveCount)) where
  abbrev pub Stores : Type 0
  Stores = today_cache.Store × past_cache.Store

  -- `none` is a miss.
  unfoldable pub get_from_cache : Date → ℤ → Stores → Result Fault (Option (List ArchiveCount))
  unfolding both_hit
  get_from_cache today min_users (ts, ps) = do
    today_data ← today_cache.get ts min_users
    past_data ← past_cache.get ps min_users
    ok (both_hit today today_data past_data)

  -- SetPast follows a SetToday that succeeds only.
  set_past :
      today_cache.Store × Result Fault (Unit {0})
      → ℤ
      → List ArchiveCount
      → past_cache.Store
      → Stores
  set_past (ts, err f) min_users past ps = (ts, ps)
  set_past (ts, ok u) min_users past ps = (ts, (past_cache.set ps min_users past).0)

  unfoldable pub store_in_cache : Date → ℤ → List ArchiveCount → Stores → Stores
  unfolding set_past
  store_in_cache today min_users items (ts, ps) =
      set_past (today_cache.set ts min_users (today_of today items none)) min_users
        (past_of today items) ps

  -- The answer of the repository, stored if the service has a cache.
  unfoldable pub fetch_counts :
      Bool → Date → ℤ → Stores → Result ArchiveError (List ArchiveCount × Bool) × Stores
  fetch_counts enabled today min_users st = elim (repo min_users) [
    | err f ↦ (err (infra f), st)
    | ok items ↦
        (ok (items, false), if enabled then store_in_cache today min_users items st else st)
  ]

  answer_counts :
      Result Fault (Option (List ArchiveCount))
      → Date
      → ℤ
      → Stores
      → Result ArchiveError (List ArchiveCount × Bool) × Stores
  answer_counts (err f) today min_users st = (err (infra f), st)
  answer_counts (ok (some items)) today min_users st = (ok (items, true), st)
  answer_counts (ok none) today min_users st = fetch_counts true today min_users st

  -- `ListWithCacheStatus`.
  unfoldable pub list_with_cache_status :
      Bool → Date → ℤ → Stores → Result ArchiveError (List ArchiveCount × Bool) × Stores
  unfolding answer_counts
  list_with_cache_status enabled today min_users st =
      if not (is_allowed_min_users min_users)
      then (err min_users_not_allowed, st)
      else if enabled
      then answer_counts (get_from_cache today min_users st) today min_users st
      else fetch_counts false today min_users st
